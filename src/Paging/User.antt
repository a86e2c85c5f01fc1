-- ===== src/Paging/User.antt =====
-- src/paging.c: what `validate_user_region` checks of a region, and what it does not.
use cindy_os.Base.{
  ℕ, zero, suc, ◌+◌, ◌-◌, ◌*◌, ◌/◌, ◌%◌, ◌≤◌, ◌<◌, ◌≡◌, ◌≢◌, ◌⊎◌, ◌↔◌, refl, ap₂, subst, inl, inr,
  Bool, true, false, ◌&&◌, ◌||◌, arith, ltb, leb, ◌==◌, if◌then◌else◌, bit_and, add32, Run, ok,
  Returns, returns, Returns-mono, Bool-cases, true_and_false, lt_or_le, lt→ltb, le→ltb-false, ne→==,
}
use cindy_os.Base.Bits.{bit, bit_and_pow, bit_and_mask}
use cindy_os.Base.Ram.{load32}
use cindy_os.Paging.{
  Machine, pd_index, pt_index, pde_at, get_pte, validate_pages, validate_user_region,
}

-- The page of `v` is mapped for user mode: its entry has the bits "present" and "user".
abbrev pub user_page : Machine → ℕ → Bool
user_page s v = get_pte v s % 2 == 1 && get_pte v s / 4 % 2 == 1

abbrev pub IsUser : Machine → ℕ → Type 0
IsUser s v = user_page s v ≡ true

user_bit : (e : ℕ) → bit_and e 4 ≡ e / 4 % 2 * 4
unfolding bit
user_bit e = omega (arith, bit_and_pow 2 e)

-- Only the page of an address matters.
pub get_pte-page : (v w : ℕ) (s : Machine) → v / 4096 ≡ w / 4096 → get_pte v s ≡ get_pte w s
unfolding get_pte pd_index pt_index
get_pte-page v w s e =
    ap₂
      (λ d p.
        if bit_and (pde_at s d) 1 == 0
        then 0
        else load32 s.ram (bit_and (pde_at s d) 0xFFFFF000 + 4 * bit_and p 0x3FF))
      (omega arith) e

pub IsUser-page : (v w : ℕ) (s : Machine) → v / 4096 ≡ w / 4096 → IsUser s v → IsUser s w
IsUser-page v w s e h = subst (λ n. (n % 2 == 1 && n / 4 % 2 == 1) ≡ true) (get_pte-page v w s e) h

-- The tests of one round of the loop.
round_test :
    (s : Machine) (addr : ℕ) (rest : Run ℕ)
    → addr < 4294967296
    → (if leb 1024 (addr / 4194304)
        then ok 0
        else if bit_and (pde_at s (addr / 4194304)) 1 == 0
        then ok 0
        else if bit_and
              (load32 s.ram
                (bit_and (pde_at s (addr / 4194304)) 0xFFFFF000 + 4 * bit_and (addr / 4096) 0x3FF))
              1
            == 0
        then ok 0
        else if bit_and
              (load32 s.ram
                (bit_and (pde_at s (addr / 4194304)) 0xFFFFF000 + 4 * bit_and (addr / 4096) 0x3FF))
              4
            == 0
        then ok 0
        else rest)
      ≡ (if user_page s addr then rest else ok 0)
unfolding get_pte pd_index pt_index
round_test s addr rest h =
    let pte =
      load32 s.ram
        (bit_and (pde_at s (addr / 4194304)) 0xFFFFF000 + 4 * bit_and (addr / 4096) 0x3FF) in
    ground (arith, bit_and_mask 1 pte, user_bit pte)

-- The addresses that the loop looks at: every 4096th from `addr` on.
abbrev pub Checked : Machine → ℕ → ℕ → ℕ → Type 0
Checked s addr stop r =
    ((r ≡ 1) × ((k : ℕ) → addr + 4096 * k < stop → IsUser s (addr + 4096 * k)))
    ⊎ ((r ≡ 0) × ((k : ℕ) × (addr + 4096 * k < stop) × (user_page s (addr + 4096 * k) ≡ false)))

-- What holds from the next page on, with the page at `addr` itself, holds from `addr` on.
Checked-cons :
    (s : Machine) (addr stop : ℕ)
    → IsUser s addr
    → (r : ℕ) → Checked s (addr + 4096) stop r
    → Checked s addr stop r
Checked-cons s addr stop good r (inl (e, all)) = inl (e, rest)
  where
    rest : (k : ℕ) → addr + 4096 * k < stop → IsUser s (addr + 4096 * k)
    rest zero p = subst (λ a. IsUser s a) (omega arith) good
    rest (suc k) p = subst (λ a. IsUser s a) (omega arith) (all k (omega arith))
Checked-cons s addr stop good r (inr (e, (k, p, bad))) =
    inr (e, (suc k, omega arith, subst (λ a. user_page s a ≡ false) (omega arith) bad))

validate_pages_lem :
    (fuel addr stop : ℕ) (s : Machine)
    → stop ≤ 3221225472
    → addr < stop + 4096
    → stop + 4096 ≤ addr + 4096 * fuel
    → Returns (Checked s addr stop) (validate_pages fuel addr stop s)
unfolding validate_pages
validate_pages_lem zero addr stop s low near enough = absurd (omega arith)
validate_pages_lem (suc fuel) addr stop s low near enough = elim (lt_or_le addr stop) [
  | inr ge ↦ rw (le→ltb-false addr stop ge) (returns (inl (refl, λ k p. absurd (omega arith))))
  | inl lt ↦
      rw (lt→ltb addr stop lt, round_test s addr _ (omega arith))
        (elim (Bool-cases (user_page s addr)) [
          | inr bad ↦ rw bad (returns (inr (refl, (0, omega arith, at_zero addr bad))))
          | inl good ↦
              rw (good, next addr stop lt low)
                (Returns-mono
                  (validate_pages_lem fuel (addr + 4096) stop s low (omega arith) (omega arith))
                  (Checked-cons s addr stop good))
        ])
]
  where
    next : (a b : ℕ) → a < b → b ≤ 3221225472 → add32 a 4096 ≡ a + 4096
    next a b p q = omega arith

    at_zero : (a : ℕ) → user_page s a ≡ false → user_page s (a + 4096 * 0) ≡ false
    at_zero a h = subst (λ b. user_page s b ≡ false) (omega arith) h

-- The region as the code accepts it: in the user part of the address space.
abbrev pub InRange : ℕ → ℕ → Type 0
InRange addr len = (1048576 ≤ addr) × (addr + len ≤ 3221225472)

module _ (addr len : ℕ) (s : Machine) (small : addr < 4294967296) (small' : len < 4294967296)
    (some_bytes : len ≢ 0) where
  pub validate_in :
      InRange addr len → Returns (Checked s addr (addr + len)) (validate_user_region addr len s)
  unfolding validate_user_region
  validate_in r =
      rw (ne→== len 0 some_bytes, stop, low, high)
        (validate_pages_lem 786433 addr (addr + len) s (omega arith) (omega arith) (omega arith))
    where
      stop : add32 addr len ≡ addr + len
      stop = omega arith

      low : (ltb addr 1048576 || leb 3221225472 addr) ≡ false
      low = ground arith

      high : (ltb (addr + len) addr || ltb 3221225472 (addr + len)) ≡ false
      high = ground arith

  validate_out : ¬ InRange addr len → validate_user_region addr len s ≡ ok 0
  unfolding validate_user_region
  validate_out out = ground (arith, not_both)
    where
      not_both : (1048576 ≤ addr) → (addr + len ≤ 3221225472) → ⊥
      not_both p q = out (p, q)

-- For a region that begins on a page boundary the result is 1 exactly if the region lies in the
-- user part of the address space and every byte of it is on a page mapped for user mode.
pub validate_user_region_aligned :
    (addr len : ℕ) (s : Machine)
    → addr < 4294967296
    → len < 4294967296
    → len ≢ 0
    → addr % 4096 ≡ 0
    → Returns
        (λ r. (r ≡ 1) ↔ (InRange addr len × ((x : ℕ) → addr ≤ x → x < addr + len → IsUser s x)))
        (validate_user_region addr len s)
validate_user_region_aligned addr len s small small' some_bytes aligned =
    elim (dec_range addr len) [
      | inr out ↦
          rw (validate_out addr len s small small' some_bytes out)
            (returns (λ e. absurd (omega arith), λ h. absurd (out h.0)))
      | inl r ↦ Returns-mono (validate_in addr len s small small' some_bytes r) λ n c. decided n c r
    ]
  where
    dec_range : (a l : ℕ) → InRange a l ⊎ (¬ InRange a l)
    dec_range a l = elim (lt_or_le a 1048576) [
      | inl lt ↦ inr (λ r. absurd (omega arith))
      | inr ge ↦ elim (lt_or_le 3221225472 (a + l)) [
        | inl past ↦ inr (λ r. absurd (omega arith))
        | inr fits ↦ inl (ge, fits)
      ]
    ]

    decided :
        (n : ℕ)
        → Checked s addr (addr + len) n
        → InRange addr len
        → (n ≡ 1) ↔ (InRange addr len × ((x : ℕ) → addr ≤ x → x < addr + len → IsUser s x))
    decided n (inl (e, all)) r = (
      λ one. (
        r,
        λ x p q.
            IsUser-page (addr + 4096 * ((x - addr) / 4096)) x s (omega arith)
              (all ((x - addr) / 4096) (omega arith)),
      ),
      λ h. e,
    )
    decided n (inr (e, (k, p, bad))) r = (
      λ one. absurd (omega arith),
      λ h. absurd (true_and_false (h.1 (addr + 4096 * k) (omega arith) p) bad),
    )

-- For a region that does not begin on a page boundary the last page may go unchecked: with at most
-- 4096 bytes only the first page is looked at, so the result is 1 also where the region ends on a
-- page that user mode may not touch.
pub validate_user_region_gap :
    (addr len : ℕ) (s : Machine)
    → InRange addr len
    → len ≢ 0
    → len ≤ 4096
    → IsUser s addr
    → user_page s (addr + len - 1) ≡ false
    → Returns
        (λ r. (r ≡ 1) × (x : ℕ) × (addr ≤ x) × (x < addr + len) × (user_page s x ≡ false))
        (validate_user_region addr len s)
validate_user_region_gap addr len s r some_bytes short first bad =
    Returns-mono (validate_in addr len s (omega arith) (omega arith) some_bytes r)
      λ n c. accepted n c
  where
    accepted :
        (n : ℕ)
        → Checked s addr (addr + len) n
        → (n ≡ 1) × (x : ℕ) × (addr ≤ x) × (x < addr + len) × (user_page s x ≡ false)
    accepted n (inl (e, all)) = (e, addr + len - 1, omega arith, omega arith, bad)
    accepted n (inr (e, (zero, p, no_user))) =
        absurd (true_and_false first (subst (λ a. user_page s a ≡ false) (omega arith) no_user))
    accepted n (inr (e, (suc k, p, no_user))) = absurd (omega arith)
