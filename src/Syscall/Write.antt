-- ===== src/Syscall/Write.antt =====
-- src/syscall.c: SYS_WRITE hands the whole buffer to `print`, in chunks, and returns its length.
use cindy_os.Base.{
  ℕ, zero, suc, ◌+◌, ◌-◌, ◌*◌, ◌/◌, ◌≤◌, ◌<◌, ◌≡◌, ◌≢◌, ◌⊎◌, inl, inr, refl, sym, ap, ap₂, ◌∙◌,
  subst, true, some, List, ◌∷◌, ◌++◌, arith, ltb, ◌==◌, ◌!=◌, if◌then◌else◌, add32, ok, lt_or_le,
  lt→ltb, le→ltb-false, ne→==, ◌||◌, true_and_false, Returns-inv,
}
use cindy_os.Paging.{Machine}
use cindy_os.Paging.{validate_user_region}
use cindy_os.Paging.User.{IsUser, Checked, validate_in}
use cindy_os.CString.{printed}
use cindy_os.Syscall.{
  System, Frame, set_eax, read_bytes, copy_from_user, validate_user_ptr, write_loop, sys_write,
}
use mathlib.Core.List.{append-nil, append_assoc}

-- User mode may read the buffer, all of it in its part of the address space.
abbrev pub IsReadable : Machine → ℕ → ℕ → Type 0
IsReadable m buf len =
    (1048576 ≤ buf) × (buf + len ≤ 3221225472) × ((x : ℕ) → buf ≤ x → x < buf + len → IsUser m x)

-- Then no part of it is refused, wherever it begins.
validate_part :
    (m : Machine) (buf len o t : ℕ)
    → IsReadable m buf len
    → 0 < t
    → o + t ≤ len
    → validate_user_region (buf + o) t m ≡ ok 1
validate_part m buf len o t (low, high, user) pos fits =
    let (r, runs, checked) = Returns-inv (
      validate_in (buf + o) t m (omega arith) (omega arith) (omega arith)
        (omega arith, omega arith)) in
    runs ∙ ap ok (accepted r checked)
  where
    accepted : (r : ℕ) → Checked m (buf + o) (buf + o + t) r → r ≡ 1
    accepted r (inl (e, all)) = e
    accepted r (inr (e, (k, p, bad))) =
        absurd (true_and_false (user (buf + o + 4096 * k) (omega arith) (omega arith)) bad)

module _ (cpu_read : Machine → ℕ → ℕ) where
  -- The buffer of `len` bytes holds no 0, at which `print` would stop.
  abbrev pub NoNul : Machine → ℕ → ℕ → Type 0
  NoNul m buf len = (i : ℕ) → i < len → cpu_read m (buf + i) ≢ 0

  -- Any part of the buffer is copied, whatever has been printed before.
  abbrev pub Copies : System → ℕ → ℕ → Type 0
  Copies s buf len =
      (console : List ℕ) (o t : ℕ)
      → 0 < t
      → o + t ≤ len
      → (if s.syscall_kernel_fallback != 0
          then ok (some (read_bytes cpu_read s.machine (add32 buf o) t))
          else copy_from_user cpu_read (add32 buf o) t (record s { console = console }))
        ≡ ok (some (read_bytes cpu_read s.machine (buf + o) t))

  printed_all :
      (m : Machine) (n a : ℕ)
      → a + n < 4294967296
      → ((i : ℕ) → i < n → cpu_read m (a + i) ≢ 0)
      → printed (read_bytes cpu_read m a n) ≡ read_bytes cpu_read m a n
  unfolding printed read_bytes
  printed_all m zero a h f = refl
  printed_all m (suc n) a h f =
      rw (ne→== (cpu_read m a) 0 (first a (f 0 (omega arith))), next)
        (ap (λ t. cpu_read m a ∷ t)
          (printed_all m n (a + 1) (omega arith) λ i p. later a i (f (suc i) (omega arith))))
    where
      next : add32 a 1 ≡ a + 1
      next = omega arith

      first : (b : ℕ) → cpu_read m (b + 0) ≢ 0 → cpu_read m b ≢ 0
      first b h = subst (λ c. cpu_read m c ≢ 0) (omega arith) h

      later : (b i : ℕ) → cpu_read m (b + suc i) ≢ 0 → cpu_read m (b + 1 + i) ≢ 0
      later b i h = subst (λ c. cpu_read m c ≢ 0) (omega arith) h

  read_bytes-append :
      (m : Machine) (n k a : ℕ)
      → a + n + k < 4294967296
      → read_bytes cpu_read m a n ++ read_bytes cpu_read m (a + n) k
        ≡ read_bytes cpu_read m a (n + k)
  unfolding read_bytes
  read_bytes-append m zero k a h = ap₂ (read_bytes cpu_read m) (omega arith) (omega arith)
  read_bytes-append m (suc n) k a h = rw next (
      ap (λ t. cpu_read m a ∷ t)
        (ap (λ b. read_bytes cpu_read m (a + 1) n ++ read_bytes cpu_read m b k) (shift a n)
          ∙ read_bytes-append m n k (a + 1) (omega arith))
      ∙ ap (λ t. cpu_read m a ∷ read_bytes cpu_read m t (n + k)) (sym next)
      ∙ ap (read_bytes cpu_read m a) (count n k))
    where
      next : add32 a 1 ≡ a + 1
      next = omega arith

      shift : (b c : ℕ) → b + suc c ≡ b + 1 + c
      shift b c = omega arith

      count : (b c : ℕ) → suc (b + c) ≡ suc b + c
      count b c = omega arith

  write_loop_lem :
      (fuel buf len offset : ℕ) (s : System) (console : List ℕ)
      → Copies s buf len
      → buf + len < 4294967296
      → NoNul s.machine buf len
      → offset ≤ len
      → len + 1024 ≤ offset + 1024 * fuel
      → write_loop cpu_read fuel buf len offset (record s { console = console })
        ≡ ok (
          len,
          record s {
            console = console ++ read_bytes cpu_read s.machine (buf + offset) (len - offset);
          },
        )
  unfolding write_loop read_bytes
  write_loop_lem zero buf len offset s console copies small nonul le enough = absurd (omega arith)
  write_loop_lem (suc fuel) buf len offset s console copies small nonul le enough =
      elim (lt_or_le offset len) [
        | inr ge ↦ rw (le→ltb-false offset len ge) (
            ap₂ (λ n c. ok (n, record s { console = c })) (omega arith)
              (sym (append-nil console)
                ∙ ap (λ n. console ++ read_bytes cpu_read s.machine (buf + offset) n)
                    (zero_left ge)))
        | inl lt ↦
            rw (lt→ltb offset len lt, copies console offset chunk (pos lt) (fits lt))
              (write_loop_lem fuel buf len (offset + chunk) s _ copies small nonul (fits lt)
                  (left lt)
                ∙ ap (λ c. ok (len, record s { console = c })) (shown lt))
      ]
    where
      chunk : ℕ
      chunk = if ltb 1024 (len - offset) then 1024 else len - offset

      pos : offset < len → 0 < chunk
      pos lt = ground arith

      fits : offset < len → offset + chunk ≤ len
      fits lt = ground arith

      left : offset < len → len + 1024 ≤ offset + chunk + 1024 * fuel
      left lt = ground arith

      zero_left : len ≤ offset → 0 ≡ len - offset
      zero_left ge = omega arith

      regroup : (a b c : ℕ) → a + (b + c) ≡ a + b + c
      regroup a b c = omega arith

      below : offset < len → buf + offset + chunk < 4294967296
      below lt = omega (arith, fits lt)

      all_below : offset < len → buf + offset + chunk + (len - (offset + chunk)) < 4294967296
      all_below lt = omega (arith, fits lt)

      inside : offset < len → (i : ℕ) → i < chunk → offset + i < len
      inside lt i p = omega (arith, fits lt)

      total : offset < len → chunk + (len - (offset + chunk)) ≡ len - offset
      total lt = omega (arith, fits lt)

      shown :
          offset < len
          → (console ++ printed (read_bytes cpu_read s.machine (buf + offset) chunk))
              ++ read_bytes cpu_read s.machine (buf + (offset + chunk)) (len - (offset + chunk))
            ≡ console ++ read_bytes cpu_read s.machine (buf + offset) (len - offset)
      shown lt =
          append_assoc console (printed (read_bytes cpu_read s.machine (buf + offset) chunk)) _
          ∙ ap (λ t. console ++ t)
              (ap₂ (λ t b. t ++ read_bytes cpu_read s.machine b (len - (offset + chunk)))
                  (printed_all s.machine chunk (buf + offset) (below lt) λ i p.
                    subst (λ a. cpu_read s.machine a ≢ 0) (regroup buf offset i)
                      (nonul (offset + i) (inside lt i p)))
                  (regroup buf offset chunk)
                ∙ read_bytes-append s.machine chunk (len - (offset + chunk)) (buf + offset)
                    (all_below lt)
                ∙ ap (read_bytes cpu_read s.machine (buf + offset)) (total lt))

  user-Copies :
      (s : System) (buf len : ℕ)
      → s.syscall_kernel_fallback ≡ 0
      → IsReadable s.machine buf len
      → Copies s buf len
  unfolding copy_from_user validate_user_ptr
  user-Copies s buf len k readable console o t pos fits =
      rw
        (
          k,
          same o t fits,
          ne→== (buf + o) 0 (omega (arith, readable.0)),
          validate_part s.machine buf len o t readable pos fits,
        )
        refl
    where
      same : (a b : ℕ) → a + b ≤ len → add32 buf a ≡ buf + a
      same a b h = omega (arith, readable.1)

  -- SYS_WRITE on stdout or stderr, from user mode, of a buffer with no 0 that user mode may read: the
  -- whole buffer is printed once, in order, `eax` is its length, and nothing else changes.
  pub sys_write-user :
      (s : System) (f : Frame)
      → (f.regs.ebx ≡ 1) ⊎ (f.regs.ebx ≡ 2)
      → s.syscall_kernel_fallback ≡ 0
      → IsReadable s.machine f.regs.ecx f.regs.edx
      → NoNul s.machine f.regs.ecx f.regs.edx
      → sys_write cpu_read s f
        ≡ ok (
          record s { console = s.console ++ read_bytes cpu_read s.machine f.regs.ecx f.regs.edx },
          set_eax f.regs.edx f,
        )
  unfolding sys_write
  sys_write-user s f fd k readable nonul =
      rw
        (
          is_output fd,
          write_loop_lem (f.regs.edx / 1024 + 2) f.regs.ecx f.regs.edx 0 s s.console
              (user-Copies s f.regs.ecx f.regs.edx k readable) (omega (arith, readable.1)) nonul
              (omega arith) (omega arith),
        )
        (ap₂
          (λ a n. ok (
            record s { console = s.console ++ read_bytes cpu_read s.machine a n },
            set_eax f.regs.edx f,
          ))
          (plus_zero f.regs.ecx) (minus_zero f.regs.edx))
    where
      is_output : (f.regs.ebx ≡ 1) ⊎ (f.regs.ebx ≡ 2) → (f.regs.ebx == 1 || f.regs.ebx == 2) ≡ true
      is_output h = ground arith

      plus_zero : (a : ℕ) → a + 0 ≡ a
      plus_zero a = omega arith

      minus_zero : (a : ℕ) → a - 0 ≡ a
      minus_zero a = omega arith
