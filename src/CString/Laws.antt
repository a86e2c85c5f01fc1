-- ===== src/CString/Laws.antt =====
-- src/string.c: what the string and memory functions compute.
use cindy_os.Base.{
  ℕ, zero, suc, ◌+◌, ◌%◌, ◌≤◌, ◌<◌, ◌≡◌, ◌≢◌, ◌⊎◌, refl, sym, ap, subst, subst₂, ◌∙◌, inl, inr,
  arith, u8, ok, lt_or_le,
}
use cindy_os.Base.Ram.{Ram, store8}
use cindy_os.CString.{strcmp, strncmp, strlen_from, strlen, memset, memcpy, byte_difference}
use native.Mathlib.Decide.{ℕ_discrete}

-- A string of `n` characters begins at `s`.
pub record IsString (m : Ram) (s n : ℕ) : Type 0 where
  pub chars : (i : ℕ) → i < n → m (s + i) ≢ 0
  pub ends : m (s + n) ≡ 0

store8_self : (m : Ram) (a v : ℕ) → v < 256 → store8 m a v a ≡ v
unfolding store8
store8_self m a v h = ground arith

store8_ne : (m : Ram) (a v x : ℕ) → x ≢ a → store8 m a v x ≡ m x
unfolding store8
store8_ne m a v x h = ground arith

strlen_from_lem :
    (fuel : ℕ) (m : Ram) (s len n : ℕ)
    → IsString m s n
    → len ≤ n
    → n < len + fuel
    → strlen_from fuel m s len ≡ ok n
unfolding strlen_from
strlen_from_lem zero m s len n str le enough = absurd (omega arith)
strlen_from_lem (suc fuel) m s len n str le enough = elim (lt_or_le len n) [
  | inl lt ↦ ground (arith, str.chars len lt, strlen_from_lem fuel m s (len + 1) n str)
  | inr ge ↦ ground (arith, str.ends, ap (λ t. m (s + t)) (same len n le ge))
]
  where
    same : (a b : ℕ) → a ≤ b → b ≤ a → a ≡ b
    same a b p q = omega arith

-- `strlen` returns the number of characters before the first 0.
pub strlen_lem : (fuel : ℕ) (m : Ram) (s n : ℕ) → IsString m s n → n < fuel → strlen fuel m s ≡ ok n
unfolding strlen
strlen_lem fuel m s n str enough = strlen_from_lem fuel m s 0 n str (omega arith) (omega arith)

-- `memset` writes the byte to each of the `n` places and to no other.
pub memset_lem :
    (n p val : ℕ) (m : Ram) (x : ℕ)
    → ((p ≤ x) × (x < p + n) → memset p val n m x ≡ val % 256)
      × ((x < p) ⊎ (p + n ≤ x) → memset p val n m x ≡ m x)
unfolding memset
memset_lem zero p val m x = (λ (a, b). absurd (omega arith), λ o. refl)
memset_lem (suc n) p val m x =
    let rest = memset_lem n (p + 1) val (store8 m p (u8 val)) x in
    (
      λ (a, b). elim (ℕ_discrete x p) [
        | yes e ↦ rest.1 (inl (omega arith)) ∙ rw e (store8_self m p (u8 val) (omega arith))
        | no ne ↦ rest.0 (omega arith, omega arith)
      ],
      λ o. rest.1 (omega arith) ∙ store8_ne m p (u8 val) x (omega arith),
    )

memcpy_outside : (n d s : ℕ) (m : Ram) (x : ℕ) → (x < d) ⊎ (d + n ≤ x) → memcpy d s n m x ≡ m x
unfolding memcpy
memcpy_outside zero d s m x o = refl
memcpy_outside (suc n) d s m x o =
    memcpy_outside n (d + 1) (s + 1) (store8 m d (m s)) x (omega arith)
    ∙ store8_ne m d (m s) x (omega arith)

memcpy_inside :
    (n d s : ℕ) (m : Ram)
    → ((a : ℕ) → m a < 256)
    → (d + n ≤ s) ⊎ (s + n ≤ d)
    → (i : ℕ) → i < n
    → memcpy d s n m (d + i) ≡ m (s + i)
unfolding memcpy
memcpy_inside zero d s m bytes apart i lt = absurd (omega arith)
memcpy_inside (suc n) d s m bytes apart zero lt =
    memcpy_outside n (d + 1) (s + 1) (store8 m d (m s)) (d + 0) (omega arith)
    ∙ ap (store8 m d (m s)) (plus_zero d)
    ∙ store8_self m d (m s) (bytes s)
    ∙ ap m (sym (plus_zero s))
  where
    plus_zero : (a : ℕ) → a + 0 ≡ a
    plus_zero a = omega arith
memcpy_inside (suc n) d s m bytes apart (suc i) lt =
    ap (memcpy (d + 1) (s + 1) n (store8 m d (m s))) (shift d i)
    ∙ memcpy_inside n (d + 1) (s + 1) (store8 m d (m s)) bytes' (omega arith) i (omega arith)
    ∙ store8_ne m d (m s) (s + 1 + i) (omega arith)
    ∙ ap m (sym (shift s i))
  where
    shift : (a b : ℕ) → a + suc b ≡ a + 1 + b
    shift a b = omega arith

    bytes' : (a : ℕ) → store8 m d (m s) a < 256
    bytes' a = elim (ℕ_discrete a d) [
      | yes e ↦ rw (e, store8_self m d (m s) (bytes s)) (bytes s)
      | no ne ↦ rw (store8_ne m d (m s) a ne) (bytes a)
    ]

-- `memcpy` between regions that do not overlap copies each byte and writes nothing else.
pub memcpy_lem :
    (n d s : ℕ) (m : Ram)
    → ((a : ℕ) → m a < 256)
    → (d + n ≤ s) ⊎ (s + n ≤ d)
    → ((i : ℕ) → i < n → memcpy d s n m (d + i) ≡ m (s + i))
      × ((x : ℕ) → (x < d) ⊎ (d + n ≤ x) → memcpy d s n m x ≡ m x)
memcpy_lem n d s m bytes apart = (memcpy_inside n d s m bytes apart, memcpy_outside n d s m)

-- The first place where two strings differ or end decides `strcmp`: the result is the difference
-- of the two bytes there, so it is 0 exactly if they are equal.
pub strcmp_lem :
    (fuel : ℕ) (m : Ram) (s1 s2 n : ℕ)
    → ((i : ℕ) → i < n → (m (s1 + i) ≢ 0) × (m (s1 + i) ≡ m (s2 + i)))
    → (m (s1 + n) ≡ 0) ⊎ (m (s1 + n) ≢ m (s2 + n))
    → n < fuel
    → strcmp fuel m s1 s2 ≡ ok (byte_difference (m (s1 + n)) (m (s2 + n)))
unfolding strcmp
strcmp_lem zero m s1 s2 n same differ enough = absurd (omega arith)
strcmp_lem (suc fuel) m s1 s2 zero same differ enough =
    ground (arith, differ, ap m (plus_zero s1), ap m (plus_zero s2))
  where
    plus_zero : (a : ℕ) → a + 0 ≡ a
    plus_zero a = omega arith
strcmp_lem (suc fuel) m s1 s2 (suc n) same differ enough = ground (
  arith,
  same 0,
  ap m (plus_zero s1),
  ap m (plus_zero s2),
  ap m (shift s1 n),
  ap m (shift s2 n),
  strcmp_lem fuel m (s1 + 1) (s2 + 1) n (λ i p. later i p)
      (subst₂ (λ a b. (m a ≡ 0) ⊎ (m a ≢ m b)) (shift s1 n) (shift s2 n) differ) (omega arith),
)
  where
    plus_zero : (a : ℕ) → a + 0 ≡ a
    plus_zero a = omega arith

    shift : (a b : ℕ) → a + suc b ≡ a + 1 + b
    shift a b = omega arith

    later : (i : ℕ) → i < n → (m (s1 + 1 + i) ≢ 0) × (m (s1 + 1 + i) ≡ m (s2 + 1 + i))
    later i p =
        subst₂ (λ a b. (m a ≢ 0) × (m a ≡ m b)) (shift s1 i) (shift s2 i)
          (same (suc i) (omega arith))

-- Two regions with the same bytes are equal for `strncmp`, which reads no byte past them.
pub strncmp_same :
    (n : ℕ) (m : Ram) (s1 s2 : ℕ)
    → ((i : ℕ) → i < n → (m (s1 + i) ≡ m (s2 + i)) × (m (s1 + i) < 256))
    → strncmp m s1 s2 n ≡ 0
unfolding strncmp
strncmp_same zero m s1 s2 same = refl
strncmp_same (suc n) m s1 s2 same =
    let z : s1 + 0 ≡ s1 = omega arith in
    let z' : s2 + 0 ≡ s2 = omega arith in
    let (here, small) = same 0 (omega arith) in
    let e : m s1 ≡ m s2 = ap m (sym z) ∙ (here ∙ ap m z') in
    let small' : m s1 < 256 = subst (λ a. m a < 256) z small in
    let rest : strncmp m (s1 + 1) (s2 + 1) n ≡ 0 = strncmp_same n m (s1 + 1) (s2 + 1) λ i lt.
      subst₂ (λ a b. (m a ≡ m b) × (m a < 256)) (omega arith) (omega arith)
        (same (suc i) (omega arith)) in
    ground (arith, e, small', rest)

pub strncmp_ext :
    (n : ℕ) (m m' : Ram) (s1 s2 : ℕ)
    → ((i : ℕ) → i < n → (m (s1 + i) ≡ m' (s1 + i)) × (m (s2 + i) ≡ m' (s2 + i)))
    → strncmp m s1 s2 n ≡ strncmp m' s1 s2 n
unfolding strncmp
strncmp_ext zero m m' s1 s2 same = refl
strncmp_ext (suc n) m m' s1 s2 same =
    let z : s1 + 0 ≡ s1 = omega arith in
    let z' : s2 + 0 ≡ s2 = omega arith in
    let (first, second) = subst₂ (λ a b. (m a ≡ m' a) × (m b ≡ m' b)) z z' (same 0 (omega arith)) in
    rw
      (
        first,
        second,
        strncmp_ext n m m' (s1 + 1) (s2 + 1) λ i lt.
            subst₂ (λ a b. (m a ≡ m' a) × (m b ≡ m' b)) (omega arith) (omega arith)
              (same (suc i) (omega arith)),
      )
      refl
