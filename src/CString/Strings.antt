-- ===== src/CString/Strings.antt =====
-- src/string.c: strings in memory as lists of characters.
use cindy_os.Base.{
  ℕ, zero, suc, ◌+◌, ◌<◌, ◌≡◌, ◌≢◌, refl, arith, ◌==◌, ◌!=◌, ◌&&◌, List, [], ◌∷◌, length, min, ◌≤◌,
  sym, ◌∙◌, Bool, true, false, Bool-cases, inl, inr, ne→==, Returns, returns,
}
use cindy_os.Base.Ram.{Ram}
use cindy_os.CString.{strcmp, byte_difference}

-- A string of bytes other than 0 stands in memory, with a 0 behind it.
abbrev pub HoldsString : Ram → ℕ → List ℕ → Type 0
HoldsString m a [] = m a ≡ 0
HoldsString m a (c ∷ cs) = (m a ≡ c) × (c ≢ 0) × (c < 256) × HoldsString m (a + 1) cs

abbrev pub same : List ℕ → List ℕ → Bool
same [] [] = true
same [] (_ ∷ _) = false
same (_ ∷ _) [] = false
same (c ∷ cs) (d ∷ ds) = c == d && same cs ds

-- `strcmp` of two strings is 0 exactly if they are the same.
pub strcmp-same :
    (fuel : ℕ) (m : Ram) (a b : ℕ) (cs ds : List ℕ)
    → HoldsString m a cs
    → HoldsString m b ds
    → min (length cs) (length ds) < fuel
    → Returns (λ r. (r == 0) ≡ same cs ds) (strcmp fuel m a b)
unfolding strcmp
strcmp-same zero m a b cs ds p q enough = absurd (omega arith)
strcmp-same (suc fuel) m a b [] [] p q enough = rw (p, q) (returns refl)
strcmp-same (suc fuel) m a b [] (d ∷ ds) p q enough =
    rw (p, q.0) (returns (ground (arith, q.1, q.2)))
strcmp-same (suc fuel) m a b (c ∷ cs) [] p q enough =
    rw (p.0, q)
      (elim (Bool-cases (c != 0)) [
        | inl more ↦ rw (more, ne→== c 0 p.1) (returns (positive c p.1 p.2))
        | inr none_left ↦ absurd (p.1 (ground arith))
      ])
  where
    positive : (x : ℕ) → x ≢ 0 → x < 256 → (byte_difference x 0 == 0) ≡ false
    positive x h k = ground arith
strcmp-same (suc fuel) m a b (c ∷ cs) (d ∷ ds) p q enough =
    rw (p.0, q.0, nonzero p.1)
      (elim (Bool-cases (c == d)) [
        | inl eq ↦ rw eq (strcmp-same fuel m (a + 1) (b + 1) cs ds p.3 q.3 (omega arith))
        | inr ne ↦ rw ne (returns (difference ne p.2 q.2))
      ])
  where
    nonzero : c ≢ 0 → (c != 0) ≡ true
    nonzero h = ground arith

    difference : (c == d) ≡ false → c < 256 → d < 256 → (byte_difference c d == 0) ≡ false
    difference e h k = ground arith

-- Memory that agrees on a string and its end.
pub HoldsString-ext :
    (m m' : Ram) (a : ℕ) (cs : List ℕ)
    → HoldsString m a cs
    → ((x : ℕ) → a ≤ x → x ≤ a + length cs → m' x ≡ m x)
    → HoldsString m' a cs
HoldsString-ext m m' a [] h e = e a (omega arith) (omega arith) ∙ h
HoldsString-ext m m' a (c ∷ cs) (at, ne, byte, rest) e = (
  e a (omega arith) (omega arith) ∙ at,
  ne,
  byte,
  HoldsString-ext m m' (a + 1) cs rest (λ x p q. e x (omega arith) (omega arith)),
)

pub ends_here : (m : Ram) (a : ℕ) (cs : List ℕ) → HoldsString m a cs → m a ≡ 0 → cs ≡ []
ends_here m a [] h e = refl
ends_here m a (c ∷ cs) h e = absurd (h.1 (sym h.0 ∙ e))
