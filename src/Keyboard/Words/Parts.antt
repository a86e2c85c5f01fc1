-- ===== src/Keyboard/Words/Parts.antt =====
-- src/keyboard.c: the words of a line, as a list of lists.
use cindy_os.Base.{ℕ, ◌≡◌, ◌≢◌, ◌⊎◌, inl, inr, refl, ap, ◌==◌, if◌then◌else◌, List, [], ◌∷◌, ne→==}

-- The parts of a line between its spaces.
pub put : ℕ → List (List ℕ) → List (List ℕ)
put c [] = (c ∷ []) ∷ []
put c (w ∷ ws) = (c ∷ w) ∷ ws

unfoldable pub parts : List ℕ → List (List ℕ)
parts [] = [] ∷ []
parts (c ∷ cs) = if c == b' ' then [] ∷ parts cs else put c (parts cs)

unfoldable pub drop_empty : List (List ℕ) → List (List ℕ)
drop_empty [] = []
drop_empty ([] ∷ ws) = drop_empty ws
drop_empty ((c ∷ cs) ∷ ws) = (c ∷ cs) ∷ drop_empty ws

-- The words of a line: the parts between spaces that are not empty.
abbrev pub words : List ℕ → List (List ℕ)
words cs = drop_empty (parts cs)

-- A line that begins with a word: the word, and the space behind it or the end.
pub data Word : List ℕ → List ℕ → List ℕ → Type 0 where
  at_end : Word [] [] []
  at_space : (c : ℕ) (cs : List ℕ) → c ≡ b' ' → Word (c ∷ cs) [] (c ∷ cs)
  letter : {cs w ds : List ℕ} (c : ℕ) → c ≢ b' ' → Word cs w ds → Word (c ∷ cs) (c ∷ w) ds

pub parts-Word :
    {cs w ds : List ℕ}
    → Word cs w ds
    → ((ds ≡ []) × (parts cs ≡ w ∷ []))
      ⊎ ((es : List ℕ) × (ds ≡ b' ' ∷ es) × (parts cs ≡ w ∷ parts es))
unfolding parts put
parts-Word at_end = inl (refl, refl)
parts-Word (at_space c cs e) = inr (cs, ap (λ x. x ∷ cs) e, rw e refl)
parts-Word (letter c ne h) = elim (parts-Word h) [
  | inl (e, p) ↦ inl (e, rw (ne→== c b' ' ne, p) refl)
  | inr (es, e, p) ↦ inr (es, e, rw (ne→== c b' ' ne, p) refl)
]

pub drop_word : (w : List ℕ) (ws : List (List ℕ)) → w ≢ [] → drop_empty (w ∷ ws) ≡ w ∷ drop_empty ws
unfolding drop_empty
drop_word [] ws ne = absurd (ne refl)
drop_word (c ∷ cs) ws ne = refl
