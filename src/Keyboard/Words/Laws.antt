-- ===== src/Keyboard/Words/Laws.antt =====
-- src/keyboard.c: the line is split into its words.
use cindy_os.Base.{
  ℕ, zero, suc, ◌+◌, ◌-◌, ◌≤◌, ◌<◌, ◌≡◌, ◌≢◌, ◌⊎◌, inl, inr, refl, sym, ap, ◌∙◌, arith, ◌==◌, List,
  [], ◌∷◌, length, take, Bool-cases, ne→==, lt→ltb, ok, ◌>>=◌, Returns, returns, Returns-bind,
  subst, ==→eq,
}
use cindy_os.Base.Ram.{Ram, store8, store8_self, store8_ne}
use cindy_os.CString.Strings.{HoldsString, HoldsString-ext, ends_here}
use cindy_os.Keyboard.Words.Parts.{
  parts, drop_empty, words, Word, at_end, at_space, letter, parts-Word, drop_word,
}
use cindy_os.Keyboard.Words.{split}
use cindy_os.Keyboard.Words.Scan.{skip_spaces_lem, word_end_lem}

-- The arguments stand in memory one by one as the words.
abbrev pub HoldsWords : Ram → List ℕ → List (List ℕ) → Type 0
HoldsWords m [] [] = Unit
HoldsWords m [] (_ ∷ _) = ⊥
HoldsWords m (_ ∷ _) [] = ⊥
HoldsWords m (a ∷ argv) (w ∷ ws) = HoldsString m a w × HoldsWords m argv ws

-- The word in front of what stands at `a + length word` keeps its bytes, and gets its end.
HoldsString-Word :
    {cs w ds : List ℕ} (m m' : Ram) (a : ℕ)
    → Word cs w ds
    → HoldsString m a cs
    → ((x : ℕ) → a ≤ x → x < a + length w → m' x ≡ m x)
    → m' (a + length w) ≡ 0
    → HoldsString m' a w
HoldsString-Word m m' a at_end h same end = ap m' (omega arith) ∙ end
HoldsString-Word m m' a (at_space c cs e) h same end = ap m' (omega arith) ∙ end
HoldsString-Word m m' a (letter c ne rest) (at, nonzero, byte, h) same end = (
  same a (omega arith) (omega arith) ∙ at,
  nonzero,
  byte,
  HoldsString-Word m m' (a + 1) rest h (λ x p q. same x (omega arith) (omega arith))
      (ap m' (omega arith) ∙ end),
)

-- What the loop gives: the first words, and a memory changed on the line only.
pub record Split (room i : ℕ) (cs : List ℕ) (m : Ram) (argv : List ℕ) (m' : Ram) : Type 0 where
  pub args : HoldsWords m' argv (take room (words cs))
  pub others : (x : ℕ) → (x < i) ⊎ (i + length cs ≤ x) → m' x ≡ m x

Word-not_empty :
    {cs w ds : List ℕ} (m : Ram) (a : ℕ)
    → Word cs w ds
    → HoldsString m a cs
    → m a ≢ 0
    → m a ≢ b' '
    → w ≢ []
Word-not_empty m a at_end h some no_space = absurd (some h)
Word-not_empty m a (at_space c cs e) h some no_space = absurd (no_space (h.0 ∙ e))
Word-not_empty m a (letter c ne rest) h some no_space = λ e. absurd (omega (arith, ap length e))

-- A word that is found, before what the rest of the loop finds.
add_word :
    {room i last : ℕ} {cs w : List ℕ} {m m₁ : Ram} (first stop : ℕ) (line rest : List ℕ)
    → words line ≡ words cs
    → words line ≡ w ∷ words rest
    → ((m' : Ram)
        → ((x : ℕ) → (x < last) ⊎ (last + length rest ≤ x) → m' x ≡ m₁ x)
        → HoldsString m' first w)
    → i ≤ last
    → last + length rest ≤ i + length cs
    → ((x : ℕ) → (x < i) ⊎ (i + length cs ≤ x) → m₁ x ≡ m x)
    → Returns (λ (argv, m'). Split room last rest m₁ argv m') (split room stop last m₁)
    → Returns
        (λ (argv, m'). Split (suc room) i cs m argv m')
        (split room stop last m₁ >>= λ (argv, m'). ok (first ∷ argv, m'))
add_word {room} {i} {last} {cs} first stop line rest same one held le inside before runs =
    Returns-bind runs λ (argv, m') s. returns (record {
      args =
          subst (λ ws. HoldsWords m' (first ∷ argv) (take (suc room) ws)) (sym one ∙ same)
            (held m' s.others, s.args);
      others = λ x o. s.others x (ground arith) ∙ before x o;
    })

-- When a line of characters other than 0 stands in the array with its 0 before the array's end, the
-- loop returns without reading past the array: the arguments are the first `room` words of the line,
-- each ended by a 0, and memory outside the line's characters is as before.
pub split_lem :
    (room stop i : ℕ) (m : Ram) (cs : List ℕ)
    → HoldsString m i cs
    → i + length cs < stop
    → Returns (λ (argv, m'). Split room i cs m argv m') (split room stop i m)
unfolding split drop_empty parts
split_lem zero stop i m cs h inside = returns (record { args = tt; others = λ x o. refl })
split_lem (suc room) stop i m [] h inside =
    rw (lt→ltb i stop (omega arith), h) (returns (record { args = tt; others = λ x o. refl }))
split_lem (suc room) stop i m (c ∷ cs) h inside =
    rw (lt→ltb i stop (omega arith), h.0, ne→== c 0 h.1)
      (Returns-bind (skip_spaces_lem (stop - i) m i (c ∷ cs) h (omega arith)) λ first s.
        elim (Bool-cases (m first == 0)) [
          | inl none_left ↦ rw none_left (
              returns (record {
                args =
                    subst (λ ws. HoldsWords m [] (take (suc room) ws))
                      (sym (ap words (ends_here m first s.line s.held (==→eq _ 0 none_left)))
                        ∙ s.same_words)
                      tt;
                others = λ x o. refl;
              }))
          | inr some ↦ rw some (
              Returns-bind
                (word_end_lem (stop - first) m first s.line s.held (omega (arith, s.ends, s.start)))
                λ last e. elim (parts-Word e.splits) [
                  | inl (empty, found) ↦
                      let at : m last ≡ 0 = subst (HoldsString m last) empty e.held in
                      rw at (
                        add_word first stop s.line [] s.same_words
                          (ap drop_empty found
                            ∙ drop_word e.word _ (
                                Word-not_empty m first e.splits s.held (λ z. ground (arith, some))
                                  s.no_space))
                          (λ m' same.
                            HoldsString-Word m m' first e.splits s.held
                              (λ x p q. same x (inl (omega (arith, e.ends))))
                              (ap m' (sym e.ends) ∙ (same last (inr (omega arith)) ∙ at)))
                          (omega (arith, s.start, e.ends)) (omega (arith, s.ends, e.ends, e.whole))
                          (λ x o. refl)
                          (split_lem room stop last m [] at
                            (omega (arith, s.ends, e.ends, e.whole))))
                  | inr (es, behind, found) ↦
                      let (at, ne, byte, rest) = subst (HoldsString m last) behind e.held in
                      let size : length e.behind ≡ suc (length es) = ap length behind in
                      rw at (
                        add_word first stop s.line es s.same_words
                          (ap drop_empty found
                            ∙ drop_word e.word _ (
                                Word-not_empty m first e.splits s.held (λ z. ground (arith, some))
                                  s.no_space))
                          (λ m' same.
                            HoldsString-Word m m' first e.splits s.held
                              (λ x p q.
                                same x (inl (omega (arith, e.ends)))
                                ∙ store8_ne m last 0 x (omega (arith, e.ends)))
                              (ap m' (sym e.ends)
                                ∙ (same last (inl (omega arith)) ∙ store8_self m last 0)))
                          (omega (arith, s.start, e.ends))
                          (omega (arith, s.ends, e.ends, e.whole, size))
                          (λ x o.
                            store8_ne m last 0 x
                              (ground (arith, s.start, s.ends, e.ends, e.whole, size)))
                          (split_lem room stop (last + 1) (store8 m last 0) es
                            (HoldsString-ext m _ (last + 1) es rest
                              (λ x p q. store8_ne m last 0 x (omega arith)))
                            (omega (arith, s.ends, e.ends, e.whole, size))))
                ])
        ])
