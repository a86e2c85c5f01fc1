-- ===== src/Keyboard/Words/Scan.antt =====
-- src/keyboard.c: where the loops over spaces and over a word stop.
use cindy_os.Base.{
  ℕ, zero, suc, ◌+◌, ◌≤◌, ◌<◌, ◌≡◌, ◌≢◌, inl, inr, refl, ap, ◌∙◌, arith, ◌==◌, ◌!=◌, ◌&&◌, List, [],
  ◌∷◌, length, Bool-cases, Returns, returns, Returns-mono, ==→eq, true, false,
}
use cindy_os.Base.Ram.{Ram}
use cindy_os.CString.Strings.{HoldsString}
use cindy_os.Keyboard.Words.Parts.{parts, drop_empty, words, Word, at_end, at_space, letter}
use cindy_os.Keyboard.Words.{skip_spaces, word_end}

-- Where `skip_spaces` stops.
pub record Skipped (m : Ram) (i : ℕ) (cs : List ℕ) (j : ℕ) : Type 0 where
  pub line : List ℕ
  pub held : HoldsString m j line
  pub ends : j + length line ≡ i + length cs
  pub start : i ≤ j
  pub no_space : m j ≢ b' '
  pub same_words : words line ≡ words cs

pub skip_spaces_lem :
    (room : ℕ) (m : Ram) (i : ℕ) (cs : List ℕ)
    → HoldsString m i cs
    → length cs < room
    → Returns (Skipped m i cs) (skip_spaces room m i)
unfolding skip_spaces parts drop_empty
skip_spaces_lem zero m i cs h enough = absurd (omega arith)
skip_spaces_lem (suc room) m i [] h enough = rw (show_end h) (
    returns (record {
      line = [];
      held = h;
      ends = refl;
      start = omega arith;
      no_space = omega arith;
      same_words = refl;
    }))
  where
    show_end : m i ≡ 0 → (m i == b' ') ≡ false
    show_end e = ground arith
skip_spaces_lem (suc room) m i (c ∷ cs) h enough = elim (Bool-cases (c == b' ')) [
  | inl space ↦
      rw (h.0, space)
        (Returns-mono (skip_spaces_lem room m (i + 1) cs h.3 (omega arith)) λ j s. record {
          line = s.line;
          held = s.held;
          ends = omega (arith, s.ends);
          start = omega (arith, s.start);
          no_space = s.no_space;
          same_words = s.same_words ∙ rw space refl;
        })
  | inr other ↦ rw (ap (λ x. x == b' ') h.0 ∙ other) (
      returns (record {
        line = c ∷ cs;
        held = h;
        ends = refl;
        start = omega arith;
        no_space = λ e. ground (arith, h.0);
        same_words = refl;
      }))
]

-- Where `word_end` stops: the line is a word and what is behind it.
pub record Ended (m : Ram) (i : ℕ) (cs : List ℕ) (j : ℕ) : Type 0 where
  pub word : List ℕ
  pub behind : List ℕ
  pub splits : Word cs word behind
  pub held : HoldsString m j behind
  pub ends : j ≡ i + length word
  pub whole : length cs ≡ length word + length behind

pub word_end_lem :
    (room : ℕ) (m : Ram) (i : ℕ) (cs : List ℕ)
    → HoldsString m i cs
    → length cs < room
    → Returns (Ended m i cs) (word_end room m i)
unfolding word_end
word_end_lem zero m i cs h enough = absurd (omega arith)
word_end_lem (suc room) m i [] h enough = rw (ap (λ x. x != 0 && x != b' ') h) (
    returns (record {
      word = [];
      behind = [];
      splits = at_end;
      held = h;
      ends = omega arith;
      whole = refl;
    }))
word_end_lem (suc room) m i (c ∷ cs) h enough = elim (Bool-cases (c == b' ')) [
  | inl space ↦
      rw (ap (λ x. x != 0 && x != b' ') h.0, stops space)
        (returns (record {
          word = [];
          behind = c ∷ cs;
          splits = at_space c cs (==→eq c b' ' space);
          held = h;
          ends = omega arith;
          whole = omega arith;
        }))
  | inr other ↦
      rw (ap (λ x. x != 0 && x != b' ') h.0, goes_on h.1 other)
        (Returns-mono (word_end_lem room m (i + 1) cs h.3 (omega arith)) λ j e. record {
          word = c ∷ e.word;
          behind = e.behind;
          splits = letter c (λ q. ground arith) e.splits;
          held = e.held;
          ends = omega (arith, e.ends);
          whole = omega (arith, e.whole);
        })
]
  where
    stops : (c == b' ') ≡ true → (c != 0 && c != b' ') ≡ false
    stops q = ground arith

    goes_on : c ≢ 0 → (c == b' ') ≡ false → (c != 0 && c != b' ') ≡ true
    goes_on p q = ground arith
