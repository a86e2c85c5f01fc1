-- ===== src/Screen/Cursor.antt =====
-- src/screen.c: `print` and `print_colored` keep the cursor on the screen and write nowhere else.
use cindy_os.Base.{
  ℕ, ◌+◌, ◌≤◌, ◌<◌, ◌≡◌, inl, inr, refl, ap, ◌∙◌, arith, ◌==◌, ltb, leb, List, [], ◌∷◌, Bool-cases,
  false,
}
use cindy_os.Base.Ram.{store8}
use cindy_os.Screen.{
  Screen, put_cell, offset_of, debug_putc, advance, scroll_if_full, put_char, print_chars, print,
  put_colored, colored_chars, print_colored, update_cursor,
}
use cindy_os.Screen.Scroll.{IsVideo, store8-IsVideo, scroll_screen_lem}

-- The cursor is on the screen.
pub record IsScreen (s : Screen) : Type 0 where
  pub row : s.cursor_row < 25
  pub col : s.cursor_col < 80
  pub bytes : IsVideo s.video

-- The invariant holds again, and nothing past the 4000 bytes of the screen was written.
pub record Printed (s s' : Screen) : Type 0 where
  pub valid : IsScreen s'
  pub past : (x : ℕ) → 4000 ≤ x → s'.video x ≡ s.video x

-- Between a character and the check for scrolling the cursor may be one row too low.
record NearScreen (s s' : Screen) : Type 0 where
  row : s'.cursor_row ≤ 25
  col : s'.cursor_col < 80
  bytes : IsVideo s'.video
  past : (x : ℕ) → 4000 ≤ x → s'.video x ≡ s.video x

scroll_if_full_lem : (s s' : Screen) → NearScreen s s' → Printed s (scroll_if_full s')
unfolding scroll_if_full
scroll_if_full_lem s s' n = elim (Bool-cases (leb 25 s'.cursor_row)) [
  | inl full ↦ rw full (
      let r = scroll_screen_lem s' n.bytes in
      record {
        valid = record {
          row = omega (arith, r.row);
          col = omega (arith, r.col, n.col);
          bytes = r.bytes;
        };
        past = λ x p. r.past x p ∙ n.past x p;
      })
  | inr room ↦
      rw room (record {
        valid = record { row = below room; col = n.col; bytes = n.bytes };
        past = n.past;
      })
]
  where
    below : leb 25 s'.cursor_row ≡ false → s'.cursor_row < 25
    below e = ground arith

module _ (s : Screen) (v : IsScreen s) where
  put_cell_past : (c color x : ℕ) → 4000 ≤ x → put_cell (offset_of s) c color s.video x ≡ s.video x
  unfolding put_cell store8
  put_cell_past c color x p = ground (arith, v.row, v.col)

  put_cell-IsVideo : (c color : ℕ) → IsVideo (put_cell (offset_of s) c color s.video)
  unfolding put_cell
  put_cell-IsVideo c color = store8-IsVideo _ _ _ (store8-IsVideo s.video _ _ v.bytes)

  -- After a character the cursor is in the next column, or at the start of the next row.
  advance_lem :
      (t : Screen)
      → t.cursor_row ≡ s.cursor_row
      → t.cursor_col ≡ s.cursor_col
      → IsVideo t.video
      → ((x : ℕ) → 4000 ≤ x → t.video x ≡ s.video x)
      → NearScreen s (advance t)
  unfolding advance
  advance_lem t row col bytes past = elim (Bool-cases (leb 80 (t.cursor_col + 1))) [
    | inl wrap ↦
        rw wrap
          (record { row = omega (arith, v.row); col = omega arith; bytes = bytes; past = past })
    | inr room ↦
        rw room
          (record { row = omega (arith, v.row); col = below room; bytes = bytes; past = past })
  ]
    where
      below : leb 80 (t.cursor_col + 1) ≡ false → t.cursor_col + 1 < 80
      below e = ground arith

  moved : (t : Screen) → t.video ≡ s.video → t.cursor_row ≤ 25 → t.cursor_col < 80 → NearScreen s t
  moved t e row col = record {
    row = row;
    col = col;
    bytes = rw e v.bytes;
    past = λ x p. ap (λ m. m x) e;
  }

  put_char_lem : (c : ℕ) → NearScreen s (put_char c s)
  unfolding put_char debug_putc
  put_char_lem c = elim (Bool-cases (c == b'\n')) [
    | inl newline ↦ rw newline (moved _ refl (omega (arith, v.row)) (omega arith))
    | inr other ↦ rw other (elim (Bool-cases (c == 8)) [
      | inl back ↦ rw back (elim (Bool-cases (ltb 0 s.cursor_col)) [
        | inl inside ↦ rw inside (moved _ refl (omega (arith, v.row)) (omega (arith, v.col)))
        | inr start ↦ rw start (elim (Bool-cases (ltb 0 s.cursor_row)) [
          | inl lower ↦ rw lower (moved _ refl (omega (arith, v.row)) (omega arith))
          | inr top ↦ rw top (moved s refl (omega (arith, v.row)) v.col)
        ])
      ])
      | inr plain ↦
          rw plain (advance_lem _ refl refl (put_cell-IsVideo c 0x6F) (put_cell_past c 0x6F))
    ])
  ]

  put_colored_lem : (color c : ℕ) → NearScreen s (put_colored color c s)
  unfolding put_colored
  put_colored_lem color c = elim (Bool-cases (c == b'\n')) [
    | inl newline ↦ rw newline (moved _ refl (omega (arith, v.row)) (omega arith))
    | inr plain ↦
        rw plain (advance_lem _ refl refl (put_cell-IsVideo c color) (put_cell_past c color))
  ]

Printed-trans : {s t u : Screen} → Printed s t → Printed t u → Printed s u
Printed-trans p q = record { valid = q.valid; past = λ x h. q.past x h ∙ p.past x h }

print_chars_lem : (msg : List ℕ) (s : Screen) → IsScreen s → Printed s (print_chars msg s)
unfolding print_chars
print_chars_lem [] s v = record { valid = v; past = λ x p. refl }
print_chars_lem (c ∷ cs) s v =
    let one = scroll_if_full_lem s _ (put_char_lem s v c) in
    Printed-trans one (print_chars_lem cs _ one.valid)

colored_chars_lem :
    (color : ℕ) (msg : List ℕ) (s : Screen) → IsScreen s → Printed s (colored_chars color msg s)
unfolding colored_chars
colored_chars_lem color [] s v = record { valid = v; past = λ x p. refl }
colored_chars_lem color (c ∷ cs) s v =
    let one = scroll_if_full_lem s _ (put_colored_lem s v color c) in
    Printed-trans one (colored_chars_lem color cs _ one.valid)

-- From a cursor on the screen, `print` of any string leaves it on the screen, and writes nothing
-- past the 4000 bytes of video memory.
pub print_lem : (msg : List ℕ) (s : Screen) → IsScreen s → Printed s (print msg s)
unfolding print update_cursor
print_lem msg s v =
    let r = print_chars_lem msg s v in
    record {
      valid = record { row = r.valid.row; col = r.valid.col; bytes = r.valid.bytes };
      past = r.past;
    }

-- From a cursor on the screen, `print_colored` of any string in any colour leaves it on the
-- screen, and writes nothing past the 4000 bytes of video memory.
pub print_colored_lem :
    (msg : List ℕ) (color : ℕ) (s : Screen) → IsScreen s → Printed s (print_colored msg color s)
unfolding print_colored update_cursor
print_colored_lem msg color s v =
    let r = colored_chars_lem color msg s v in
    record {
      valid = record { row = r.valid.row; col = r.valid.col; bytes = r.valid.bytes };
      past = r.past;
    }
