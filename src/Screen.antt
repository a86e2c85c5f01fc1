-- ===== src/Screen.antt =====
-- src/screen.c: the text screen. `video` is `video_memory` by its offset; `ports` lists the bytes sent
-- to I/O ports, in order, without the wait for the serial line that precedes a byte to 0x3F8.
pub mod Scroll
pub mod Cursor
pub mod Numbers
mod Tests
use cindy_os.Base.{
  ℕ, zero, suc, ◌+◌, ◌-◌, ◌*◌, ltb, leb, ◌==◌, if◌then◌else◌, bit_and, bit_or, u16, ◌>>>◌, List, [],
  ◌∷◌, ◌++◌,
}
use cindy_os.Base.Ram.{Ram, store8}

pub record Screen : Type 0 where
  pub video : Ram
  pub cursor_row : ℕ
  pub cursor_col : ℕ
  pub ports : List (ℕ × ℕ)

abbrev pub max_rows : ℕ
max_rows = 25

abbrev pub max_cols : ℕ
max_cols = 80

-- A character and its colour, at an offset.
unfoldable pub put_cell : ℕ → ℕ → ℕ → Ram → Ram
put_cell offset c color video = store8 (store8 video offset c) (offset + 1) color

pub debug_putc : ℕ → Screen → Screen
debug_putc c s = record s { ports = s.ports ++ ((0xE9, c) ∷ (0x3F8, c) ∷ []) }

unfoldable pub debug_print : List ℕ → Screen → Screen
debug_print [] s = s
debug_print (c ∷ cs) s = debug_print cs (debug_putc c s)

pub update_cursor : Screen → Screen
update_cursor s =
    let pos = u16 (s.cursor_row * max_cols + s.cursor_col) in
    record s {
      ports =
          s.ports
          ++ ((0x3D4, 0x0F)
              ∷ (0x3D5, bit_and pos 0xFF)
              ∷ (0x3D4, 0x0E)
              ∷ (0x3D5, bit_and (pos >>> 8) 0xFF)
              ∷ []);
    }

-- The loop of `clear_screen` from cell `i` on.
pub clear_cells : ℕ → ℕ → Ram → Ram
clear_cells zero i video = video
clear_cells (suc count) i video =
    clear_cells count (i + 1) (store8 (store8 video (i * 2) b' ') (i * 2 + 1) 0x0F)

pub clear_screen : Screen → Screen
clear_screen s = record s { video = clear_cells 2000 0 s.video; cursor_row = 0; cursor_col = 0 }

-- The inner loop of `scroll_screen`: the cells of a row from `col` on move one row up.
pub copy_cells : ℕ → ℕ → ℕ → Ram → Ram
copy_cells zero row col video = video
copy_cells (suc count) row col video =
    let to = ((row - 1) * 80 + col) * 2 in
    let from = (row * 80 + col) * 2 in
    let moved = store8 video to (video from) in
    copy_cells count row (col + 1) (store8 moved (to + 1) (moved (from + 1)))

-- The outer loop of `scroll_screen`: `count` rows from `row` on.
pub copy_rows : ℕ → ℕ → Ram → Ram
copy_rows zero row video = video
copy_rows (suc count) row video = copy_rows count (row + 1) (copy_cells max_cols row 0 video)

-- The last loop of `scroll_screen`, from `col` on.
pub blank_cells : ℕ → ℕ → Ram → Ram
blank_cells zero col video = video
blank_cells (suc count) col video =
    let offset = ((max_rows - 1) * max_cols + col) * 2 in
    blank_cells count (col + 1) (store8 (store8 video offset b' ') (offset + 1) 0x0F)

pub scroll_screen : Screen → Screen
scroll_screen s = record s {
  video = blank_cells max_cols 0 (copy_rows 24 1 s.video);
  cursor_row = max_rows - 1;
}

abbrev pub offset_of : Screen → ℕ
offset_of s = (s.cursor_row * 80 + s.cursor_col) * 2

-- `cursor_col++`, with the wrap to the next line.
pub advance : Screen → Screen
advance s =
    if leb 80 (s.cursor_col + 1)
    then record s { cursor_col = 0; cursor_row = s.cursor_row + 1 }
    else record s { cursor_col = s.cursor_col + 1 }

pub scroll_if_full : Screen → Screen
scroll_if_full s = if leb max_rows s.cursor_row then scroll_screen s else s

-- What `print` does with one character, before the check for scrolling.
pub put_char : ℕ → Screen → Screen
put_char c s =
    if c == b'\n'
    then (let t = debug_putc b'\n' s in record t { cursor_row = t.cursor_row + 1; cursor_col = 0 })
    else if c == 8
    then (if ltb 0 s.cursor_col
        then record s { cursor_col = s.cursor_col - 1 }
        else if ltb 0 s.cursor_row
        then record s { cursor_row = s.cursor_row - 1; cursor_col = 79 }
        else s)
    else advance (debug_putc c (record s { video = put_cell (offset_of s) c 0x6F s.video }))

-- The characters of a string without the 0 at its end.
pub print_chars : List ℕ → Screen → Screen
print_chars [] s = s
print_chars (c ∷ cs) s = print_chars cs (scroll_if_full (put_char c s))

pub print : List ℕ → Screen → Screen
print msg s = update_cursor (print_chars msg s)

pub put_colored : ℕ → ℕ → Screen → Screen
put_colored color c s =
    if c == b'\n'
    then record s { cursor_row = s.cursor_row + 1; cursor_col = 0 }
    else advance (record s { video = put_cell (offset_of s) c color s.video })

pub colored_chars : ℕ → List ℕ → Screen → Screen
colored_chars color [] s = s
colored_chars color (c ∷ cs) s = colored_chars color cs (scroll_if_full (put_colored color c s))

pub print_colored : List ℕ → ℕ → Screen → Screen
print_colored message color s = update_cursor (colored_chars color message s)

-- The loop of `print_at` over the characters from index `i` on.
unfoldable pub write_at : ℕ → List ℕ → ℕ → Ram → Ram
write_at offset [] i video = video
write_at offset (c ∷ cs) i video =
    write_at offset cs (i + 1) (store8 (store8 video (offset + i * 2) c) (offset + i * 2 + 1) 0x6F)

-- `row` and `col` are not negative.
unfoldable pub print_at : List ℕ → ℕ → ℕ → Screen → Screen
print_at msg row col s = record s { video = write_at ((80 * row + col) * 2) msg 0 s.video }

-- The serial port at 115200 baud, as `init_serial` programs it.
unfoldable pub init_serial : Screen → Screen
init_serial s = record s {
  ports =
      s.ports
      ++ ((0x3F9, 0x00)
          ∷ (0x3FB, 0x80)
          ∷ (0x3F8, 0x01)
          ∷ (0x3F9, 0x00)
          ∷ (0x3FB, 0x03)
          ∷ (0x3FA, 0xC7)
          ∷ (0x3FC, 0x0B)
          ∷ []);
}

-- `start` and `stop` are what the cursor registers held: the two answers of `inb(0x3D5)`.
unfoldable pub enable_cursor : ℕ → ℕ → ℕ → ℕ → Screen → Screen
enable_cursor start stop cursor_start cursor_end s = record s {
  ports =
      s.ports
      ++ ((0x3D4, 0x0A)
          ∷ (0x3D5, bit_or (bit_and start 0xC0) cursor_start)
          ∷ (0x3D4, 0x0B)
          ∷ (0x3D5, bit_or (bit_and stop 0xE0) cursor_end)
          ∷ []);
}
