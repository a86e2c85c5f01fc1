-- ===== src/Keyboard/Handler.antt =====
-- src/keyboard.c: `handle_keyboard_interrupt`.
pub mod Line
use cindy_os.Base.{
  ℕ, ◌+◌, ◌-◌, ◌%◌, bit_and, ltb, leb, ◌==◌, ◌!=◌, ◌&&◌, ◌||◌, if◌then◌else◌, List, [], ◌∷◌, ◌++◌,
  get_or, text, Run, ok,
}
use cindy_os.Base.Ram.{store8}
use cindy_os.Paging.{Machine}
use cindy_os.Keyboard.{World, say}
use cindy_os.Keyboard.Shell.{execute_command}

-- The array's last 70 entries are 0.
unfoldable pub kbd_us : List ℕ
kbd_us =
    0
    ∷ 27
    ∷ (text "1234567890-=\u{8}\tqwertyuiop[]\n"
        ++ (0 ∷ (text "asdfghjkl;'`" ++ (0 ∷ (text "\\zxcvbnm,./" ++ (0 ∷ b'*' ∷ 0 ∷ b' ' ∷ []))))))

unfoldable pub kbd_us_shift : List ℕ
kbd_us_shift =
    0
    ∷ 27
    ∷ (text "!@#$%^&*()_+\u{8}\tQWERTYUIOP{}\n"
        ++ (0 ∷ (text "ASDFGHJKL:\"~" ++ (0 ∷ (text "|ZXCVBNM<>?" ++ (0 ∷ b'*' ∷ 0 ∷ b' ' ∷ []))))))

-- `ascii` of a scan code below 128.
unfoldable pub ascii_of : ℕ → World → ℕ
ascii_of scancode w = get_or (if w.shift_pressed != 0 then kbd_us_shift else kbd_us) scancode 0

-- The letters while caps lock is on.
unfoldable pub with_caps : ℕ → ℕ → ℕ
with_caps caps ascii =
    if leb b'a' ascii && leb ascii b'z'
    then (if caps != 0 then ascii - 32 else ascii)
    else if leb b'A' ascii && leb ascii b'Z'
    then (if caps != 0 then ascii + 32 else ascii)
    else ascii

-- `input_buffer[i] = c`
abbrev pub put_input : ℕ → ℕ → ℕ → World → World
put_input input_buffer i c w = record w {
  machine = record w.machine { ram = store8 w.machine.ram (input_buffer + i) c };
}

unfoldable pub erase : ℕ → World → World
erase input_buffer w =
    let i = w.buffer_index - 1 in
    if ltb 0 w.buffer_index
    then say (8 ∷ 32 ∷ 8 ∷ []) (put_input input_buffer i 0 (record w { buffer_index = i }))
    else w

unfoldable pub type_char : ℕ → ℕ → World → World
type_char input_buffer ascii w =
    let i = w.buffer_index in
    if ltb i 255
    then say (ascii ∷ []) (put_input input_buffer i ascii (record w { buffer_index = i + 1 }))
    else w

module _ (cpu_read : Machine → ℕ → ℕ) (cpu_write : Machine → ℕ → ℕ → Machine)
    (jump_to_usermode : ℕ → ℕ → World → Run World) (fuel input_buffer : ℕ) where
  unfoldable pub handle_keyboard_interrupt : ℕ → World → Run World
  handle_keyboard_interrupt scancode w =
      let ascii = ascii_of scancode w in
      let executed =
        execute_command cpu_read cpu_write jump_to_usermode fuel input_buffer
          (put_input input_buffer w.buffer_index 0 w) in
      if scancode == 0x2A || scancode == 0x36
      then ok (record w { shift_pressed = 1 })
      else if scancode == 0xAA || scancode == 0xB6
      then ok (record w { shift_pressed = 0 })
      else if scancode == 0x3A
      then ok (record w { caps = (w.caps + 1) % 2 })
      else if bit_and scancode 0x80 != 0
      then ok w
      else if ascii == 8
      then ok (erase input_buffer w)
      else if ascii == b'\n'
      then executed
      else if ascii != 0
      then ok (type_char input_buffer (with_caps w.caps ascii) w)
      else ok w
