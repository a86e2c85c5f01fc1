-- ===== src/Keyboard/Words.antt =====
-- src/keyboard.c: how `execute_command` splits its line. `input_buffer` stands in memory, before the
-- address `stop`; reading at `stop` or past it is `fault`. A word is overwritten with a 0 behind it.
pub mod Parts
pub mod Scan
pub mod Laws
use cindy_os.Base.{
  ℕ, zero, suc, ◌+◌, ◌-◌, ltb, ◌==◌, ◌!=◌, ◌&&◌, if◌then◌else◌, List, [], ◌∷◌, Run, ok, fault,
  ◌>>=◌,
}
use cindy_os.Base.Ram.{Ram, store8}

-- `while (input_buffer[i] == ' ') i++;`, with `room` places left in the array.
unfoldable pub skip_spaces : ℕ → Ram → ℕ → Run ℕ
skip_spaces zero m i = fault
skip_spaces (suc room) m i =
    let later = skip_spaces room m (i + 1) in if m i == b' ' then later else ok i

-- `while (input_buffer[i] != '\0' && input_buffer[i] != ' ') i++;`, likewise.
unfoldable pub word_end : ℕ → Ram → ℕ → Run ℕ
word_end zero m i = fault
word_end (suc room) m i =
    let later = word_end room m (i + 1) in if m i != 0 && m i != b' ' then later else ok i

-- The loop from place `i` on, with `room` places left in `argv`: the words' addresses, and the memory.
unfoldable pub split : ℕ → ℕ → ℕ → Ram → Run (List ℕ × Ram)
split zero stop i m = ok ([], m)
split (suc room) stop i m =
    let round : Run (List ℕ × Ram) = (do
      first ← skip_spaces (stop - i) m i
      let word : Run (List ℕ × Ram) = (do
        last ← word_end (stop - first) m first
        let more = m last == b' '
        (argv, m') ←
            split room stop (if more then last + 1 else last) (if more then store8 m last 0 else m)
        ok (first ∷ argv, m'))
      if m first == 0 then ok ([], m) else word) in
    if ltb i stop then (if m i == 0 then ok ([], m) else round) else fault
