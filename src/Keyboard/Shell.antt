-- ===== src/Keyboard/Shell.antt =====
-- src/keyboard.c: `execute_command`. Every command is told by `strcmp` with its name.
use cindy_os.Base.{
  ℕ, zero, suc, ◌+◌, ◌-◌, ltb, ◌==◌, if◌then◌else◌, List, [], ◌∷◌, length, get_or, text, Bool, true,
  Run, ok, ◌>>=◌,
}
use cindy_os.Base.Ram.{Ram, store8}
use cindy_os.CString.{strcmp}
use cindy_os.Paging.{Machine}
use cindy_os.Screen.{print_colored}
use cindy_os.Keyboard.{World, say, chars_at}
use cindy_os.Keyboard.Words.{split}
use cindy_os.Keyboard.Commands.{
  help, clear, timer, reboot, echo, meminfo, uptime, write_test, read_test, fat_ls, fat_cat,
  fat_write, ls, cat,
}
use cindy_os.Keyboard.Commands.Programs.{run, spawn}

-- A literal of the source, which lies outside the memory that the model has: from 2 ^ 32 on.
unfoldable pub with_literal : List ℕ → Ram → Ram
with_literal word m x = if ltb x 4294967296 then m x else get_or word (x - 4294967296) 0

-- `strcmp(argv[0], word) == 0`; the literal's length and one more rounds are enough.
unfoldable pub is_command : Ram → ℕ → List ℕ → Run Bool
is_command m name word = do
  order ← strcmp (length word + 1) (with_literal word m) name 4294967296
  ok (order == 0)

-- A command: `false` is an early return from `execute_command`.
abbrev pub Command : Type 0
Command = World → Run (Bool × World)

-- The chain of `if` and `else if`, and the last `else`.
unfoldable pub dispatch : List (List ℕ × Command) → Command → ℕ → Command
dispatch [] other name w = other w
dispatch ((word, command) ∷ table) other name w =
    let later = dispatch table other name w in
    do hit ← is_command w.machine.ram name word; if hit then command w else later

-- `for (i = 0; i < BUFFER_SIZE; i++) input_buffer[i] = 0;`, `count` bytes from `a` on.
unfoldable pub clear_input : ℕ → ℕ → Ram → Ram
clear_input zero a m = m
clear_input (suc count) a m = clear_input count (a + 1) (store8 m a 0)

module _ (cpu_read : Machine → ℕ → ℕ) (cpu_write : Machine → ℕ → ℕ → Machine)
    (jump_to_usermode : ℕ → ℕ → World → Run World) (fuel input_buffer : ℕ) where
  -- The texts of the arguments.
  unfoldable pub texts : Ram → List ℕ → Run (List (List ℕ))
  texts m [] = ok []
  texts m (a ∷ argv) = do
    word ← chars_at (input_buffer + 256 - a) m a
    words ← texts m argv
    ok (word ∷ words)

  -- A command that does not return early.
  unfoldable pub whole : (World → Run World) → Command
  whole command w = do w₁ ← command w; ok (true, w₁)

  unfoldable pub commands : List ℕ → List (List ℕ) → List (List ℕ × Command)
  commands argv args =
      (text "help", whole help)
      ∷ (text "clear", whole clear)
      ∷ (text "timer", whole timer)
      ∷ (
        text "about",
        whole (λ w. ok (say (text "CIndy-OS - A bare-metal hobby OS built from scratch.") w)),
      )
      ∷ (text "version", whole (λ w. ok (say (text "CIndy-OS Kernel v0.1") w)))
      ∷ (text "reboot", whole reboot)
      ∷ (text "echo", whole (echo args))
      ∷ (text "meminfo", whole meminfo)
      ∷ (text "ls", whole (ls fuel))
      ∷ (text "cat", whole (cat fuel argv))
      ∷ (text "pwd", whole (λ w. ok (say (text "/") w)))
      ∷ (text "whoami", whole (λ w. ok (say (text "root") w)))
      ∷ (text "uptime", whole uptime)
      ∷ (text "write-test", whole (write_test args))
      ∷ (text "read-test", whole read_test)
      ∷ (text "fat-ls", whole fat_ls)
      ∷ (text "fat-cat", whole (fat_cat args))
      ∷ (text "fat-write", whole (fat_write args))
      ∷ (text "run", run cpu_read cpu_write jump_to_usermode args)
      ∷ (text "spawn", whole (spawn cpu_read cpu_write jump_to_usermode args))
      ∷ []

  -- `argv[0]` and the arguments behind it.
  unfoldable pub run_command : List ℕ → Command
  run_command [] w = ok (true, w)
  run_command (name ∷ argv) w = do
    word ← chars_at (input_buffer + 256 - name) w.machine.ram name
    args ← texts w.machine.ram argv
    dispatch (commands argv args) (whole (λ w₁. ok (say word (say (text "Unknown command: ") w₁))))
        name w

  -- The prompt, and the empty line.
  unfoldable pub prompt : World → World
  prompt w =
      let said = say (text "\n") w in
      record said {
        screen = print_colored (text "[CIndy-OS]> ") 0x0B said.screen;
        buffer_index = 0;
        machine = record w.machine { ram = clear_input 256 input_buffer w.machine.ram };
      }

  unfoldable pub execute_command : World → Run World
  execute_command w = do
    (argv, ram) ← split 16 (input_buffer + 256) input_buffer w.machine.ram
    let w₁ : World = say (text "\n") (record w { machine = record w.machine { ram = ram } })
    (to_end, w₂) ← run_command argv w₁
    ok (if to_end then prompt w₂ else w₂)
