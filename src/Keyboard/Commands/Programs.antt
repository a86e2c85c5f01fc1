-- ===== src/Keyboard/Commands/Programs.antt =====
-- src/keyboard.c: the commands `run` and `spawn`. What a user program does until it returns to the
-- kernel is the parameter `jump_to_usermode`, given the stack and the entry.
use cindy_os.Base.{
  ℕ, ◌+◌, ◌-◌, ltb, leb, ◌==◌, ◌&&◌, if◌then◌else◌, List, [], ◌∷◌, text, Bool, true, false, none,
  some, add32, Run, ok, fault, ◌>>=◌,
}
use cindy_os.Memory.{kmalloc_a, pmm_alloc_block}
use cindy_os.Paging.{Machine, map_page}
use cindy_os.Process.{proc_dequeue}
use cindy_os.Process.Create.{task_create_from_elf}
use cindy_os.Screen.Numbers.{print_hex}
use cindy_os.Fat16.Name.{fat16_format_83}
use cindy_os.Fat16.Read.{fat16_read_file}
use cindy_os.Elf.{set_virtual, copy_virtual, load_elf_program, enter_user_program}
use cindy_os.Keyboard.{World, say, say_int}

-- `print_hex`
abbrev pub say_hex : ℕ → World → World
say_hex num w = record w { screen = print_hex num w.screen }

-- A program without an ELF header: `none` is out of memory.
unfoldable pub load_flat :
    (Machine → ℕ → ℕ) → (Machine → ℕ → ℕ → Machine) → ℕ → ℕ → Machine → Run (Bool × Machine)
load_flat cpu_read cpu_write img result m = do
  (phys, taken) ← pmm_alloc_block m.memory
  let m₁ : Machine = record m { memory = taken }
  let loaded : Run (Bool × Machine) = (do
    mapped ← map_page phys 0x40000000 7 m₁
    let copied = copy_virtual cpu_read cpu_write result 0x40000000 img mapped
    ok (
      true,
      if ltb result 4096
          then set_virtual cpu_write (4096 - result) (add32 0x40000000 result) 0 copied
          else copied,
    ))
  if phys == 0 then ok (false, m₁) else loaded

module _ (cpu_read : Machine → ℕ → ℕ) (cpu_write : Machine → ℕ → ℕ → Machine)
    (jump_to_usermode : ℕ → ℕ → World → Run World) where
  -- `enter_user_program`, with the jump and what is printed.
  unfoldable pub enter : ℕ → World → Run World
  enter user_entry w = do
    (stack, m) ← enter_user_program cpu_write w.machine
    let w₁ : World = record w { machine = m }
    elim stack [
      | none ↦ ok (say (text "run: out of physical memory for user stack\n") w₁)
      | some top ↦ (do
        w₂ ←
            jump_to_usermode top user_entry
              (say (text "...\n") (say_hex user_entry (say (text "jumping to ring 3 at 0x") w₁)))
        ok (say (text "Program exited.\n") w₂))
    ]

  -- The end of `run`.
  unfoldable pub start : ℕ → ℕ → World → Run World
  start result user_entry w = do
    w₁ ← say_int result (say (text "Loaded ") w)
    enter user_entry
        (say (text "...\n") (say_hex user_entry (say (text " bytes, jumping to entry 0x") w₁)))

  -- The image in memory: it is an ELF file or a flat binary. `false` is an early return from
  -- `execute_command`.
  unfoldable pub run_image : ℕ → ℕ → World → Run (Bool × World)
  run_image img result w =
      let elf : Run (Bool × World) = (do
        (entry, m) ← load_elf_program cpu_read cpu_write img result w.machine
        elim entry [
          | none ↦ ok (false, say (text "run: invalid ELF image\n") (record w { machine = m }))
          | some user_entry ↦ (do
            w₁ ← start result user_entry (record w { machine = m })
            ok (true, w₁))
        ]) in
      let flat : Run (Bool × World) = (do
        (done, m) ← load_flat cpu_read cpu_write img result w.machine
        let w₁ : World = record w { machine = m }
        let started : Run (Bool × World) = (do
          w₂ ← start result 0x40000000 (say (text "run: flat binary loaded at 0x40000000\n") w₁)
          ok (true, w₂))
        if done then started else ok (false, say (text "run: out of physical memory\n") w₁)) in
      let ram = w.machine.ram in
      if ram img == 0x7F
        && (ram (img + 1) == b'E' && (ram (img + 2) == b'L' && ram (img + 3) == b'F'))
      then elf
      else flat

  unfoldable pub run : List (List ℕ) → World → Run (Bool × World)
  run [] w = ok (true, say (text "Usage: run <filename.ext>\n") w)
  run (name ∷ words) w =
      let (name8, ext3) = fat16_format_83 name in
      do
        (tmp_buf, memory) ← kmalloc_a 4096 w.machine.memory
        let m₁ : Machine = record w.machine { memory = memory }
        let loaded : Run (Bool × World) = (do
          (result, ram) ← fat16_read_file name8 ext3 tmp_buf 4096 w.volume w.disk m₁.ram
          let w₁ : World = record w { machine = record m₁ { ram = ram } }
          let started = run_image tmp_buf result w₁
          if leb 2147483648 result
              then ok (true, say (text "run: failed to load file\n") w₁)
              else started)
        if tmp_buf == 0
            then ok (false, say (text "run: kmalloc failed\n") (record w { machine = m₁ }))
            else loaded

  unfoldable pub spawn : List (List ℕ) → World → Run World
  spawn [] w = ok (say (text "Usage: spawn <file.elf>\n") w)
  spawn (name ∷ words) w = do
    (created, (m, k)) ←
        task_create_from_elf cpu_read cpu_write (some name) w.volume w.disk w.machine w.kernel
    let w₁ : World = record w { machine = m; kernel = k }
    elim created [
      | none ↦ ok (say (text "spawn: failed to create process\n") w₁)
      | some pid ↦ (do
        w₂ ← say_int pid (say (text "spawn: pid=") w₁)
        (p, k') ← proc_dequeue w₂.kernel
        let w₃ : World = say (text " created, running...\n") (record w₂ { kernel = k' })
        let entered : Run World = elim (k'.procs p) [
          | none ↦ fault
          | some r ↦ (do
            w₄ ← jump_to_usermode r.user_stack_top r.entry w₃
            ok (say (text "spawn: process exited.\n") w₄))
        ]
        if p == 0 then ok w₃ else entered)
    ]
