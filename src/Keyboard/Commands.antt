-- ===== src/Keyboard/Commands.antt =====
-- src/keyboard.c: the commands of the shell that `execute_command` runs in place. `args` are the words
-- behind the command's name.
pub mod Programs
use cindy_os.Devices.{Ports, outb}
use cindy_os.Base.{
  ℕ, ◌+◌, ◌-◌, ◌/◌, ◌%◌, ltb, leb, ◌==◌, ◌&&◌, ◌||◌, if◌then◌else◌, List, [], ◌∷◌, ◌++◌, length,
  get_or, text, Bool, true, false, Run, ok, fault, out_of_fuel, ◌>>=◌,
}
use cindy_os.Base.Ram.{Ram, store8}
use cindy_os.Ata.{ata_read_sector, ata_write_sector}
use cindy_os.Screen.{clear_screen}
use cindy_os.Fat16.Name.{fat16_format_83}
use cindy_os.Fat16.Read.{fat16_ls, fat16_read_file}
use cindy_os.Fat16.Write.{fat16_write_file}
use cindy_os.Tar.{tar_ls, tar_cat}
use cindy_os.Keyboard.{World, say, say_int, chars_at}

unfoldable pub help : World → Run World
help w = ok (
    say (text "  read-test, write-test    (raw ATA sector test)\n") (
      say (text "  spawn <file.elf>         (create process and run ELF)\n") (
        say (text "  run <file.ext>           (load and execute binary)\n") (
          say (text "  fat-write <file.ext> <text>  (write FAT16 file)\n") (
            say (text "  fat-cat  <file.ext>      (read  FAT16 file)\n") (
              say (text "  fat-ls                   (list FAT16 disk files)\n") (
                say (text "  ls, cat                  (initrd/tar filesystem)\n") (
                  say (text "  meminfo, uptime, pwd, whoami\n") (
                    say (text "  help, clear, echo, timer, about, version, reboot\n")
                      (say (text "Available commands:\n") w))))))))))

unfoldable pub clear : World → Run World
clear w = ok (record w { screen = clear_screen w.screen })

unfoldable pub timer : World → Run World
timer w = do w₁ ← say_int (w.timer_ticks / 100) w; ok (say (text " seconds") w₁)

-- `while(1);`, in which the processor waits for the reset.
unfoldable pub wait_for_reset : World → Ports → Run World
wait_for_reset w ports = out_of_fuel

unfoldable pub reboot : World → Run World
reboot w = wait_for_reset (say (text "Rebooting...") w) (outb 0x64 0xFE [])

-- `print(argv[i])`, with a space behind all but the last.
unfoldable pub echo_words : List (List ℕ) → World → World
echo_words [] w = w
echo_words (word ∷ []) w = say word w
echo_words (word ∷ (next ∷ words)) w = echo_words (next ∷ words) (say (text " ") (say word w))

unfoldable pub echo : List (List ℕ) → World → Run World
echo [] w = ok (say (text "No string passed") w)
echo (word ∷ words) w = ok (echo_words (word ∷ words) w)

unfoldable pub meminfo : World → Run World
meminfo w = do
  w₁ ← say_int (w.machine.memory.total_memory / 1024) (say (text "Total RAM: ") w)
  w₂ ← say_int w.machine.memory.allocated_memory (say (text "Allocated: ") (say (text " KB\n") w₁))
  ok (say (text " Bytes\n") w₂)

unfoldable pub uptime : World → Run World
uptime w =
    let seconds = w.timer_ticks / 100 in
    let minutes = seconds / 60 in
    let hours = minutes / 60 in
    do
      w₁ ← say_int hours w
      w₂ ← say_int (minutes % 60) (say (text "h ") w₁)
      w₃ ← say_int (seconds % 60) (say (text "m ") w₂)
      ok (say (text "s") w₃)

-- The inner loop of `fat-write` and `write-test`: characters are appended below `limit` of them.
unfoldable pub append_word : ℕ → List ℕ → List ℕ → List ℕ
append_word limit [] acc = acc
append_word limit (c ∷ cs) acc =
    let more = append_word limit cs (acc ++ (c ∷ [])) in
    if ltb (length acc) limit then more else acc

-- Their outer loop: a space behind every word but the last.
unfoldable pub append_words : ℕ → List (List ℕ) → List ℕ → List ℕ
append_words limit [] acc = acc
append_words limit (word ∷ []) acc = append_word limit word acc
append_words limit (word ∷ (next ∷ words)) acc =
    append_words limit (next ∷ words) (append_word limit (b' ' ∷ []) (append_word limit word acc))

unfoldable pub write_test : List (List ℕ) → World → Run World
write_test [] w = ok (say (text "Usage: write_test <text>\n") w)
write_test (word ∷ words) w =
    let buffer = append_words 510 (word ∷ words) [] in
    ok (
      say (text "Successfully wrote to Sector 1!\n")
        (record w { disk = ata_write_sector 1 (λ i. get_or buffer i 0) w.disk }))

unfoldable pub read_test : World → Run World
read_test w = do
  chars ← chars_at 512 (ata_read_sector 1 w.disk) 0
  ok (say (text "\n") (say chars (say (text "Read from Sector 1: ") w)))

unfoldable pub fat_ls : World → Run World
fat_ls w = do shown ← fat16_ls w.volume w.disk; ok (say shown w)

-- The array `buf`, of 4096 bytes, is the memory below 4096, and its first content is taken to be 0.
-- `buf[bytes] = '\0'` is past it for a file of 4096 bytes or more.
unfoldable pub fat_cat : List (List ℕ) → World → Run World
fat_cat [] w = ok (say (text "Usage: fat-cat <filename.ext>\n") w)
fat_cat (name ∷ words) w =
    let (name8, ext3) = fat16_format_83 name in
    do
      (bytes, buf) ← fat16_read_file name8 ext3 0 4096 w.volume w.disk (λ x. 0)
      let shown : Run World =
          chars_at 4096 (store8 buf bytes 0) 0 >>= λ chars. ok (say (text "\n") (say chars w))
      if bytes == 0 || leb 2147483648 bytes then ok w else if ltb bytes 4096 then shown else fault

unfoldable pub fat_write : List (List ℕ) → World → Run World
fat_write [] w = ok (say (text "Usage: fat-write <filename.ext> <text>\n") w)
fat_write (name ∷ []) w = ok (say (text "Usage: fat-write <filename.ext> <text>\n") w)
fat_write (name ∷ (word ∷ words)) w =
    let (name8, ext3) = fat16_format_83 name in
    let content = append_words 254 (word ∷ words) [] in
    do
      (result, disk) ← fat16_write_file name8 ext3 content (length content) w.volume w.disk
      ok (record w { disk = disk })

-- `fuel` bounds the walk over the archive.
unfoldable pub ls : ℕ → World → Run World
ls fuel w = do shown ← tar_ls fuel w.initrd_address w.machine.ram; ok (say shown w)

-- The name is given by its address.
unfoldable pub cat : ℕ → List ℕ → World → Run World
cat fuel [] w = ok (say (text "Usage: cat <filename>\n") w)
cat fuel (filename ∷ argv) w = do
  shown ← tar_cat fuel w.initrd_address filename w.machine.ram
  ok (say shown w)
