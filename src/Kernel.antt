-- ===== src/Kernel.antt =====
-- src/kernel.c: `kernel_main` up to the loop in which it waits for interrupts, and the interrupt
-- handlers of kernel.c. What the called parts print is left out, as in their models.
pub mod Memory
pub mod Gates
pub mod Start
mod Tests
use cindy_os.Base.{
  ℕ, zero, suc, ◌+◌, ltb, if◌then◌else◌, List, [], ◌∷◌, text, Bool, true, false, Run, ok, ◌>>=◌,
}
use cindy_os.Base.Ram.{load32}
use cindy_os.Memory.{init_memory, init_pmm}
use cindy_os.Memory.Multiboot.{load_info}
use cindy_os.Paging.{Machine, init_paging}
use cindy_os.Process.{process_init}
use cindy_os.Screen.{Screen, init_serial, clear_screen, enable_cursor, print_colored}
use cindy_os.Screen.Numbers.{print_hex}
use cindy_os.Descriptors.{Gdt, gdt_init_tss, Idt, idt_init, idt_set_gate}
use cindy_os.Fat16.Init.{fat16_init}
use cindy_os.Tar.{init_fs}
use cindy_os.Devices.{Ports, outb, pic_remap, init_timer}
use cindy_os.Keyboard.{World, say, say_int}
use cindy_os.Keyboard.Handler.{handle_keyboard_interrupt}

pub record Os : Type 0 where
  pub world : World
  pub gdt : Gdt
  pub idt : Idt
  pub ports : Ports
  pub interrupts_enabled : Bool

abbrev pub say_colored : List ℕ → ℕ → World → World
say_colored msg color w = record w { screen = print_colored msg color w.screen }

-- The first messages; `start` and `stop` are what the cursor registers answer.
unfoldable pub banner : ℕ → ℕ → World → Run World
banner start stop w =
    let blank : World = record w {
      screen = enable_cursor start stop 14 15 (clear_screen (init_serial w.screen));
    } in
    let logo = say_colored (text "                         |___/               \n") 0x0A (
      say_colored (text "  \\____|___|_| |_|\\_/ |_|\\__, |  \\___/|____/ \n") 0x0A (
        say_colored (text " | |___ | | | | \\ V /| | |_| |  | |_| |___) |\n") 0x0A (
          say_colored (text " | |    | | '_ \\ \\ / / | | | |  | | | \\___ \\ \n") 0x0A (
            say_colored (text "  / ___|_ _|____   __| |_   _    / _ \\/ ___| \n") 0x0A (
              say_colored (text "   ____ ___           _           ___  ____  \n") 0x0A
                blank))))) in
    let welcome = say (text "Integer test: ") (
      say (text "Kernel loaded successfully\n") (
        say (text "Boot successful\n")
          (say (text "Welcome to CIndy-OS\n") (say (text "\n") logo)))) in
    do
      counted ← say_int 12345 welcome
      let hex : World = say (text "Hex test: ") (say (text "\n") counted)
      let shown : World = record hex { screen = print_hex 3735928559 hex.screen }
      ok (
          say (text "Initializing IDT...\n")
            (say (text "\n") (say (text "Testing ports") (say (text "\n") shown))))

-- `isr` gives the addresses of the entries in isr.asm; the exceptions `n` and up.
unfoldable pub set_exceptions : ℕ → ℕ → (ℕ → ℕ) → Idt → Idt
set_exceptions zero n isr t = t
set_exceptions (suc count) n isr t =
    set_exceptions count (n + 1) isr (idt_set_gate n (isr n) 0x08 0x8E t)

-- The gates of the timer, the keyboard and the system calls.
unfoldable pub set_interrupts : (ℕ → ℕ) → Idt → Idt
set_interrupts isr t =
    idt_set_gate 0x80 (isr 128) 0x08 0xEE
      (idt_set_gate 33 (isr 33) 0x08 0x8E (idt_set_gate 32 (isr 32) 0x08 0x8E t))

-- The three calls that set the memory up. `mbd` is the address of GRUB's structure, which `init_pmm`
-- reads again after `init_paging` has written its tables; `fuel` bounds the walks over the memory map.
unfoldable pub boot_memory : ℕ → ℕ → ℕ → Machine → Run Machine
boot_memory fuel mbd magic s = do
  counted ← init_memory fuel s.ram (load_info s.ram mbd) magic s.memory
  paged ← init_paging (record s { memory = counted })
  memory ← init_pmm fuel paged.ram (load_info paged.ram mbd) paged.memory
  ok (record paged { memory = memory })

-- The archive that GRUB has loaded: the first word of the first module's structure.
unfoldable pub load_initrd : ℕ → World → World
load_initrd mbd w =
    if ltb 0 (load_info w.machine.ram mbd).mods_count
    then record w {
      initrd_address = init_fs (load32 w.machine.ram (load_info w.machine.ram mbd).mods_addr);
    }
    else say (text "Warning: No initrd module loaded by GRUB!\n") w

unfoldable pub start_init_proc : World → World
start_init_proc w = say (text "Process subsystem ready.\n") w

module _ (isr : ℕ → ℕ) (idt_addr tss_addr stack_top start stop fuel : ℕ) where
  unfoldable pub kernel_main : ℕ → ℕ → Os → Run Os
  kernel_main magic mbd os = do
    w₁ ← banner start stop os.world
    let gates : Idt = set_exceptions 32 0 isr (idt_init idt_addr os.idt)
    let w₂ : World =
        say (text "Remapping PIC...\n")
          (say (text "\n") (say (text "IDT loaded successfully\n") w₁))
    let w₃ : World =
        say (text "Enabling interrupts...\n") (say (text "PIC remapped successfully\n") w₂)
    ports ← init_timer 100 (pic_remap os.ports)
    machine ← boot_memory fuel mbd magic w₃.machine
    let w₄ : World = load_initrd mbd (record w₃ { machine = machine })
    (volume, shown) ← fat16_init w₄.disk
    let w₅ : World =
        start_init_proc (record (say shown w₄) { volume = volume; kernel = process_init w₄.kernel })
    let w₆ : World = say (text "Interrupts enabled.\n") (say (text "Initial process started.\n") w₅)
    ok (record {
      world = say_colored (text "\n[CIndy-OS]> ") 0x0B w₆;
      gdt = gdt_init_tss tss_addr stack_top os.gdt;
      idt = set_interrupts isr gates;
      ports = ports;
      interrupts_enabled = true;
    })

module _ (cpu_read : Machine → ℕ → ℕ) (cpu_write : Machine → ℕ → ℕ → Machine)
    (jump_to_usermode : ℕ → ℕ → World → Run World) (fuel input_buffer : ℕ) where
  -- The scan code is what port 0x60 answers.
  unfoldable pub keyboard_handler : ℕ → Os → Run Os
  keyboard_handler scancode os = do
    w ←
        handle_keyboard_interrupt cpu_read cpu_write jump_to_usermode fuel input_buffer scancode
          os.world
    ok (record os { world = w; ports = outb 0x20 0x20 os.ports })
