-- ===== src/Kernel/Start.antt =====
-- src/kernel.c: the state in which `kernel_main` waits for interrupts.
use cindy_os.Base.{
  ℕ, ◌<◌, ◌≡◌, List, [], ◌∷◌, true, Returns, returns, Returns-bind, refl, ap, arith, Bool-cases,
  inl, inr, ltb,
}
use cindy_os.Memory.Multiboot.{MmapEntry, load_info}
use cindy_os.Process.{process_init}
use cindy_os.Screen.{Screen}
use cindy_os.Screen.Numbers.{print_int, print_each}
use cindy_os.Screen.Numbers.Laws.{int_text_lem}
use cindy_os.Descriptors.{Idt, idt_init}
use cindy_os.Descriptors.Encoding.{DecodesTo, gdt_init_tss_lem}
use cindy_os.Ata.{Disk, ata_read_sector}
use cindy_os.Fat16.{load_bpb}
use cindy_os.Fat16.Init.{fat16_init, Geometry, Mountable, fat16_init_lem}
use cindy_os.Devices.{init_timer_lem}
use cindy_os.Keyboard.{World, say_int}
use cindy_os.Kernel.{
  Os, banner, load_initrd, start_init_proc, set_exceptions, set_interrupts, kernel_main,
}
use cindy_os.Kernel.Memory.{MemoryBooted, IsBootable, boot_memory_lem}
use cindy_os.Kernel.Gates.{Gates, set_interrupts_lem}

-- A change of the screen alone.
abbrev OnScreen : World → World → Type 0
OnScreen w w' = (s : Screen) × (w' ≡ record w { screen = s })

say_int-OnScreen : (w : World) → Returns (OnScreen w) (say_int 12345 w)
unfolding print_int
say_int-OnScreen w = Returns-bind shown λ s e. returns (s, refl)
  where
    shown : Returns (λ s. (cs : List ℕ) × (s ≡ print_each cs w.screen)) (print_int 12345 w.screen)
    shown = Returns-bind (int_text_lem 12345 (omega arith) (omega arith)) λ cs d. returns (cs, refl)

banner_lem : (start stop : ℕ) (w : World) → Returns (OnScreen w) (banner start stop w)
unfolding banner
banner_lem start stop w =
    Returns-bind (say_int-OnScreen _) λ counted (s, e). rw e (returns (_, refl))

fat16_init-Geometry :
    {disk disk₀ : Disk}
    → disk ≡ disk₀
    → Mountable disk₀
    → Returns (λ (v, shown). Geometry (load_bpb (ata_read_sector 0 disk₀)) v) (fat16_init disk)
fat16_init-Geometry {disk} {disk₀} same m =
    rw same (fat16_init_lem disk₀ m.bytes m.sector_size m.listable)

-- Only the screen and the archive's address change.
record InitrdLoaded (w w' : World) : Type 0 where
  same_machine : w'.machine ≡ w.machine
  same_kernel : w'.kernel ≡ w.kernel
  same_disk : w'.disk ≡ w.disk

load_initrd_lem : (mbd : ℕ) (w : World) → InitrdLoaded w (load_initrd mbd w)
unfolding load_initrd
load_initrd_lem mbd w = elim (Bool-cases (ltb 0 (load_info w.machine.ram mbd).mods_count)) [
  | inl some ↦ rw some (record { same_machine = refl; same_kernel = refl; same_disk = refl })
  | inr none ↦ rw none (record { same_machine = refl; same_kernel = refl; same_disk = refl })
]

-- The gates that `kernel_main` sets, in the table that `idt_init` has loaded.
Gates-idt_init :
    (isr : ℕ → ℕ) (idt_addr : ℕ) (t : Idt)
    → ((n : ℕ) → isr n < 4294967296)
    → let t' = set_interrupts isr (set_exceptions 32 0 isr (idt_init idt_addr t)) in
      Gates isr t t' × (t'.loaded ≡ record { limit = 2047; base = idt_addr } ∷ [])
unfolding idt_init
Gates-idt_init isr idt_addr t small = set_interrupts_lem isr (idt_init idt_addr t) small

-- What `kernel_main` has set up when it comes to the loop; `disk` is not changed.
pub record SystemBooted (isr : ℕ → ℕ) (idt_addr tss_addr stack_top : ℕ) (es : List MmapEntry)
    (os os' : Os) : Type 0 where
  pub memory : MemoryBooted es os'.world.machine
  pub gates : Gates isr os.idt os'.idt
  pub table_register : os'.idt.loaded ≡ record { limit = 2047; base = idt_addr } ∷ []
  pub task : DecodesTo tss_addr 103 os'.gdt.gdt_tss
  pub task_stack : (os'.gdt.tss.esp0 ≡ stack_top) × (os'.gdt.tss.ss0 ≡ 0x10)
  pub task_register : os'.gdt.task_register ≡ 0x28
  pub volume : Geometry (load_bpb (ata_read_sector 0 os.world.disk)) os'.world.volume
  pub same_disk : os'.world.disk ≡ os.world.disk
  pub no_process : os'.world.kernel ≡ process_init os.world.kernel
  pub enabled : os'.interrupts_enabled ≡ true

-- From the C start-up state, with a memory map as `boot_memory` needs it, routines and a TSS below
-- 4 GiB, and a disk of bytes whose first sector gives a sector size other than 0 and whose root directory
-- can be listed, `kernel_main` comes to its loop: paging and the frame allocator satisfy their
-- invariants, the exceptions, the timer, the keyboard and interrupt 128 enter their routines, the task
-- register selects the TSS, which has the kernel's stack, the volume has the geometry that the first
-- sector gives, the disk is unchanged, and no process runs.
pub kernel_main_lem :
    (isr : ℕ → ℕ) (idt_addr tss_addr stack_top start stop fuel mbd : ℕ) (es : List MmapEntry)
    (os : Os)
    → ((n : ℕ) → isr n < 4294967296)
    → tss_addr < 4294967296
    → IsBootable fuel mbd es os.world.machine
    → Mountable os.world.disk
    → Returns
        (SystemBooted isr idt_addr tss_addr stack_top es os)
        (kernel_main isr idt_addr tss_addr stack_top start stop fuel 0x2BADB002 mbd os)
unfolding kernel_main start_init_proc
kernel_main_lem isr idt_addr tss_addr stack_top start stop fuel mbd es os small tss_small b
      disk_ok =
    let (descriptor, esp0, ss0, _, _, _, selector) =
      gdt_init_tss_lem tss_addr stack_top 0 os.gdt tss_small in
    let (gates, loaded) = Gates-idt_init isr idt_addr os.idt small in
    Returns-bind (banner_lem start stop os.world) λ w₁ (s, e). rw e (
      Returns-bind (init_timer_lem 100 _ (omega arith)) λ ports p.
        Returns-bind (boot_memory_lem fuel mbd es os.world.machine b) λ machine booted.
          let k = load_initrd_lem mbd _ in
          Returns-bind (fat16_init-Geometry k.same_disk disk_ok) λ (volume, shown) v.
            returns (record {
              memory = rw k.same_machine booted;
              gates = gates;
              table_register = loaded;
              task = descriptor;
              task_stack = (esp0, ss0);
              task_register = selector;
              volume = v;
              same_disk = k.same_disk;
              no_process = ap process_init k.same_kernel;
              enabled = refl;
            }))
