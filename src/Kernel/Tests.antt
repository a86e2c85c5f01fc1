-- ===== src/Kernel/Tests.antt =====
-- src/kernel.c: the theorems on a machine of 64 MiB, whose memory map is at 0x9000, with a FAT16 disk.
use cindy_os.Base.{ℕ, ◌+◌, ◌*◌, ◌%◌, ◌≡◌, none, [], ◌∷◌, arith, refl, inl, false, Returns}
use cindy_os.Base.Bits.{bit}
use cindy_os.Base.Ram.{Ram, load16, load32, store32}
use cindy_os.Memory.Multiboot.{load_entry, load_info}
use cindy_os.Memory.{at_start}
use cindy_os.Memory.Boot.Tests.{ram, entry}
use cindy_os.Paging.{Machine, required_pdes, init_paging}
use cindy_os.Paging.Tables.{IsRam, store32-IsRam}
use cindy_os.Paging.Init.Directory.{IdentityMap}
use cindy_os.Paging.Init.{next_page, init_paging_lem}
use cindy_os.Descriptors.{Idt, zero_tss}
use cindy_os.Fat16.{load_bpb, load_dir}
use cindy_os.Fat16.Init.{Mountable}
use cindy_os.Fat16.Tests.{empty_disk}
use cindy_os.Ata.{ata_registers, ata_read_sector}
use cindy_os.Kernel.{Os, boot_memory, kernel_main, set_exceptions, set_interrupts}
use cindy_os.Kernel.Memory.{no_bits, IsBootable, MemoryBooted, boot_memory_lem}
use cindy_os.Kernel.Gates.{Gates, set_interrupts_lem}
use cindy_os.Kernel.Start.{SystemBooted, kernel_main_lem}

-- GRUB's structure, at 0xA000.
abbrev with_info : Ram
with_info =
    store32 (store32 (store32 (ram 0x4000000) 0xA000 64) (0xA000 + 44) 24) (0xA000 + 48) 0x9000

abbrev machine : Machine
machine = record { memory = at_start; ram = with_info; page_direc = 0; cr3 = 0; cr0 = 0 }

with_info-IsRam : IsRam with_info
with_info-IsRam = store32-IsRam _ _ _ (
    store32-IsRam _ _ _ (
      store32-IsRam _ _ _
        (store32-IsRam _ _ _ (store32-IsRam _ _ _ (store32-IsRam _ _ _ λ x. omega arith)))))

machine-IsBootable : IsBootable 2 0xA000 (entry 0x4000000 ∷ []) machine
unfolding load_info load_entry load32 store32
machine-IsBootable = record {
  fresh = refl;
  bytes = with_info-IsRam;
  flag = omega arith;
  small = omega arith;
  map = (omega arith, refl, omega arith, omega arith);
  enough = omega arith;
  fits = (ground arith, tt);
  aligned = ((λ u. omega arith), tt);
  info_apart = inl (omega arith);
  apart = inl (omega arith);
}

boot_memory_lem_example :
    Returns (MemoryBooted (entry 0x4000000 ∷ [])) (boot_memory 2 0xA000 0x2BADB002 machine)
boot_memory_lem_example = boot_memory_lem 2 0xA000 (entry 0x4000000 ∷ []) machine machine-IsBootable

abbrev table : Idt
table = record {
  idt = λ i. record { base_low = 0; selector = 0; always_zero = 0; flags = 0; base_high = 0 };
  idtp = record { limit = 0; base = 0 };
  loaded = [];
}

abbrev os : Os
os = record {
  world = record {
    machine = machine;
    kernel = record {
      procs = λ p. none;
      curr_proc = 0;
      ready_head = 0;
      ready_tail = 0;
      next_pid = 0;
    };
    screen = record { video = λ x. 0; cursor_row = 0; cursor_col = 0; ports = [] };
    disk = empty_disk;
    volume = record {
      g_bpb = load_bpb (λ x. 0);
      fat_start_sector = 0;
      root_dir_start = 0;
      root_dir_sectors = 0;
      data_start_sector = 0;
    };
    initrd_address = 0;
    timer_ticks = 0;
    shift_pressed = 0;
    caps = 0;
    buffer_index = 0;
  };
  gdt = record { tss = zero_tss; gdt_tss = λ i. 0; task_register = 0 };
  idt = table;
  ports = [];
  interrupts_enabled = false;
}

-- The routines, 16 bytes apart, or at 0 past interrupt 255.
abbrev isr : ℕ → ℕ
isr n = (0x100000 + 16 * n) % 4294967296

empty_disk-Mountable : Mountable empty_disk
unfolding load_bpb load_dir load16 load32 ata_read_sector ata_registers
empty_disk-Mountable = record {
  bytes = λ s i. ground arith;
  sector_size = omega arith;
  listable = λ v g s e lt lt'.
      let root : v.root_dir_start ≡ 3 = omega (arith, g.root, g.tables) in
      let first : s ≡ 0 = omega (arith, lt, g.entries) in rw (root, first) (ground arith);
}

kernel_main_lem_example :
    Returns
      (SystemBooted isr 0x10000 0x123456 0x300000 (entry 0x4000000 ∷ []) os)
      (kernel_main isr 0x10000 0x123456 0x300000 0 0 2 0x2BADB002 0xA000 os)
kernel_main_lem_example =
    kernel_main_lem isr 0x10000 0x123456 0x300000 0 0 2 0xA000 (entry 0x4000000 ∷ []) os
      (λ n. omega arith) (omega arith) machine-IsBootable empty_disk-Mountable

init_paging_lem_example :
    Returns
      (λ s'.
        IdentityMap (next_page 0x200000) (required_pdes 0) machine s'
        × (s'.cr3 ≡ s'.page_direc)
        × (bit s'.cr0 31 ≡ 1))
      (init_paging machine)
unfolding at_start required_pdes
init_paging_lem_example = init_paging_lem machine no_bits with_info-IsRam (omega arith)

set_interrupts_lem_example :
    let t' = set_interrupts isr (set_exceptions 32 0 isr table) in
    Gates isr table t' × (t'.loaded ≡ table.loaded)
set_interrupts_lem_example = set_interrupts_lem isr table (λ n. omega arith)
