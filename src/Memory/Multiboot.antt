-- ===== src/Memory/Multiboot.antt =====
-- include/multiboot.h, and the loop over the memory map that GRUB leaves in memory.
use cindy_os.Base.{ℕ, zero, suc, ◌+◌, ltb, if◌then◌else◌, add32, Run, ok, out_of_fuel, ◌>>=◌}
use cindy_os.Base.Ram.{Ram, load32}

pub record MmapEntry : Type 0 where
  pub size : ℕ
  pub base_addr_low : ℕ
  pub base_addr_high : ℕ
  pub length_low : ℕ
  pub length_high : ℕ
  pub type : ℕ

pub record MultibootInfo : Type 0 where
  pub flags : ℕ
  pub mem_lower : ℕ
  pub mem_upper : ℕ
  pub boot_device : ℕ
  pub cmdline : ℕ
  pub mods_count : ℕ
  pub mods_addr : ℕ
  pub num : ℕ
  pub size : ℕ
  pub addr : ℕ
  pub shndx : ℕ
  pub mmap_length : ℕ
  pub mmap_addr : ℕ

-- The packed structures at an address.
unfoldable pub load_entry : Ram → ℕ → MmapEntry
load_entry ram a = record {
  size = load32 ram a;
  base_addr_low = load32 ram (a + 4);
  base_addr_high = load32 ram (a + 8);
  length_low = load32 ram (a + 12);
  length_high = load32 ram (a + 16);
  type = load32 ram (a + 20);
}

unfoldable pub load_info : Ram → ℕ → MultibootInfo
load_info ram a = record {
  flags = load32 ram a;
  mem_lower = load32 ram (a + 4);
  mem_upper = load32 ram (a + 8);
  boot_device = load32 ram (a + 12);
  cmdline = load32 ram (a + 16);
  mods_count = load32 ram (a + 20);
  mods_addr = load32 ram (a + 24);
  num = load32 ram (a + 28);
  size = load32 ram (a + 32);
  addr = load32 ram (a + 36);
  shndx = load32 ram (a + 40);
  mmap_length = load32 ram (a + 44);
  mmap_addr = load32 ram (a + 48);
}

-- `while (mmap < stop) { body; mmap = mmap + mmap->size + 4; }`
unfoldable pub walk {ℓ} : {S : Type ℓ} → ℕ → Ram → ℕ → ℕ → (MmapEntry → S → Run S) → S → Run S
walk zero ram mmap stop body s = out_of_fuel
walk (suc fuel) ram mmap stop body s =
    let entry = load_entry ram mmap in
    let round : Run _ =
      body entry s >>= walk fuel ram (add32 (add32 mmap entry.size) 4) stop body in
    if ltb mmap stop then round else ok s
