-- ===== src/Ata.antt =====
-- src/ata.c: a sector is addressed by the bytes that the driver sends to the controller. The waiting
-- for the controller is left out; the disk, a device, is its sectors of 512 bytes, and answers for the
-- sector that its registers name (28-bit LBA).
use cindy_os.Base.{
  ℕ, ◌+◌, ◌*◌, ◌/◌, ◌%◌, ◌<◌, ◌&&◌, ap, ◌∙◌, ◌≡◌, bit_and, bit_or, u8, ◌>>>◌, ◌==◌, ltb,
  if◌then◌else◌, arith,
}
use cindy_os.Base.Bits.{bit_and_mask, bit_or_low}
use cindy_os.Base.Ram.{Ram}

abbrev pub Disk : Type 0
Disk = ℕ → Ram

-- What is sent to the ports 0x1F6, 0x1F2, 0x1F3, 0x1F4, 0x1F5 and 0x1F7.
pub record Registers : Type 0 where
  pub drive_head : ℕ
  pub count : ℕ
  pub lba_low : ℕ
  pub lba_mid : ℕ
  pub lba_high : ℕ
  pub command : ℕ

unfoldable pub ata_registers : ℕ → ℕ → Registers
ata_registers command lba = record {
  drive_head = bit_or 0xE0 (bit_and (lba >>> 24) 0x0F);
  count = 1;
  lba_low = u8 lba;
  lba_mid = u8 (lba >>> 8);
  lba_high = u8 (lba >>> 16);
  command = command;
}

-- The sector that the controller takes the registers to name.
abbrev pub sector_of : Registers → ℕ
sector_of r = r.drive_head % 16 * 16777216 + r.lba_high * 65536 + r.lba_mid * 256 + r.lba_low

-- The buffer after a read, and the disk after a write.
unfoldable pub ata_read_sector : ℕ → Disk → Ram
ata_read_sector lba disk = disk (sector_of (ata_registers 0x20 lba))

unfoldable pub ata_write_sector : ℕ → Ram → Disk → Disk
ata_write_sector lba buffer disk s i =
    if s == sector_of (ata_registers 0x30 lba) && ltb i 512 then buffer i else disk s i

-- The registers name the sector, up to its low 28 bits.
pub sector_of-ata_registers :
    (command lba : ℕ) → sector_of (ata_registers command lba) ≡ lba % 268435456
unfolding ata_registers
sector_of-ata_registers command lba =
    ap (λ n. n % 16 * 16777216 + u8 (lba >>> 16) * 65536 + u8 (lba >>> 8) * 256 + u8 lba) drive
    ∙ omega arith
  where
    drive : bit_or 0xE0 (bit_and (lba >>> 24) 0x0F) ≡ 224 + lba / 16777216 % 16
    drive =
        ap (bit_or 0xE0) (bit_and_mask 4 (lba >>> 24))
        ∙ bit_or_low 4 14 (lba / 16777216 % 16) (omega arith)

module _ (lba : ℕ) (small : lba < 268435456) (disk : Disk) where
  pub ata_read_sector_lem : ata_read_sector lba disk ≡ disk lba
  unfolding ata_read_sector
  ata_read_sector_lem = ap disk (sector_of-ata_registers 0x20 lba ∙ omega arith)

  pub ata_write_sector_lem :
      (buffer : Ram) (s i : ℕ)
      → ata_write_sector lba buffer disk s i
        ≡ (if s == lba && ltb i 512 then buffer i else disk s i)
  unfolding ata_write_sector
  ata_write_sector_lem buffer s i =
      ap (λ t. if s == t && ltb i 512 then buffer i else disk s i)
        (sector_of-ata_registers 0x30 lba ∙ omega arith)
