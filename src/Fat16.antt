-- ===== src/Fat16.antt =====
-- src/fat16.c and include/fat16.h: the volume's geometry and the directory entries. A multi-byte field
-- is little-endian at its offset in the packed structure. A buffer of one sector is `Ram` below 512;
-- an access past it is `fault`, and so is a division by 0.
pub mod Name
pub mod Table
pub mod Read
pub mod Init
pub mod Write
pub mod Chain
pub mod RoundTrip
pub mod Tests
use cindy_os.Base.{
  ℕ, zero, suc, ◌+◌, ◌*◌, ◌/◌, ◌==◌, if◌then◌else◌, List, [], ◌∷◌, u32, Run, ok, fault, ◌>>=◌,
}
use cindy_os.Base.Ram.{Ram, load16, load32}
use cindy_os.Ata.{Disk, ata_read_sector}

-- `count` bytes from an offset on.
unfoldable pub bytes_at : ℕ → ℕ → Ram → List ℕ
bytes_at zero a m = []
bytes_at (suc count) a m = m a ∷ bytes_at count (a + 1) m

pub record Bpb : Type 0 where
  pub jump : List ℕ
  pub oem : List ℕ
  pub bytes_per_sector : ℕ
  pub sectors_per_clustor : ℕ
  pub reserved_sectors : ℕ
  pub fat_count : ℕ
  pub root_dir_entries : ℕ
  pub total_sectors_small : ℕ
  pub media_descriptor : ℕ
  pub sectors_per_fat : ℕ
  pub sectors_per_track : ℕ
  pub num_heads : ℕ
  pub hidden_sectors : ℕ
  pub total_sectors_large : ℕ
  pub drive_number : ℕ
  pub reserved : ℕ
  pub boot_signature : ℕ
  pub volume_id : ℕ
  pub volume_label : List ℕ
  pub fs_type : List ℕ

unfoldable pub load_bpb : Ram → Bpb
load_bpb m = record {
  jump = bytes_at 3 0 m;
  oem = bytes_at 8 3 m;
  bytes_per_sector = load16 m 11;
  sectors_per_clustor = m 13;
  reserved_sectors = load16 m 14;
  fat_count = m 16;
  root_dir_entries = load16 m 17;
  total_sectors_small = load16 m 19;
  media_descriptor = m 21;
  sectors_per_fat = load16 m 22;
  sectors_per_track = load16 m 24;
  num_heads = load16 m 26;
  hidden_sectors = load32 m 28;
  total_sectors_large = load32 m 32;
  drive_number = m 36;
  reserved = m 37;
  boot_signature = m 38;
  volume_id = load32 m 39;
  volume_label = bytes_at 11 43 m;
  fs_type = bytes_at 8 54 m;
}

pub record DirEntry : Type 0 where
  pub filename : List ℕ
  pub ex : List ℕ
  pub attributes : ℕ
  pub reserved : ℕ
  pub creation_time_tenths : ℕ
  pub creation_time : ℕ
  pub creation_date : ℕ
  pub last_access_date : ℕ
  pub high_first_cluster : ℕ
  pub last_mod_time : ℕ
  pub last_mod_date : ℕ
  pub low_first_cluster : ℕ
  pub file_size : ℕ

unfoldable pub load_dir : Ram → ℕ → DirEntry
load_dir m a = record {
  filename = bytes_at 8 a m;
  ex = bytes_at 3 (a + 8) m;
  attributes = m (a + 11);
  reserved = m (a + 12);
  creation_time_tenths = m (a + 13);
  creation_time = load16 m (a + 14);
  creation_date = load16 m (a + 16);
  last_access_date = load16 m (a + 18);
  high_first_cluster = load16 m (a + 20);
  last_mod_time = load16 m (a + 22);
  last_mod_date = load16 m (a + 24);
  low_first_cluster = load16 m (a + 26);
  file_size = load32 m (a + 28);
}

-- The globals of fat16.c.
pub record Volume : Type 0 where
  pub g_bpb : Bpb
  pub fat_start_sector : ℕ
  pub root_dir_start : ℕ
  pub root_dir_sectors : ℕ
  pub data_start_sector : ℕ

-- The geometry that `fat16_init` computes from the boot sector.
unfoldable pub geometry : Bpb → Run Volume
geometry bpb =
    let root_dir_start = bpb.reserved_sectors + bpb.fat_count * bpb.sectors_per_fat in
    let root_dir_sectors = bpb.root_dir_entries * 32 / bpb.bytes_per_sector in
    if bpb.bytes_per_sector == 0
    then fault
    else ok (record {
      g_bpb = bpb;
      fat_start_sector = bpb.reserved_sectors;
      root_dir_start = root_dir_start;
      root_dir_sectors = root_dir_sectors;
      data_start_sector = root_dir_start + root_dir_sectors;
    })
