-- ===== src/Fat16/Table.antt =====
-- src/fat16.c: the file allocation table. `fat16_read_fat_entry` and `fat16_write_fat_entry` use one
-- buffer of 512 bytes: an entry past it (sectors larger than that) is `fault`.
pub mod Laws
use cindy_os.Base.{
  ℕ, zero, suc, ◌+◌, ◌-◌, ◌*◌, ◌/◌, ◌%◌, ltb, ◌==◌, ◌!=◌, if◌then◌else◌, u16, u32, add32, sub32,
  Run, ok, fault, ◌>>=◌,
}
use cindy_os.Base.Ram.{Ram, load16, store8}
use cindy_os.Ata.{Disk, ata_read_sector, ata_write_sector}
use cindy_os.Fat16.{Bpb, Volume}

unfoldable pub fat16_cluster_to_lba : Volume → ℕ → ℕ
fat16_cluster_to_lba v cluster =
    u32 (v.data_start_sector + sub32 cluster 2 * v.g_bpb.sectors_per_clustor)

-- The sector of the first table with the entry of a cluster, and the entry's place in it.
abbrev pub fat_sector : Volume → ℕ → ℕ
fat_sector v cluster = u32 (v.fat_start_sector + cluster * 2 / v.g_bpb.bytes_per_sector)

abbrev pub entry_offset : Volume → ℕ → ℕ
entry_offset v cluster = cluster * 2 % v.g_bpb.bytes_per_sector

unfoldable pub fat16_read_fat_entry : ℕ → Volume → Disk → Run ℕ
fat16_read_fat_entry cluster v disk =
    let buf = ata_read_sector (fat_sector v cluster) disk in
    if v.g_bpb.bytes_per_sector == 0
    then fault
    else if ltb (entry_offset v cluster + 1) 512
    then ok (load16 buf (entry_offset v cluster))
    else fault

unfoldable pub fat16_write_fat_entry : ℕ → ℕ → Volume → Disk → Run Disk
fat16_write_fat_entry cluster value v disk =
    let fat1_sector = fat_sector v cluster in
    let offset = entry_offset v cluster in
    let buf =
      store8 (store8 (ata_read_sector fat1_sector disk) offset value) (offset + 1) (value / 256) in
    let fat2_sector = add32 fat1_sector v.g_bpb.sectors_per_fat in
    if v.g_bpb.bytes_per_sector == 0
    then fault
    else if ltb (offset + 1) 512
    then ok (ata_write_sector fat2_sector buf (ata_write_sector fat1_sector buf disk))
    else fault

-- The loop of `fat16_find_free_cluster` over `count` clusters from `c` on.
unfoldable pub find_free : ℕ → ℕ → Volume → Disk → Run ℕ
find_free zero c v disk = ok 0
find_free (suc count) c v disk =
    let later = find_free count (c + 1) v disk in
    do entry ← fat16_read_fat_entry c v disk; if entry == 0 then ok c else later

-- `(uint16_t)(total_clusters + 2)`, where the loop stops.
unfoldable pub cluster_end : Volume → ℕ
cluster_end v =
    let b = v.g_bpb in
    let total_sectors =
      if b.total_sectors_small != 0 then b.total_sectors_small else b.total_sectors_large in
    u16 (sub32 total_sectors v.data_start_sector / b.sectors_per_clustor + 2)

unfoldable pub fat16_find_free_cluster : Volume → Disk → Run ℕ
fat16_find_free_cluster v disk =
    if v.g_bpb.sectors_per_clustor == 0 then fault else find_free (cluster_end v - 2) 2 v disk
