-- ===== src/Fat16/Write.antt =====
-- src/fat16.c: `fat16_write_file`. `content` is the caller's array of `size` bytes.
pub mod Fresh
pub mod Contents
pub mod Entry
pub mod Directory
use cindy_os.Base.{
  ℕ, zero, suc, ◌+◌, ◌-◌, ◌*◌, ◌/◌, ◌%◌, ltb, leb, ◌==◌, ◌&&◌, ◌||◌, if◌then◌else◌, List, get_or,
  add32, sub32, minus_one, Run, ok, fault, out_of_fuel, ◌>>=◌, Option, none, some,
}
use cindy_os.Base.Ram.{Ram}
use cindy_os.Ata.{Disk, ata_read_sector, ata_write_sector}
use cindy_os.Fat16.{Volume}
use cindy_os.Fat16.Table.{
  fat16_cluster_to_lba, fat16_read_fat_entry, fat16_write_fat_entry, fat16_find_free_cluster,
}

-- The variables of the loop that allocates the chain.
pub record Chain : Type 0 where
  pub disk : Disk
  pub first_cluster : ℕ
  pub prev_cluster : ℕ

-- `count` clusters from round `i` on; `none` is a full disk, on which what was taken stays taken.
unfoldable pub allocate_chain : ℕ → ℕ → Volume → Chain → Run (Option Chain × Disk)
allocate_chain zero i v c = ok (some c, c.disk)
allocate_chain (suc count) i v c = do
  free_c ← fat16_find_free_cluster v c.disk
  let linked : Run Disk =
      if i == 0 then ok c.disk else fat16_write_fat_entry c.prev_cluster free_c v c.disk
  let round : Run (Option Chain × Disk) = (do
    d ← linked
    d' ← fat16_write_fat_entry free_c 0xFFFF v d
    allocate_chain count (i + 1) v (record {
      disk = d';
      first_cluster = if i == 0 then free_c else c.first_cluster;
      prev_cluster = free_c;
    }))
  if free_c == 0 then ok (none, c.disk) else round

-- The sector `tmp`: `chunk` bytes of the content from `bytes_written` on, and zeros.
unfoldable pub chunk_of : List ℕ → ℕ → ℕ → Ram
chunk_of content bytes_written chunk i =
    if ltb i chunk then get_or content (bytes_written + i) 0 else 0

-- `count` sectors of a cluster from sector `sec` on: the disk, and `bytes_written`.
unfoldable pub write_cluster : ℕ → ℕ → ℕ → List ℕ → ℕ → Disk → ℕ → Disk × ℕ
write_cluster zero sec lba content size disk bytes_written = (disk, bytes_written)
write_cluster (suc count) sec lba content size disk bytes_written =
    let chunk = if ltb (size - bytes_written) 512 then size - bytes_written else 512 in
    let disk' = ata_write_sector (add32 lba sec) (chunk_of content bytes_written chunk) disk in
    let rest = write_cluster count (sec + 1) lba content size disk' (bytes_written + chunk) in
    if ltb bytes_written size then rest else (disk, bytes_written)

-- `while (curr_cluster >= 0x0002 && curr_cluster < 0xFFF8 && bytes_written < size)`
unfoldable pub write_chain : ℕ → ℕ → Volume → List ℕ → ℕ → Disk → ℕ → Run Disk
write_chain zero cluster v content size disk bytes_written = out_of_fuel
write_chain (suc fuel) cluster v content size disk bytes_written =
    let lba = fat16_cluster_to_lba v cluster in
    let written = write_cluster v.g_bpb.sectors_per_clustor 0 lba content size disk bytes_written in
    let round : Run Disk = fat16_read_fat_entry cluster v written.0 >>= λ next.
    write_chain fuel next v content size written.0 written.1 in
    if leb 2 cluster && (ltb cluster 0xFFF8 && ltb bytes_written size) then round else ok disk

-- `memset(&entries[e], 0, 32)` and the fields that are set, in a sector's buffer at `a`.
unfoldable pub fill_entry : List ℕ → List ℕ → ℕ → ℕ → ℕ → Ram → Ram
fill_entry name8 ext3 first_cluster size a buf x =
    if ltb x a || leb (a + 32) x
    then buf x
    else if ltb (x - a) 8
    then get_or name8 (x - a) 0
    else if ltb (x - a) 11
    then get_or ext3 (x - a - 8) 0
    else if x - a == 11
    then 0x20
    else if x - a == 26
    then first_cluster % 256
    else if x - a == 27
    then first_cluster / 256
    else if x - a == 28
    then size % 256
    else if x - a == 29
    then size / 256 % 256
    else if x - a == 30
    then size / 65536 % 256
    else if x - a == 31
    then size / 16777216
    else 0

-- The first of `count` entries from `e` on that is empty or deleted.
unfoldable pub free_slot : ℕ → ℕ → Ram → Option ℕ
free_slot zero e buf = none
free_slot (suc count) e buf =
    let later = free_slot count (e + 1) buf in
    if buf (e * 32) == 0 || buf (e * 32) == 0xE5 then some e else later

-- The loops over the root directory, `count` sectors from `s` on: the result and the disk.
unfoldable pub add_entry : ℕ → ℕ → Volume → List ℕ → List ℕ → ℕ → ℕ → Disk → ℕ × Disk
add_entry zero s v name8 ext3 first_cluster size disk = (minus_one, disk)
add_entry (suc count) s v name8 ext3 first_cluster size disk =
    let buf = ata_read_sector (add32 v.root_dir_start s) disk in
    elim (free_slot 16 0 buf) [
      | none ↦ add_entry count (s + 1) v name8 ext3 first_cluster size disk
      | some e ↦ (
        0,
        ata_write_sector (add32 v.root_dir_start s)
            (fill_entry name8 ext3 first_cluster size (e * 32) buf) disk,
      )
    ]

-- The result, an `int`, and the disk. `size + 1` rounds of the loop over the chain are enough.
unfoldable pub fat16_write_file : List ℕ → List ℕ → List ℕ → ℕ → Volume → Disk → Run (ℕ × Disk)
fat16_write_file name8 ext3 content size v disk =
    let cluster_bytes = v.g_bpb.sectors_per_clustor * v.g_bpb.bytes_per_sector in
    let clusters_needed = sub32 (add32 size cluster_bytes) 1 / cluster_bytes in
    let written : Run (ℕ × Disk) = (do
      (chain, d) ←
          allocate_chain clusters_needed 0 v
            (record { disk = disk; first_cluster = 0; prev_cluster = 0 })
      elim chain [
        | none ↦ ok (minus_one, d)
        | some c ↦ (do
          d' ← write_chain (size + 1) c.first_cluster v content size c.disk 0
          ok (add_entry v.root_dir_sectors 0 v name8 ext3 c.first_cluster size d'))
      ]) in
    if cluster_bytes == 0
    then fault
    else if clusters_needed == 0
    then ok (minus_one, disk)
    else written
