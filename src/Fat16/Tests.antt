-- ===== src/Fat16/Tests.antt =====
-- src/fat16.c: the theorems on a volume of 40 sectors, with two tables of one sector each.
use cindy_os.Base.{
  ℕ, zero, suc, List, [], ◌∷◌, get_or, none, ◌+◌, ◌<◌, ◌≤◌, ◌≡◌, ◌⊎◌, refl, arith, ◌==◌,
  if◌then◌else◌, map, text, Returns,
}
use cindy_os.Base.Ram.{Ram, load16, load32}
use cindy_os.Ata.{Disk, ata_read_sector, ata_registers}
use cindy_os.Fat16.{Volume, load_bpb}
use cindy_os.Fat16.Name.{uppercase, fat16_format_83}
use cindy_os.Fat16.Name.Laws.{padded, stem, suffix, fat16_format_83_lem}
use cindy_os.Fat16.Table.{cluster_end, fat16_write_fat_entry, fat16_find_free_cluster}
use cindy_os.Fat16.Table.Laws.{
  IsVolume, IsDisk, Written, FirstFree, fat16_write_fat_entry_lem, fat16_find_free_cluster_lem,
}
use cindy_os.Fat16.Write.{allocate_chain}
use cindy_os.Fat16.Write.Fresh.{ChainResult, allocate_chain_lem}
use cindy_os.Fat16.Read.{find_in_sector, find_file, fat16_read_file}
use cindy_os.Fat16.Chain.{cluster_bytes, IsLayout}
use cindy_os.Fat16.Write.{fat16_write_file}
use cindy_os.Fat16.Write.Entry.{IsName}
use cindy_os.Fat16.RoundTrip.{IsSaved, fat16_write_file-fat16_read_file}
use cindy_os.Fat16.Read.Bounds.{fat16_read_file_bounds}

-- 512 bytes in a sector, one sector in a cluster, one reserved, 2 tables of one sector, 16 entries in
-- the root directory, 40 sectors.
abbrev boot : Ram
boot a =
    if a == 12
    then 2
    else if a == 13
    then 1
    else if a == 14
    then 1
    else if a == 16
    then 2
    else if a == 17
    then 16
    else if a == 19
    then 40
    else if a == 22
    then 1
    else 0

abbrev volume : Volume
volume = record {
  g_bpb = load_bpb boot;
  fat_start_sector = 1;
  root_dir_start = 3;
  root_dir_sectors = 1;
  data_start_sector = 4;
}

abbrev pub empty_disk : Disk
empty_disk s i = if s == 0 then boot i else 0

volume-IsVolume : IsVolume volume
unfolding load_bpb load16
volume-IsVolume = record { sector_size = refl; cluster_size = omega arith; tables = omega arith }

fat16_format_83_lem_example : fat16_format_83 (text "kernel_image.c") ≡ (
  padded 8 (map uppercase (stem (text "kernel_image.c"))),
  padded 3 (map uppercase (suffix (text "kernel_image.c"))),
)
fat16_format_83_lem_example = fat16_format_83_lem (text "kernel_image.c")

fat16_write_fat_entry_lem_example :
    Returns (Written 5 0xFFFF volume empty_disk) (fat16_write_fat_entry 5 0xFFFF volume empty_disk)
unfolding load_bpb load16
fat16_write_fat_entry_lem_example =
    fat16_write_fat_entry_lem volume-IsVolume 5 0xFFFF (omega arith) (omega arith) empty_disk

fat16_find_free_cluster_lem_example :
    Returns
      (FirstFree volume empty_disk 2 (cluster_end volume))
      (fat16_find_free_cluster volume empty_disk)
unfolding load_bpb load16 load32 cluster_end
fat16_find_free_cluster_lem_example =
    fat16_find_free_cluster_lem volume-IsVolume empty_disk (omega arith) (omega arith)

fat16_read_file_bounds_example :
    Returns
      (λ (r, after). (x : ℕ) → (x < 1000) ⊎ (1000 + 600 ≤ x) → after x ≡ 0)
      (fat16_read_file (text "A       ") (text "TXT") 1000 600 volume empty_disk (λ x. 0))
unfolding load_bpb load16
fat16_read_file_bounds_example =
    fat16_read_file_bounds (text "A       ") (text "TXT") 1000 600 volume empty_disk (λ x. 0)
      (volume-IsVolume.sector_size) (volume-IsVolume.cluster_size)

allocate_chain_lem_example :
    Returns (ChainResult volume empty_disk 2) (
      allocate_chain 3 0 volume (record { disk = empty_disk; first_cluster = 0; prev_cluster = 0 }))
unfolding load_bpb load16 load32 cluster_end
allocate_chain_lem_example =
    allocate_chain_lem volume-IsVolume (omega arith) empty_disk 2 (omega arith)

volume-IsLayout : IsLayout volume
unfolding load_bpb load16 load32 cluster_end
volume-IsLayout = record {
  volume = volume-IsVolume;
  root = omega arith;
  data_area = omega arith;
  covered = omega arith;
  some_clusters = omega arith;
  chain_ends = omega arith;
  on_disk = omega arith;
}

abbrev AllBytes : List ℕ → Type 0
AllBytes [] = Unit
AllBytes (c ∷ cs) = (c < 256) × AllBytes cs

get_or_lt : (cs : List ℕ) (i : ℕ) → AllBytes cs → get_or cs i 0 < 256
get_or_lt [] i all = omega arith
get_or_lt (c ∷ cs) zero (small, all) = small
get_or_lt (c ∷ cs) (suc i) (small, all) = get_or_lt cs i all

todo-IsName : IsName (text "TODO    ") (text "TXT")
todo-IsName = record {
  some_name = omega arith;
  not_deleted = omega arith;
  bytes = λ i. get_or_lt (text "TODO    ") i (ground arith);
  ext_bytes = λ i. get_or_lt (text "TXT") i (ground arith);
}

empty_disk-IsDisk : IsDisk empty_disk
empty_disk-IsDisk s i = ground arith

no_todo : find_file 1 0 volume empty_disk (text "TODO    ") (text "TXT") ≡ none
unfolding find_file find_in_sector ata_read_sector ata_registers
no_todo = refl

tea-bytes : (i : ℕ) → get_or (text "tea") i 0 < 256
tea-bytes i = get_or_lt (text "tea") i (ground arith)

tea_small : 3 + cluster_bytes volume < 4294967296
unfolding load_bpb load16
tea_small = omega arith

fat16_write_file-fat16_read_file_example :
    Returns
      (IsSaved (text "TODO    ") (text "TXT") (text "tea") 3 volume 0x8000 4096 (λ x. 0))
      (fat16_write_file (text "TODO    ") (text "TXT") (text "tea") 3 volume empty_disk)
fat16_write_file-fat16_read_file_example =
    fat16_write_file-fat16_read_file (text "TODO    ") (text "TXT") (text "tea") 3 volume
      volume-IsLayout todo-IsName tea-bytes (omega arith) tea_small 0x8000 4096 (λ x. 0)
      (omega arith) empty_disk empty_disk-IsDisk no_todo
