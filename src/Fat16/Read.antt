-- ===== src/Fat16/Read.antt =====
-- src/fat16.c: `fat16_read_file` and `fat16_ls`. The caller's buffer lies in `memory` at `out_buffer`;
-- the sector buffers are the function's own.
pub mod Bounds
pub mod Contents
use cindy_os.Base.{
  ℕ, zero, suc, ◌+◌, ◌-◌, ◌*◌, ltb, leb, ◌==◌, ◌&&◌, ◌||◌, if◌then◌else◌, List, [], ◌∷◌, ◌++◌,
  get_or, add32, minus_one, u32, Run, ok, fault, out_of_fuel, ◌>>=◌, Option, none, some, text, Bool,
  true, false,
}
use cindy_os.Base.Ram.{Ram, store8}
use cindy_os.Ata.{Disk, ata_read_sector}
use cindy_os.CString.{strncmp, printed}
use cindy_os.Fat16.{Bpb, DirEntry, Volume, load_dir, bytes_at}
use cindy_os.Fat16.Table.{fat16_cluster_to_lba, fat16_read_fat_entry}
use cindy_os.Screen.Numbers.{int_text}

-- A sector's buffer with an array of the caller behind it, as two objects in one memory.
abbrev pub beside : Ram → List ℕ → Ram
beside buf name x = if ltb x 512 then buf x else get_or name (x - 512) 0

-- What the search finds in one sector: the entry, the end of the directory, or neither.
pub data Search : Type 0 where
  found : DirEntry → Search
  not_found more : Search

-- The inner loop of the search, over `count` entries from `e` on.
unfoldable pub find_in_sector : ℕ → ℕ → Ram → List ℕ → List ℕ → Search
find_in_sector zero e buf name8 ext3 = more
find_in_sector (suc count) e buf name8 ext3 =
    let later = find_in_sector count (e + 1) buf name8 ext3 in
    if buf (e * 32) == 0
    then not_found
    else if buf (e * 32) == 0xE5
    then later
    else if buf (e * 32 + 11) == 0x0F
    then later
    else if strncmp (beside buf name8) (e * 32) 512 8 == 0
        && strncmp (beside buf ext3) (e * 32 + 8) 512 3 == 0
    then found (load_dir buf (e * 32))
    else later

-- The outer loop, over `count` sectors from `s` on.
unfoldable pub find_file : ℕ → ℕ → Volume → Disk → List ℕ → List ℕ → Option DirEntry
find_file zero s v disk name8 ext3 = none
find_file (suc count) s v disk name8 ext3 =
    elim (find_in_sector 16 0 (ata_read_sector (add32 v.root_dir_start s) disk) name8 ext3) [
      | found e ↦ some e
      | not_found ↦ none
      | more ↦ find_file count (s + 1) v disk name8 ext3
    ]

-- `for (i = 0; i < to_copy; i++) out_buffer[out_pos + i] = tmp[i];`, from `i` on.
unfoldable pub copy_out : ℕ → ℕ → Ram → ℕ → Ram → Ram
copy_out zero i tmp dst memory = memory
copy_out (suc count) i tmp dst memory =
    copy_out count (i + 1) tmp dst (store8 memory (dst + i) (tmp i))

-- The variables of the copying loops.
pub record Copying : Type 0 where
  pub memory : Ram
  pub out_pos : ℕ
  pub bytes_left : ℕ

-- One round of the loop over the sectors of a cluster.
unfoldable pub copy_sector : Ram → ℕ → Copying → Copying
copy_sector tmp out_buffer c =
    let to_copy = if ltb c.bytes_left 512 then c.bytes_left else 512 in
    record {
      memory = copy_out to_copy 0 tmp (out_buffer + c.out_pos) c.memory;
      out_pos = c.out_pos + to_copy;
      bytes_left = c.bytes_left - to_copy;
    }

-- `count` sectors of a cluster from sector `sec` on.
unfoldable pub copy_cluster : ℕ → ℕ → ℕ → ℕ → Disk → Copying → Copying
copy_cluster zero sec lba out_buffer disk c = c
copy_cluster (suc count) sec lba out_buffer disk c =
    let copied = copy_sector (ata_read_sector (add32 lba sec) disk) out_buffer c in
    let rest = copy_cluster count (sec + 1) lba out_buffer disk copied in
    if ltb 0 c.bytes_left then rest else c

-- `while (cluster >= 0x0002 && cluster < 0xFFF8 && bytes_left > 0)`
unfoldable pub copy_chain : ℕ → ℕ → ℕ → Volume → Disk → Copying → Run Copying
copy_chain zero cluster out_buffer v disk c = out_of_fuel
copy_chain (suc fuel) cluster out_buffer v disk c =
    let lba = fat16_cluster_to_lba v cluster in
    let copied = copy_cluster v.g_bpb.sectors_per_clustor 0 lba out_buffer disk c in
    let round : Run Copying = fat16_read_fat_entry cluster v disk >>= λ next.
    copy_chain fuel next out_buffer v disk copied in
    if leb 2 cluster && (ltb cluster 0xFFF8 && ltb 0 c.bytes_left) then round else ok c

-- The result, an `int`, and the memory. `max_size + 1` rounds of the loop are enough.
unfoldable pub fat16_read_file : List ℕ → List ℕ → ℕ → ℕ → Volume → Disk → Ram → Run (ℕ × Ram)
fat16_read_file name8 ext3 out_buffer max_size v disk memory =
    elim (find_file v.root_dir_sectors 0 v disk name8 ext3) [
      | none ↦ ok (minus_one, memory)
      | some target ↦ (do
        let bytes_left = if ltb max_size target.file_size then max_size else target.file_size
        c ←
            copy_chain (max_size + 1) target.low_first_cluster out_buffer v disk
              (record { memory = memory; out_pos = 0; bytes_left = bytes_left })
        ok (target.file_size, c.memory))
    ]

-- What `fat16_ls` prints of an entry.
unfoldable pub listed : Ram → ℕ → Run (List ℕ)
listed buf e = do
  size ← int_text (load_dir buf (e * 32)).file_size
  ok (
      printed (bytes_at 8 (e * 32) buf)
      ++ (text "."
          ++ (printed (bytes_at 3 (e * 32 + 8) buf) ++ (text "  (" ++ (size ++ text " bytes)\n")))))

-- What the listing has printed so far, and whether it has met a file or the directory's end.
pub record Listing : Type 0 where
  pub output : List ℕ
  pub found_any : Bool
  pub done : Bool

-- The inner loop of `fat16_ls`, over `count` entries from `e` on.
unfoldable pub ls_sector : ℕ → ℕ → Ram → Listing → Run Listing
ls_sector zero e buf l = ok l
ls_sector (suc count) e buf l =
    let later = ls_sector count (e + 1) buf l in
    let shown : Run Listing = listed buf e >>= λ line.
    ls_sector count (e + 1) buf (record l { output = l.output ++ line; found_any = true }) in
    if buf (e * 32) == 0
    then ok (record l { done = true })
    else if buf (e * 32) == 0xE5 || buf (e * 32 + 11) == 0x0F
    then later
    else shown

-- The outer loop of `fat16_ls`, over `count` sectors from `s` on.
unfoldable pub ls_sectors : ℕ → ℕ → Volume → Disk → Listing → Run Listing
ls_sectors zero s v disk l = ok l
ls_sectors (suc count) s v disk l = do
  l' ← ls_sector 16 0 (ata_read_sector (add32 v.root_dir_start s) disk) l
  let later = ls_sectors count (s + 1) v disk l'
  if l'.done then ok l' else later

-- The text that `fat16_ls` hands to `print`, in order.
unfoldable pub fat16_ls : Volume → Disk → Run (List ℕ)
fat16_ls v disk = do
  l ←
      ls_sectors v.root_dir_sectors 0 v disk
        (record { output = text "FAT16 Files:\n------------\n"; found_any = false; done = false })
  ok (if l.found_any then l.output else l.output ++ text "(no files)\n")
