-- ===== src/Fat16/Write/Directory/Find.antt =====
-- src/fat16.c: the search of the root directory, from sector to sector.
use cindy_os.Base.{
  ℕ, zero, suc, ◌+◌, ◌*◌, ◌≤◌, ◌<◌, ◌≡◌, ◌≢◌, ◌⊎◌, refl, ap₂, inl, inr, arith, ◌==◌, ◌||◌, List,
  none, some, Bool-cases, add32,
}
use mathlib.Core.Path.{fun_ext}
use cindy_os.Base.Ram.{Ram}
use cindy_os.Ata.{Disk, ata_read_sector, ata_read_sector_lem}
use cindy_os.Fat16.{Volume, DirEntry}
use cindy_os.Fat16.Read.{Search, found, not_found, more, find_in_sector, find_file}
use cindy_os.Fat16.Write.{free_slot}

pub Search-cases : (r : Search) → (r ≡ more) ⊎ (r ≡ not_found) ⊎ ((t : DirEntry) × (r ≡ found t))
Search-cases more = inl refl
Search-cases not_found = inr (inl refl)
Search-cases (found t) = inr (inr (t, refl))

-- A sector without a free slot does not end the directory.
pub not_found-free_slot :
    (count e : ℕ) (buf : Ram) (name8 ext3 : List ℕ)
    → free_slot count e buf ≡ none
    → find_in_sector count e buf name8 ext3 ≢ not_found
unfolding find_in_sector free_slot
not_found-free_slot zero e buf name8 ext3 full = ground arith
not_found-free_slot (suc count) e buf name8 ext3 full =
    elim (Bool-cases (buf (e * 32) == 0 || buf (e * 32) == 0xE5)) [
      | inl here ↦ absurd (ground (arith, full, here))
      | inr used ↦
          ground (arith, used, not_found-free_slot count (e + 1) buf name8 ext3 (rw used at full))
    ]

-- The search depends on the root directory alone.
pub find_file-ext :
    (count s : ℕ) (v : Volume) (d d' : Disk) (name8 ext3 : List ℕ)
    → v.root_dir_start + s + count ≤ 268435456
    → ((k i : ℕ) → v.root_dir_start ≤ k → k < v.root_dir_start + s + count → d' k i ≡ d k i)
    → find_file count s v d' name8 ext3 ≡ find_file count s v d name8 ext3
unfolding find_file
find_file-ext zero s v d d' name8 ext3 fits same = refl
find_file-ext (suc count) s v d d' name8 ext3 fits same =
    let no_wrap : add32 v.root_dir_start s ≡ v.root_dir_start + s = omega arith in
    let here : d' (v.root_dir_start + s) ≡ d (v.root_dir_start + s) =
      fun_ext λ i. same (v.root_dir_start + s) i (omega arith) (omega arith) in
    let read : ata_read_sector (add32 v.root_dir_start s) d'
        ≡ ata_read_sector (add32 v.root_dir_start s) d =
      rw
        (
          no_wrap,
          ata_read_sector_lem (v.root_dir_start + s) (omega arith) d',
          ata_read_sector_lem (v.root_dir_start + s) (omega arith) d,
        )
        here in
    ap₂
      (λ buf later. elim (find_in_sector 16 0 buf name8 ext3) [
        | found e ↦ some e
        | not_found ↦ none
        | more ↦ later
      ])
      read
      (find_file-ext count (s + 1) v d d' name8 ext3 (omega arith)
        λ k i lo hi. same k i lo (omega arith))
