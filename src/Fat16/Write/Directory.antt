-- ===== src/Fat16/Write/Directory.antt =====
-- src/fat16.c: the root directory before and after `fat16_write_file` adds an entry.
pub mod Find
use cindy_os.Base.{
  ℕ, zero, suc, ◌+◌, ◌*◌, ◌≤◌, ◌<◌, ◌≡◌, ◌≢◌, ◌⊎◌, refl, ap₂, ◌∙◌, inl, inr, arith, ltb, ◌==◌, ◌&&◌,
  ◌||◌, if◌then◌else◌, List, none, some, Bool-cases, Option-cases, add32, minus_one,
}
use mathlib.Core.Path.{fun_ext}
use native.Mathlib.Decide.{ℕ_discrete}
use cindy_os.Base.Ram.{Ram}
use cindy_os.Ata.{
  Disk, ata_read_sector, ata_write_sector, ata_read_sector_lem, ata_write_sector_lem,
}
use cindy_os.Fat16.{Volume, DirEntry, load_dir}
use cindy_os.Fat16.Table.Laws.{IsDisk}
use cindy_os.Fat16.Read.{Search, found, not_found, more, find_in_sector, find_file}
use cindy_os.Fat16.Write.{fill_entry, free_slot, add_entry}
use cindy_os.Fat16.Write.Directory.Find.{Search-cases, not_found-free_slot}
use cindy_os.Fat16.Write.Entry.{
  IsName, find_filled, load_dir-filled, filled-bytes, past, free_slot_range,
}

-- What `add_entry` returns over `count` sectors from `s` on.
pub record Added (v : Volume) (name8 ext3 : List ℕ) (first size count s : ℕ) (d : Disk) (r : ℕ)
    (d' : Disk) : Type 0 where
  pub outcome :
      ((r ≡ minus_one)
        × ((k : ℕ) → s ≤ k → k < s + count → free_slot 16 0 (d' (v.root_dir_start + k)) ≡ none))
      ⊎ ((r ≡ 0)
          × (t : DirEntry) × (find_file count s v d' name8 ext3 ≡ some t)
          × (t.low_first_cluster ≡ first)
          × (t.file_size ≡ size))
  pub outside :
      (k i : ℕ) → (k < v.root_dir_start + s) ⊎ (v.root_dir_start + s + count ≤ k) → d' k i ≡ d k i
  pub bytes : IsDisk d → IsDisk d'

module _ {name8 ext3 : List ℕ} (n : IsName name8 ext3) (v : Volume) (first size : ℕ)
    (first_small : first < 65536) (size_small : size < 4294967296) where
  no_wrap :
      (s : ℕ) → v.root_dir_start + s < 268435456 → add32 v.root_dir_start s ≡ v.root_dir_start + s
  no_wrap s small = omega arith

  sector_read :
      (s : ℕ) (d : Disk)
      → v.root_dir_start + s < 268435456
      → ata_read_sector (add32 v.root_dir_start s) d ≡ d (v.root_dir_start + s)
  sector_read s d small = rw (no_wrap s small) (ata_read_sector_lem (v.root_dir_start + s) small d)

  -- The name is not in the first sector, nor behind it.
  absent_here :
      (count s : ℕ) (d : Disk)
      → v.root_dir_start + s < 268435456
      → find_file (suc count) s v d name8 ext3 ≡ none
      → (t : DirEntry) → find_in_sector 16 0 (d (v.root_dir_start + s)) name8 ext3 ≢ found t
  unfolding find_file
  absent_here count s d small absent t e =
      let none_some : some t ≡ none = rw (sector_read s d small, e, find_file) at absent in
      absurd (ground (arith, none_some))

  full_more :
      (count s : ℕ) (d : Disk)
      → v.root_dir_start + s < 268435456
      → find_file (suc count) s v d name8 ext3 ≡ none
      → free_slot 16 0 (d (v.root_dir_start + s)) ≡ none
      → find_in_sector 16 0 (d (v.root_dir_start + s)) name8 ext3 ≡ more
  full_more count s d small absent full =
      elim (Search-cases (find_in_sector 16 0 (d (v.root_dir_start + s)) name8 ext3)) [
        | inl e ↦ e
        | inr (inl e) ↦ absurd (not_found-free_slot 16 0 _ name8 ext3 full e)
        | inr (inr (t, e)) ↦ absurd (absent_here count s d small absent t e)
      ]

  absent_later :
      (count s : ℕ) (d : Disk)
      → v.root_dir_start + s < 268435456
      → find_in_sector 16 0 (d (v.root_dir_start + s)) name8 ext3 ≡ more
      → find_file (suc count) s v d name8 ext3 ≡ none
      → find_file count (s + 1) v d name8 ext3 ≡ none
  unfolding find_file
  absent_later count s d small here absent = rw (sector_read s d small, here, find_file) at absent

  Added-skip :
      {count s r : ℕ} {d d' : Disk}
      → v.root_dir_start + s < 268435456
      → find_in_sector 16 0 (d (v.root_dir_start + s)) name8 ext3 ≡ more
      → free_slot 16 0 (d (v.root_dir_start + s)) ≡ none
      → Added v name8 ext3 first size count (s + 1) d r d'
      → Added v name8 ext3 first size (suc count) s d r d'
  unfolding find_file
  Added-skip {count} {s} {r} {d} {d'} small here full a = record {
    outcome = elim a.outcome [
      | inl (e, all) ↦ inl (
        e,
        λ k le lt. elim (ℕ_discrete k s) [
          | yes same ↦ rw (same, same_sector) full
          | no ne ↦ all k (omega (arith, ne)) (omega arith)
        ],
      )
      | inr (z, t, f, c, l) ↦
          inr (z, t, rw (sector_read s d' small, same_sector, here, find_file) f, c, l)
    ];
    outside = λ k i o. a.outside k i (omega (arith, o));
    bytes = a.bytes;
  }
    where
      same_sector : d' (v.root_dir_start + s) ≡ d (v.root_dir_start + s)
      same_sector = fun_ext λ i. a.outside (v.root_dir_start + s) i (inl (omega arith))

  -- The entry is written.
  Added-here :
      (count s slot : ℕ) (d : Disk)
      → v.root_dir_start + s < 268435456
      → free_slot 16 0 (d (v.root_dir_start + s)) ≡ some slot
      → ((t : DirEntry) → find_in_sector 16 0 (d (v.root_dir_start + s)) name8 ext3 ≢ found t)
      → let filled = fill_entry name8 ext3 first size (slot * 32) (d (v.root_dir_start + s)) in
        Added v name8 ext3 first size
          (suc count)
          s
          d
          0
          (ata_write_sector (v.root_dir_start + s) filled d)
  unfolding find_file
  Added-here count s slot d small at absent = record {
    outcome = inr (
      refl,
      load_dir filled (slot * 32),
      rw
          (
            sector_read s d' small,
            sector,
            find_filled n first size buf slot inside 16 0 (omega arith) at absent,
            find_file,
          )
          refl,
      (load_dir-filled n first size buf slot inside first_small size_small).0,
      (load_dir-filled n first size buf slot inside first_small size_small).1,
    );
    outside = λ k i o. written k i ∙ ground (arith, o);
    bytes = λ all k i.
        let b =
          filled-bytes n first size buf slot inside first_small size_small
            (all (v.root_dir_start + s)) i in
        ground (arith, written k i, b, all k i);
  }
    where
      buf : Ram
      buf = d (v.root_dir_start + s)

      inside : slot < 16
      inside = (free_slot_range 16 0 slot buf at).1

      filled : Ram
      filled = fill_entry name8 ext3 first size (slot * 32) buf

      d' : Disk
      d' = ata_write_sector (v.root_dir_start + s) filled d

      written :
          (k i : ℕ) → d' k i ≡ (if k == v.root_dir_start + s && ltb i 512 then filled i else d k i)
      written = ata_write_sector_lem (v.root_dir_start + s) small d filled

      sector : d' (v.root_dir_start + s) ≡ filled
      sector = fun_ext λ i.
          written (v.root_dir_start + s) i ∙ ground (arith, past n first size buf slot inside i)

  pub add_entry-Added :
      (count s : ℕ) (d : Disk)
      → v.root_dir_start + s + count ≤ 268435456
      → find_file count s v d name8 ext3 ≡ none
      → let (r, d') = add_entry count s v name8 ext3 first size d in
        Added v name8 ext3 first size count s d r d'
  unfolding add_entry
  add_entry-Added zero s d fits absent = record {
    outcome = inl (refl, λ k le lt. absurd (omega arith));
    outside = λ k i o. refl;
    bytes = λ all. all;
  }
  add_entry-Added (suc count) s d fits absent =
      let small : v.root_dir_start + s < 268435456 = omega arith in
      elim (Option-cases (free_slot 16 0 (d (v.root_dir_start + s)))) [
        | inl full ↦
            let here = full_more count s d small absent full in
            rw (sector_read s d small, full, add_entry)
              (Added-skip small here full (
                add_entry-Added count (s + 1) d (omega arith)
                  (absent_later count s d small here absent)))
        | inr (slot, at) ↦
            rw
              (
                sector_read s d small,
                at,
                add_entry,
                no_wrap s small,
                ata_read_sector_lem (v.root_dir_start + s) small d,
              )
              (Added-here count s slot d small at (absent_here count s d small absent))
      ]
