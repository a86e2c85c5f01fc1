-- ===== src/Fat16/Write/Entry.antt =====
-- src/fat16.c: the directory entry that `fat16_write_file` fills is the one that `fat16_read_file` finds.
use cindy_os.Base.{
  ℕ, zero, suc, ◌+◌, ◌-◌, ◌*◌, ◌≤◌, ◌<◌, ◌≡◌, ◌≢◌, refl, sym, ◌∙◌, inl, inr, arith, ◌==◌, ◌&&◌,
  ◌||◌, List, get_or, some, false, Bool-cases, ne→==, subst,
}
use cindy_os.Base.Ram.{Ram, load16, load32}
use cindy_os.CString.{strncmp}
use cindy_os.CString.Laws.{strncmp_same, strncmp_ext}
use cindy_os.Fat16.{DirEntry, load_dir}
use cindy_os.Fat16.Read.{found, beside, find_in_sector}
use cindy_os.Fat16.Write.{fill_entry, free_slot}

-- What a name has to be for an entry with it to count as a file.
pub record IsName (name8 ext3 : List ℕ) : Type 0 where
  pub some_name : get_or name8 0 0 ≢ 0
  pub not_deleted : get_or name8 0 0 ≢ 0xE5
  pub bytes : (i : ℕ) → get_or name8 i 0 < 256
  pub ext_bytes : (i : ℕ) → get_or ext3 i 0 < 256

pub free_slot_range :
    (count e slot : ℕ) (buf : Ram)
    → free_slot count e buf ≡ some slot
    → (e ≤ slot) × (slot < e + count)
unfolding free_slot
free_slot_range zero e slot buf at = ground (arith, at)
free_slot_range (suc count) e slot buf at =
    elim (Bool-cases (buf (e * 32) == 0 || buf (e * 32) == 0xE5)) [
      | inl here ↦ ground (arith, at, here)
      | inr later ↦
          let (low, high) = free_slot_range count (e + 1) slot buf (rw later at at) in
          (omega arith, omega arith)
    ]

module _ {name8 ext3 : List ℕ} (n : IsName name8 ext3) (first size : ℕ) (buf : Ram) where
  module _ (slot : ℕ) (inside : slot < 16) where
    abbrev filled : Ram
    filled = fill_entry name8 ext3 first size (slot * 32) buf

    same_name : strncmp (beside filled name8) (slot * 32) 512 8 ≡ 0
    unfolding fill_entry
    same_name = strncmp_same 8 _ _ _ λ i lt.
        let left : beside filled name8 (slot * 32 + i) ≡ get_or name8 i 0 = ground arith in
        let right : beside filled name8 (512 + i) ≡ get_or name8 i 0 = ground arith in
        (left ∙ sym right, omega (arith, left, n.bytes i))

    same_ext : strncmp (beside filled ext3) (slot * 32 + 8) 512 3 ≡ 0
    unfolding fill_entry
    same_ext = strncmp_same 3 _ _ _ λ i lt.
        let left : beside filled ext3 (slot * 32 + 8 + i) ≡ get_or ext3 i 0 = ground arith in
        let right : beside filled ext3 (512 + i) ≡ get_or ext3 i 0 = ground arith in
        (left ∙ sym right, omega (arith, left, n.ext_bytes i))

    start_lem : filled (slot * 32) ≡ get_or name8 0 0
    unfolding fill_entry
    start_lem = ground arith

    attributes_lem : filled (slot * 32 + 11) ≡ 0x20
    unfolding fill_entry
    attributes_lem = ground arith

    -- The test of the search on an entry before the slot is as it was.
    kept : (x : ℕ) → x < slot * 32 → filled x ≡ buf x
    unfolding fill_entry
    kept x lt = ground arith

    kept_test :
        (name : List ℕ) (a k : ℕ)
        → a + k ≤ slot * 32
        → strncmp (beside filled name) a 512 k ≡ strncmp (beside buf name) a 512 k
    kept_test name a k le = strncmp_ext k _ _ a 512 λ i lt.
        let e : filled (a + i) ≡ buf (a + i) = kept (a + i) (omega arith) in
        (ground (arith, e), ground arith)

    find_at :
        (count : ℕ)
        → find_in_sector (suc count) slot filled name8 ext3 ≡ found (load_dir filled (slot * 32))
    unfolding find_in_sector
    find_at count =
        let start : filled (slot * 32) ≡ get_or name8 0 0 = start_lem in
        let attributes : filled (slot * 32 + 11) ≡ 0x20 = attributes_lem in
        rw
          (
            start,
            attributes,
            ne→== _ 0 n.some_name,
            ne→== _ 0xE5 n.not_deleted,
            same_name,
            same_ext,
          )
          refl

    -- The search comes to the slot, when it has not found the name before.
    pub find_filled :
        (count e : ℕ)
        → e + count ≤ 16
        → free_slot count e buf ≡ some slot
        → ((t : DirEntry) → find_in_sector count e buf name8 ext3 ≢ found t)
        → find_in_sector count e filled name8 ext3 ≡ found (load_dir filled (slot * 32))
    unfolding find_in_sector free_slot
    find_filled zero e le at none_found = ground (arith, at)
    find_filled (suc count) e le at none_found =
        elim (Bool-cases (buf (e * 32) == 0 || buf (e * 32) == 0xE5)) [
          | inl here ↦
              let same : slot ≡ e = ground (arith, at, here) in
              subst
                (λ k.
                  find_in_sector (suc count) k filled name8 ext3
                  ≡ found (load_dir filled (slot * 32)))
                same (find_at count)
          | inr used ↦
              let rest : free_slot count (e + 1) buf ≡ some slot = rw used at at in
              let before = (free_slot_range count (e + 1) slot buf rest).0 in
              let start : filled (e * 32) ≡ buf (e * 32) = kept _ (omega (arith, before)) in
              let attributes : filled (e * 32 + 11) ≡ buf (e * 32 + 11) =
                kept _ (omega (arith, before)) in
              let first_used : (buf (e * 32) == 0) ≡ false = ground (arith, used) in
              let first_kept : (buf (e * 32) == 0xE5) ≡ false = ground (arith, used) in
              let name = kept_test name8 (e * 32) 8 (omega (arith, before)) in
              let ext = kept_test ext3 (e * 32 + 8) 3 (omega (arith, before)) in
              let go : ((t : DirEntry) → find_in_sector count (e + 1) buf name8 ext3 ≢ found t)
                  → find_in_sector count (e + 1) filled name8 ext3
                    ≡ found (load_dir filled (slot * 32)) =
                find_filled count (e + 1) (omega arith) rest in
              elim (Bool-cases (buf (e * 32 + 11) == 0x0F)) [
                | inl long_name ↦
                    rw (start, attributes, first_used, first_kept, long_name)
                      (go λ t. rw (first_used, first_kept, long_name) at none_found t)
                | inr short_name ↦
                    elim (Bool-cases (
                      strncmp (beside buf name8) (e * 32) 512 8 == 0
                      && strncmp (beside buf ext3) (e * 32 + 8) 512 3 == 0)) [
                        | inl same ↦ absurd (
                            none_found (load_dir buf (e * 32))
                              (rw (first_used, first_kept, short_name, same) refl))
                        | inr other ↦
                            rw
                              (
                                start, attributes, first_used, first_kept, short_name, name, ext,
                                other,
                              )
                              (go
                                λ t. rw (first_used, first_kept, short_name, other) at none_found t)
                      ]
              ]
        ]

    -- What a reader of the entry gets.
    pub load_dir-filled :
        first < 65536
        → size < 4294967296
        → ((load_dir filled (slot * 32)).low_first_cluster ≡ first)
          × ((load_dir filled (slot * 32)).file_size ≡ size)
    unfolding load_dir load16 load32 fill_entry
    load_dir-filled small small' = (ground arith, ground arith)

    pub filled-bytes :
        first < 65536 → size < 4294967296 → ((i : ℕ) → buf i < 256) → (i : ℕ) → filled i < 256
    unfolding fill_entry
    filled-bytes small small' all i =
        ground (arith, all i, n.bytes (i - slot * 32), n.ext_bytes (i - slot * 32 - 8))

    pub past : (x : ℕ) → 512 ≤ x → filled x ≡ buf x
    unfolding fill_entry
    past x le = ground arith
