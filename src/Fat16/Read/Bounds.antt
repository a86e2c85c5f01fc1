-- ===== src/Fat16/Read/Bounds.antt =====
-- src/fat16.c: whatever the disk holds, `fat16_read_file` ends and stays inside the caller's buffer.
use cindy_os.Base.{
  ℕ, zero, suc, ◌+◌, ◌≤◌, ◌<◌, ◌≡◌, ◌⊎◌, refl, ◌∙◌, inl, inr, arith, ltb, leb, ◌&&◌, if◌then◌else◌,
  List, true, ok, Returns, returns, Returns-bind, Returns-mono, Bool-cases, Option-cases, lt→ltb,
  ne→==,
}
use cindy_os.Base.Ram.{Ram, store8, load16}
use cindy_os.Ata.{Disk, ata_read_sector}
use cindy_os.Fat16.{Volume}
use cindy_os.Fat16.Table.{fat16_cluster_to_lba, fat16_read_fat_entry, entry_offset, fat_sector}
use cindy_os.Fat16.Read.{
  Copying, copy_out, copy_sector, copy_cluster, copy_chain, find_file, fat16_read_file,
}

pub copy_out_outside :
    (count i : ℕ) (tmp : Ram) (dst : ℕ) (memory : Ram) (x : ℕ)
    → (x < dst + i) ⊎ (dst + i + count ≤ x)
    → copy_out count i tmp dst memory x ≡ memory x
unfolding copy_out store8
copy_out_outside zero i tmp dst memory x o = refl
copy_out_outside (suc n) i tmp dst memory x o =
    copy_out_outside n (i + 1) tmp dst (store8 memory (dst + i) (tmp i)) x (omega arith)
    ∙ ground arith

-- A step of the copying loops: it stays inside the part of the buffer that is still to be filled.
pub record Copied (out_buffer : ℕ) (c c' : Copying) : Type 0 where
  pub total : c'.out_pos + c'.bytes_left ≡ c.out_pos + c.bytes_left
  pub less : c'.bytes_left ≤ c.bytes_left
  pub outside :
      (x : ℕ)
      → (x < out_buffer + c.out_pos) ⊎ (out_buffer + c.out_pos + c.bytes_left ≤ x)
      → c'.memory x ≡ c.memory x

pub Copied-refl : (out_buffer : ℕ) (c : Copying) → Copied out_buffer c c
Copied-refl out_buffer c = record { total = refl; less = omega arith; outside = λ x o. refl }

pub Copied-trans :
    {out_buffer : ℕ} {c d e : Copying}
    → Copied out_buffer c d
    → Copied out_buffer d e
    → Copied out_buffer c e
Copied-trans p q = record {
  total = q.total ∙ p.total;
  less = omega (arith, p.less, q.less);
  outside = λ x o. q.outside x (omega (arith, p.total, p.less)) ∙ p.outside x o;
}

-- With sectors of 512 bytes no entry lies past the buffer.
read_fat_entry_total :
    (k : ℕ) (v : Volume) (disk : Disk)
    → v.g_bpb.bytes_per_sector ≡ 512
    → fat16_read_fat_entry k v disk
      ≡ ok (load16 (ata_read_sector (fat_sector v k) disk) (entry_offset v k))
unfolding fat16_read_fat_entry
read_fat_entry_total k v disk e =
    rw (ne→== v.g_bpb.bytes_per_sector 0 (omega arith), lt→ltb (entry_offset v k + 1) 512 inside)
  where
    inside : entry_offset v k + 1 < 512
    inside = rw e (omega arith)

module _ (out_buffer : ℕ) where
  pub copy_sector_lem :
      (tmp : Ram) (c : Copying)
      → Copied out_buffer c (copy_sector tmp out_buffer c)
        × (0 < c.bytes_left → (copy_sector tmp out_buffer c).bytes_left < c.bytes_left)
  unfolding copy_sector
  copy_sector_lem tmp c = (
    record {
      total = ground arith;
      less = ground arith;
      outside = λ x o.
          copy_out_outside (if ltb c.bytes_left 512 then c.bytes_left else 512) 0 tmp
            (out_buffer + c.out_pos) c.memory x (ground arith);
    },
    λ some_left. ground arith,
  )

  pub copy_cluster_lem :
      (count sec lba : ℕ) (disk : Disk) (c : Copying)
      → Copied out_buffer c (copy_cluster count sec lba out_buffer disk c)
        × (0 < count
            → 0 < c.bytes_left
            → (copy_cluster count sec lba out_buffer disk c).bytes_left < c.bytes_left)
  unfolding copy_cluster
  copy_cluster_lem zero sec lba disk c = (Copied-refl out_buffer c, λ p q. absurd (omega arith))
  copy_cluster_lem (suc n) sec lba disk c = elim (Bool-cases (ltb 0 c.bytes_left)) [
    | inr none_left ↦ rw none_left (Copied-refl out_buffer c, λ p q. absurd (ground arith))
    | inl some_left ↦ rw some_left (
        let (one, progress) = copy_sector_lem _ c in
        let (rest, more) = copy_cluster_lem n (sec + 1) lba disk _ in
        (Copied-trans one rest, λ p q. omega (arith, progress q, rest.less)))
  ]

  -- With a sector per cluster at least, every round fills some of what is left.
  pub copy_chain_lem :
      (fuel cluster : ℕ) (v : Volume) (disk : Disk) (c : Copying)
      → v.g_bpb.bytes_per_sector ≡ 512
      → 0 < v.g_bpb.sectors_per_clustor
      → c.bytes_left < fuel
      → Returns (Copied out_buffer c) (copy_chain fuel cluster out_buffer v disk c)
  unfolding copy_chain
  copy_chain_lem zero cluster v disk c size clusters enough = absurd (omega arith)
  copy_chain_lem (suc fuel) cluster v disk c size clusters enough =
      elim (Bool-cases (leb 2 cluster && (ltb cluster 0xFFF8 && ltb 0 c.bytes_left))) [
        | inr stop ↦ rw stop (returns (Copied-refl out_buffer c))
        | inl go ↦
            rw (go, read_fat_entry_total cluster v disk size)
              (let (one, progress) =
                  copy_cluster_lem v.g_bpb.sectors_per_clustor 0 (fat16_cluster_to_lba v cluster)
                    disk c in
                Returns-mono
                  (copy_chain_lem fuel _ v disk _ size clusters
                    (omega (arith, progress clusters (some_left go))))
                  λ d rest. Copied-trans one rest)
      ]
    where
      some_left :
          (leb 2 cluster && (ltb cluster 0xFFF8 && ltb 0 c.bytes_left)) ≡ true → 0 < c.bytes_left
      some_left go = ground arith

-- For any contents of the disk and any name: on a volume with sectors of 512 bytes and at least one
-- sector in a cluster, `fat16_read_file` returns, and no byte outside the `max_size` bytes of the
-- caller's buffer is changed.
pub fat16_read_file_bounds :
    (name8 ext3 : List ℕ) (out_buffer max_size : ℕ) (v : Volume) (disk : Disk) (memory : Ram)
    → v.g_bpb.bytes_per_sector ≡ 512
    → 0 < v.g_bpb.sectors_per_clustor
    → Returns
        (λ (r, after).
          (x : ℕ) → (x < out_buffer) ⊎ (out_buffer + max_size ≤ x) → after x ≡ memory x)
        (fat16_read_file name8 ext3 out_buffer max_size v disk memory)
unfolding fat16_read_file
fat16_read_file_bounds name8 ext3 out_buffer max_size v disk memory size clusters =
    elim (Option-cases (find_file v.root_dir_sectors 0 v disk name8 ext3)) [
      | inl e ↦ rw (e, fat16_read_file) (returns λ x o. refl)
      | inr (target, e) ↦
          rw (e, fat16_read_file)
            (Returns-bind
              (copy_chain_lem out_buffer (max_size + 1) target.low_first_cluster v disk _ size
                clusters (ground arith))
              λ c copied. returns λ x o. copied.outside x (ground arith))
    ]
