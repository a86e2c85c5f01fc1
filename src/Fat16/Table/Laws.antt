-- ===== src/Fat16/Table/Laws.antt =====
-- src/fat16.c: the table as an array of 16-bit entries, which a write changes at one place.
use cindy_os.Base.{
  ℕ, zero, suc, ◌+◌, ◌-◌, ◌*◌, ◌/◌, ◌%◌, ◌≤◌, ◌<◌, ◌≡◌, ◌≢◌, ◌⊎◌, refl, sym, ap, ◌∙◌, inl, inr,
  arith, ltb, ◌==◌, ◌&&◌, if◌then◌else◌, add32, ok, Returns, returns, Returns-mono, false,
  Bool-cases, ne→==, lt→ltb,
}
use cindy_os.Base.Ram.{Ram, load16, store8}
use cindy_os.Ata.{Disk, ata_write_sector, ata_read_sector_lem, ata_write_sector_lem}
use native.Mathlib.Decide.{ℕ_discrete}
use mathlib.Core.Path.{fun_ext, subst}
use cindy_os.Fat16.{Volume}
use cindy_os.Fat16.Table.{
  fat_sector, fat16_read_fat_entry, fat16_write_fat_entry, find_free, cluster_end,
  fat16_find_free_cluster,
}

-- A volume with sectors of 512 bytes, whose two tables lie inside the disk.
pub record IsVolume (v : Volume) : Type 0 where
  pub sector_size : v.g_bpb.bytes_per_sector ≡ 512
  pub cluster_size : 0 < v.g_bpb.sectors_per_clustor
  pub tables : v.fat_start_sector + 2 * v.g_bpb.sectors_per_fat ≤ 268435456

-- The entry of a cluster in the first table.
unfoldable pub entry : Volume → Disk → ℕ → ℕ
entry v disk c = load16 (disk (v.fat_start_sector + c * 2 / 512)) (c * 2 % 512)

-- The disk holds bytes.
abbrev pub IsDisk : Disk → Type 0
IsDisk disk = (s i : ℕ) → disk s i < 256

abbrev pub InTable : Volume → ℕ → Type 0
InTable v c = c < 256 * v.g_bpb.sectors_per_fat

module _ {v : Volume} (i : IsVolume v) (c : ℕ) (inside : InTable v c) (disk : Disk) where
  sector_at : fat_sector v c ≡ v.fat_start_sector + c * 2 / 512
  sector_at = rw i.sector_size (omega (arith, i.tables))

  pub fat16_read_fat_entry_lem : fat16_read_fat_entry c v disk ≡ ok (entry v disk c)
  unfolding fat16_read_fat_entry entry
  fat16_read_fat_entry_lem = rw (
    sector_at,
    i.sector_size,
    ata_read_sector_lem (v.fat_start_sector + c * 2 / 512) (omega (arith, i.tables)) disk,
    lt→ltb (c * 2 % 512 + 1) 512 (omega arith),
  )

-- What a write of an entry does to the disk: the entry has the new value, the others are the same,
-- both tables have the same sector there, and no other sector changes.
pub record Written (c value : ℕ) (v : Volume) (before after : Disk) : Type 0 where
  pub at : entry v after c ≡ value
  pub rest : (c' : ℕ) → InTable v c' → c' ≢ c → entry v after c' ≡ entry v before c'
  pub mirror :
      (j : ℕ)
      → j < 512
      → after (v.fat_start_sector + c * 2 / 512 + v.g_bpb.sectors_per_fat) j
        ≡ after (v.fat_start_sector + c * 2 / 512) j
  pub outside :
      (s j : ℕ)
      → (s < v.fat_start_sector) ⊎ (v.fat_start_sector + 2 * v.g_bpb.sectors_per_fat ≤ s)
      → after s j ≡ before s j
  pub elsewhere :
      (s j : ℕ)
      → s ≢ v.fat_start_sector + c * 2 / 512
      → s ≢ v.fat_start_sector + c * 2 / 512 + v.g_bpb.sectors_per_fat
      → after s j ≡ before s j
  pub bytes : IsDisk before → IsDisk after

module _ {v : Volume} (i : IsVolume v) (c value : ℕ) (inside : InTable v c) (small : value < 65536)
    (disk : Disk) where
  first : ℕ
  first = v.fat_start_sector + c * 2 / 512

  changed : Ram
  changed = store8 (store8 (disk first) (c * 2 % 512) value) (c * 2 % 512 + 1) (value / 256)

  after_write : Disk
  after_write s j =
      if s == first + v.g_bpb.sectors_per_fat && ltb j 512
      then changed j
      else if s == first && ltb j 512
      then changed j
      else disk s j

  after_write-Written : Written c value v disk after_write
  unfolding first changed after_write entry load16 store8
  after_write-Written = record {
    at = ground (arith, inside);
    rest = λ c' p ne. ground (arith, p, ne, inside);
    mirror = λ j p. ground (arith, inside);
    outside = λ s j o. ground (arith, inside);
    elsewhere = λ s j ne ne'. ground arith;
    bytes = λ all s j. ground (arith, all first j, all s j);
  }

  bounds : (first + v.g_bpb.sectors_per_fat < 268435456) × (first < 268435456)
  unfolding first
  bounds = omega (arith, i.tables, inside)

  both_writes :
      ata_write_sector
        (add32 first v.g_bpb.sectors_per_fat)
        changed
        (ata_write_sector first changed disk)
      ≡ after_write
  unfolding after_write
  both_writes = rw second (
      fun_ext λ s. fun_ext λ j.
        ata_write_sector_lem (first + v.g_bpb.sectors_per_fat) bounds.0
          (ata_write_sector first changed disk) changed s j
        ∙ ap (λ t. if s == first + v.g_bpb.sectors_per_fat && ltb j 512 then changed j else t)
            (ata_write_sector_lem first bounds.1 disk changed s j))
    where
      second : add32 first v.g_bpb.sectors_per_fat ≡ first + v.g_bpb.sectors_per_fat
      second = omega (arith, bounds.0)

  write_runs : fat16_write_fat_entry c value v disk ≡ ok after_write
  unfolding fat16_write_fat_entry first changed
  write_runs = simp i.sector_size (
      rw
        (
          no_wrap,
          ata_read_sector_lem (v.fat_start_sector + c * 2 / 512) bounds.1 disk,
          lt→ltb (c * 2 % 512 + 1) 512 (omega arith),
        )
        (ap ok both_writes))
    where
      no_wrap : (v.fat_start_sector + c * 2 / 512) % 4294967296 ≡ v.fat_start_sector + c * 2 / 512
      no_wrap = omega (arith, i.tables, inside)

  -- On a volume with sectors of 512 bytes, `fat16_write_fat_entry` of an entry inside the tables
  -- makes it read the new value, and every other entry read what it did. The sector of the second table
  -- becomes a copy of the one in the first, whatever it held; no other sector of the disk changes.
  pub fat16_write_fat_entry_lem :
      Returns (Written c value v disk) (fat16_write_fat_entry c value v disk)
  fat16_write_fat_entry_lem =
      subst (Returns (Written c value v disk)) (sym write_runs) (returns after_write-Written)

-- What `fat16_find_free_cluster` returns: the first free cluster below `stop`, or 0 if there is none.
abbrev pub FirstFree : Volume → Disk → ℕ → ℕ → ℕ → Type 0
FirstFree v disk start stop c =
    ((c ≡ 0) × ((k : ℕ) → start ≤ k → k < stop → entry v disk k ≢ 0))
    ⊎ ((start ≤ c)
        × (c < stop)
        × (entry v disk c ≡ 0)
        × ((k : ℕ) → start ≤ k → k < c → entry v disk k ≢ 0))

module _ {v : Volume} (i : IsVolume v) (disk : Disk) where
  find_free_lem :
      (count c : ℕ)
      → c + count ≤ 256 * v.g_bpb.sectors_per_fat
      → Returns (FirstFree v disk c (c + count)) (find_free count c v disk)
  unfolding find_free
  find_free_lem zero c h = returns (inl (refl, λ k p q. absurd (omega arith)))
  find_free_lem (suc n) c h =
      rw (fat16_read_fat_entry_lem i c (omega arith) disk)
        (elim (Bool-cases (entry v disk c == 0)) [
          | inl free ↦ rw free (
              returns (inr (omega arith, omega arith, ground arith, λ k p q. absurd (omega arith))))
          | inr used ↦ rw used (
              Returns-mono (find_free_lem n (c + 1) (omega arith)) λ r f. elim f [
                | inl (z, all) ↦ inl (z, λ k p q. later used (λ p'. all k p' (omega arith)) p)
                | inr (lo, hi, free, all) ↦
                    inr (omega arith, omega arith, free, λ k p q. later used (λ p'. all k p' q) p)
              ])
        ])
    where
      later :
          {k : ℕ}
          → (entry v disk c == 0) ≡ false
          → (c + 1 ≤ k → entry v disk k ≢ 0)
          → c ≤ k
          → entry v disk k ≢ 0
      later {k} used above p = elim (ℕ_discrete k c) [
        | yes same ↦ rw same (λ e. ground arith)
        | no other ↦ above (omega arith)
      ]

  -- When the tables cover the clusters up to `cluster_end`, `fat16_find_free_cluster` returns the
  -- lowest cluster from 2 on whose entry is 0, or 0 if every one of them is in use.
  pub fat16_find_free_cluster_lem :
      2 ≤ cluster_end v
      → cluster_end v ≤ 256 * v.g_bpb.sectors_per_fat
      → Returns (FirstFree v disk 2 (cluster_end v)) (fat16_find_free_cluster v disk)
  unfolding fat16_find_free_cluster
  fat16_find_free_cluster_lem some_clusters covered =
      rw (ne→== v.g_bpb.sectors_per_clustor 0 (omega (arith, i.cluster_size))) (
        subst (λ n. Returns (FirstFree v disk 2 n) (find_free (cluster_end v - 2) 2 v disk))
          (omega arith) (find_free_lem (cluster_end v - 2) 2 (omega arith)))
