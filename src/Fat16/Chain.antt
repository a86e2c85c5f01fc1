-- ===== src/Fat16/Chain.antt =====
-- src/fat16.c: a file as the bytes of the clusters of a chain, one after the other.
use cindy_os.Base.{
  ℕ, ◌+◌, ◌-◌, ◌*◌, ◌/◌, ◌%◌, ◌≤◌, ◌<◌, ◌≡◌, arith, refl, ap, ap₂, false, lt→ltb, sub32, ltb,
  if◌then◌else◌, List, [], ◌∷◌,
}
use cindy_os.Base.Ram.{load16}
use native.Mathlib.Nat.{mul-le-mul_right}
use cindy_os.Ata.{Disk}
use cindy_os.Fat16.{Volume}
use cindy_os.Fat16.Table.{cluster_end, fat16_cluster_to_lba}
use cindy_os.Fat16.Table.Laws.{IsVolume, InTable, entry}

abbrev pub cluster_bytes : Volume → ℕ
cluster_bytes v = v.g_bpb.sectors_per_clustor * 512

-- The first sector of a cluster.
abbrev pub first_sector : Volume → ℕ → ℕ
first_sector v c = v.data_start_sector + (c - 2) * v.g_bpb.sectors_per_clustor

-- Byte `j` of a region of whole sectors that begins with sector `lba`.
abbrev pub region_byte : Disk → ℕ → ℕ → ℕ
region_byte disk lba j = disk (lba + j / 512) (j % 512)

-- Byte `j` of the file.
abbrev pub file_byte : Volume → Disk → List ℕ → ℕ → ℕ
file_byte v disk [] j = 0
file_byte v disk (c ∷ cs) j =
    if ltb j (cluster_bytes v)
    then region_byte disk (first_sector v c) j
    else file_byte v disk cs (j - cluster_bytes v)

-- A cluster of the data area, all of which the driver can address.
pub record IsCluster (v : Volume) (c : ℕ) : Type 0 where
  pub low : 2 ≤ c
  pub high : c < 0xFFF8
  pub inside : InTable v c
  pub sectors : first_sector v c + v.g_bpb.sectors_per_clustor ≤ 268435456

-- The table leads from each cluster to the next, and begins with `first`.
abbrev pub IsChain : Volume → Disk → ℕ → List ℕ → Type 0
IsChain v disk first [] = Unit
IsChain v disk first (c ∷ cs) = (first ≡ c) × IsCluster v c × IsChain v disk (entry v disk c) cs

pub fat16_cluster_to_lba_lem :
    {v : Volume} {c : ℕ} → IsCluster v c → fat16_cluster_to_lba v c ≡ first_sector v c
unfolding fat16_cluster_to_lba
fat16_cluster_to_lba_lem {v} {c} h =
    let e : sub32 c 2 ≡ c - 2 = omega (arith, h.low, h.high) in rw e (omega (arith, h.sectors))

pub file_byte_here :
    (v : Volume) (disk : Disk) (c : ℕ) (cs : List ℕ) (j : ℕ)
    → j < cluster_bytes v
    → file_byte v disk (c ∷ cs) j ≡ region_byte disk (first_sector v c) j
file_byte_here v disk c cs j lt = rw (lt→ltb j (cluster_bytes v) lt) refl

pub file_byte_later :
    (v : Volume) (disk : Disk) (c : ℕ) (cs : List ℕ) (j : ℕ)
    → file_byte v disk (c ∷ cs) (cluster_bytes v + j) ≡ file_byte v disk cs j
file_byte_later v disk c cs j =
    let past : ltb (cluster_bytes v + j) (cluster_bytes v) ≡ false = ground arith in
    rw past (ap (file_byte v disk cs) (omega arith))

-- Each cluster is behind the one before; all are behind `k`.
abbrev pub IsRising : ℕ → List ℕ → Type 0
IsRising k [] = Unit
IsRising k (c ∷ cs) = (k < c) × IsRising c cs

-- The tables, the root directory and the data area lie on the disk in this order; the tables cover the
-- clusters, none of which has a number that ends a chain.
pub record IsLayout (v : Volume) : Type 0 where
  pub volume : IsVolume v
  pub root : v.fat_start_sector + 2 * v.g_bpb.sectors_per_fat ≤ v.root_dir_start
  pub data_area : v.root_dir_start + v.root_dir_sectors ≤ v.data_start_sector
  pub covered : cluster_end v ≤ 256 * v.g_bpb.sectors_per_fat
  pub some_clusters : 2 ≤ cluster_end v
  pub chain_ends : cluster_end v ≤ 0xFFF8
  pub on_disk : first_sector v (cluster_end v) ≤ 268435456

pub first_sector_le :
    (v : Volume) (c c' : ℕ)
    → 2 ≤ c
    → c < c'
    → first_sector v c + v.g_bpb.sectors_per_clustor ≤ first_sector v c'
first_sector_le v c c' two lt =
    let step : c - 2 + 1 ≤ c' - 2 = omega arith in
    grind (arith, mul-le-mul_right v.g_bpb.sectors_per_clustor step)

pub first_sector_mono : (v : Volume) (c c' : ℕ) → c ≤ c' → first_sector v c ≤ first_sector v c'
first_sector_mono v c c' le =
    let step : c - 2 ≤ c' - 2 = omega arith in
    grind (arith, mul-le-mul_right v.g_bpb.sectors_per_clustor step)

-- A write behind the tables changes no entry.
pub entry-ext :
    {v : Volume} {d d' : Disk} (c : ℕ)
    → IsVolume v
    → InTable v c
    → ((s i : ℕ) → s < v.fat_start_sector + v.g_bpb.sectors_per_fat → d' s i ≡ d s i)
    → entry v d' c ≡ entry v d c
unfolding entry load16
entry-ext {v} {d} {d'} c i inside same =
    ap₂ (λ a b. a + b * 256) (same _ _ (omega (arith, inside))) (same _ _ (omega (arith, inside)))

pub IsChain-ext :
    (v : Volume) (d d' : Disk) (first : ℕ) (cs : List ℕ)
    → ((c : ℕ) → InTable v c → entry v d' c ≡ entry v d c)
    → IsChain v d first cs
    → IsChain v d' first cs
IsChain-ext v d d' first [] same chain = tt
IsChain-ext v d d' first (c ∷ cs) same (e, here, rest) =
    (e, here, IsChain-ext v d d' (entry v d' c) cs same (rw (same c here.inside) rest))

pub IsLayout-IsCluster :
    {v : Volume} {c : ℕ} → IsLayout v → 2 ≤ c → c < cluster_end v → IsCluster v c
IsLayout-IsCluster {v} {c} l low high = record {
  low = low;
  high = omega (arith, l.chain_ends);
  inside = omega (arith, l.covered);
  sectors = omega (arith, first_sector_le v c (cluster_end v) low high, l.on_disk);
}

-- A file changes with its clusters alone.
pub file_byte-ext :
    (v : Volume) (d d' : Disk) (cs : List ℕ) (j : ℕ)
    → ((s i : ℕ) → v.data_start_sector ≤ s → d' s i ≡ d s i)
    → file_byte v d' cs j ≡ file_byte v d cs j
file_byte-ext v d d' [] j same = refl
file_byte-ext v d d' (c ∷ cs) j same =
    ap₂ (λ a b. if ltb j (cluster_bytes v) then a else b) (same _ _ (omega arith))
      (file_byte-ext v d d' cs (j - cluster_bytes v) same)
