-- ===== src/Fat16/RoundTrip.antt =====
-- src/fat16.c: what `fat16_read_file` reads of a file that `fat16_write_file` has written.
pub mod File
use cindy_os.Base.{
  ℕ, suc, ◌+◌, ◌-◌, ◌*◌, ◌/◌, ◌≤◌, ◌<◌, ◌≡◌, ◌≢◌, ◌⊎◌, refl, sym, ap, ◌∙◌, inl, inr, arith, ◌==◌,
  if◌then◌else◌, List, [], ◌∷◌, length, get_or, Option, none, some, ok, fault, ◌>>=◌, Returns,
  returns, Returns-bind, Returns-mono, ne→==, add32, sub32, minus_one, subst, subst₂, Run,
}
use native.Mathlib.Nat.{lt-mul-div-succ}
use cindy_os.Base.Ram.{Ram}
use cindy_os.Ata.{Disk}
use cindy_os.Fat16.{Volume}
use cindy_os.Fat16.Table.Laws.{IsDisk, InTable, entry}
use cindy_os.Fat16.Chain.{
  cluster_bytes, IsChain, IsRising, IsLayout, IsLayout-IsCluster, entry-ext, IsChain-ext,
  file_byte-ext,
}
use cindy_os.Fat16.Read.{find_file, fat16_read_file}
use cindy_os.Fat16.Read.Contents.{fat16_read_file_contents}
use cindy_os.Fat16.Write.{
  Chain, allocate_chain, write_chain, free_slot, add_entry, fat16_write_file,
}
use cindy_os.Fat16.Write.Fresh.{
  Linked, WasFree, oldest, IsFresh, DiskFull, ChainResult, allocate_chain_lem,
}
use cindy_os.Fat16.Write.Contents.{Stored, write_chain-Stored}
use cindy_os.Fat16.Write.Entry.{IsName}
use cindy_os.Fat16.RoundTrip.File.{forward, IsFile, IsFresh-IsFile, first_small, needed}
use cindy_os.Fat16.Write.Directory.{Added, add_entry-Added}
use cindy_os.Fat16.Write.Directory.Find.{find_file-ext}

abbrev pub DirectoryFull : Volume → Disk → Type 0
DirectoryFull v d =
    (k : ℕ) → k < v.root_dir_sectors → free_slot 16 0 (d (v.root_dir_start + k)) ≡ none

module _ (name8 ext3 content : List ℕ) (size : ℕ) (v : Volume) (out_buffer max_size : ℕ)
    (memory : Ram) where
  -- What reading gives.
  abbrev pub ReadsBack : Disk → Type 0
  ReadsBack d =
      Returns
        (λ (got, after).
          (got ≡ size) × ((j : ℕ) → j < size → after (out_buffer + j) ≡ get_or content j 0))
        (fat16_read_file name8 ext3 out_buffer max_size v d memory)

  abbrev pub IsSaved : ℕ × Disk → Type 0
  IsSaved (r, d) = ((r ≡ minus_one) × (DiskFull v d ⊎ DirectoryFull v d)) ⊎ ((r ≡ 0) × ReadsBack d)

module _ (name8 ext3 content : List ℕ) (size : ℕ) (v : Volume) (l : IsLayout v)
    (n : IsName name8 ext3) (content_bytes : (i : ℕ) → get_or content i 0 < 256)
    (some_bytes : 0 < size) (small : size + cluster_bytes v < 4294967296) (out_buffer max_size : ℕ)
    (memory : Ram) (room : size ≤ max_size) where
  abbrev Saved : ℕ × Disk → Type 0
  Saved = IsSaved name8 ext3 content size v out_buffer max_size memory

  -- After the loops over the chain and the directory.
  Added-Saved :
      {first count r : ℕ} {cs : List ℕ} {before d d' d'' : Disk}
      → IsDisk before
      → (IsDisk before → IsDisk d)
      → IsFile l before d first count cs
      → size ≤ count * cluster_bytes v
      → Stored content size l 1 cs 0 d d'
      → Added v name8 ext3 first size v.root_dir_sectors 0 d' r d''
      → Saved (r, d'')
  Added-Saved {first} {count} {r} {cs} {before} {d} {d'} {d''} all kept file fits stored added =
      elim added.outcome [
        | inl (e, full) ↦ inl (e, inr λ k lt. full k (omega arith) (omega arith))
        | inr (e, t, found, low, length_t) ↦ inr (
          e,
          Returns-mono
              (fat16_read_file_contents name8 ext3 out_buffer max_size v d'' memory t cs l.volume
                (added.bytes (stored.disk_bytes content_bytes (kept all))) found
                (subst (λ k. IsChain v d'' k cs) (sym low)
                  (IsChain-ext v d d'' first cs entries file.chain))
                (rw file.size (omega (arith, length_t))))
              λ (got, after) (same, bytes, outside). (
                same ∙ length_t,
                λ j lt.
                    bytes j (omega arith) (omega (arith, length_t))
                    ∙ (file_byte-ext v d' d'' cs j
                          (λ s i le. added.outside s i (inr (omega (arith, l.data_area))))
                        ∙ stored.bytes j (omega arith)
                        ∙ ap (λ i. get_or content i 0) (omega arith)),
              ),
        )
      ]
    where
      entries : (c : ℕ) → InTable v c → entry v d'' c ≡ entry v d c
      entries c inside = entry-ext c l.volume inside λ s i lt.
          added.outside s i (inl (omega (arith, l.root)))
          ∙ stored.outside s i (omega (arith, l.root, l.data_area))

  -- The code behind the tests for an empty file, with the number of clusters as an argument.
  abbrev save : ℕ → Disk → Run (ℕ × Disk)
  save clusters disk = do
    (chain, d) ←
        allocate_chain clusters 0 v (record { disk = disk; first_cluster = 0; prev_cluster = 0 })
    elim chain [
      | none ↦ ok (minus_one, d)
      | some c ↦ (do
        d' ← write_chain (size + 1) c.first_cluster v content size c.disk 0
        ok (add_entry v.root_dir_sectors 0 v name8 ext3 c.first_cluster size d'))
    ]

  fits : v.root_dir_start + 0 + v.root_dir_sectors ≤ 268435456
  fits = omega (arith, l.data_area, l.on_disk)

  -- The root directory is as it was.
  unchanged :
      {last : ℕ} {rs cs : List ℕ} {disk d d' : Disk}
      → IsFresh v disk d last rs
      → Stored content size l 1 cs 0 d d'
      → (k i : ℕ) → v.root_dir_start ≤ k
      → k < v.root_dir_start + 0 + v.root_dir_sectors
      → d' k i ≡ disk k i
  unchanged fresh stored k i lo hi =
      stored.outside k i (omega (arith, l.data_area))
      ∙ fresh.outside k i (inr (omega (arith, l.root)))

  save-Saved :
      (count : ℕ) (disk : Disk)
      → size ≤ suc count * cluster_bytes v
      → IsDisk disk
      → find_file v.root_dir_sectors 0 v disk name8 ext3 ≡ none
      → Returns Saved (save (suc count) disk)
  save-Saved count disk enough all absent =
      Returns-bind (allocate_chain_lem l.volume l.covered disk count l.some_clusters)
        λ (chain, d) result. written chain d result
    where
      written :
          (chain : Option Chain) (d : Disk)
          → ChainResult v disk count (chain, d)
          → Returns Saved (elim chain [
            | none ↦ ok (minus_one, d)
            | some c ↦ (do
              d' ← write_chain (size + 1) c.first_cluster v content size c.disk 0
              ok (add_entry v.root_dir_sectors 0 v name8 ext3 c.first_cluster size d'))
          ])
      written none d full = returns (inl (refl, inl full))
      written (some c) d (same, (rs, len, first, fresh)) =
          let file = IsFresh-IsFile l disk d len first fresh in
          Returns-bind
            (rw same (
              write_chain-Stored content size l (size + 1) c.first_cluster 0 1
                (forward rs (c.prev_cluster ∷ [])) d file.rising file.chain (omega arith)
                (rw file.size (omega arith)) (omega arith)))
            λ d' stored. returns (
              Added-Saved all fresh.bytes file enough stored (
                add_entry-Added n v c.first_cluster size
                  (first_small v d _ file.chain (rw file.size (omega arith))) (omega arith)
                  v.root_dir_sectors 0 d' fits
                  (find_file-ext v.root_dir_sectors 0 v disk d' name8 ext3 fits
                      (unchanged fresh stored)
                    ∙ absent)))

  -- The tests, with the bytes of a cluster as an argument.
  abbrev guarded : ℕ → Disk → Run (ℕ × Disk)
  guarded bytes disk =
      let clusters = sub32 (add32 size bytes) 1 / bytes in
      if bytes == 0
      then fault
      else if clusters == 0
      then ok (minus_one, disk)
      else save clusters disk

  -- On a volume whose tables, directory and clusters lie on the disk in this order, for a file of one
  -- byte or more and of less than 4 GiB with a cluster more, whose name is of bytes, marks no free
  -- slot and is not in the root directory yet: `fat16_write_file` returns. Either it answers -1, and
  -- then no cluster or no slot of the directory is free any more; or it answers 0, and then
  -- `fat16_read_file` of that name, into a buffer that is large enough, returns the file's size and
  -- puts the content into the buffer.
  pub fat16_write_file-fat16_read_file :
      (disk : Disk)
      → IsDisk disk
      → find_file v.root_dir_sectors 0 v disk name8 ext3 ≡ none
      → Returns
          (IsSaved name8 ext3 content size v out_buffer max_size memory)
          (fat16_write_file name8 ext3 content size v disk)
  unfolding fat16_write_file
  fat16_write_file-fat16_read_file disk all absent =
      let pos : 0 < cluster_bytes v = omega (arith, l.volume.cluster_size) in
      let clusters : ℕ = sub32 (add32 size (cluster_bytes v)) 1 / cluster_bytes v in
      let (some_clusters, enough) = needed size (cluster_bytes v) some_bytes pos small in
      let saved : Returns Saved (save clusters disk) =
        subst (λ k. Returns Saved (save k disk)) (omega (arith, some_clusters))
          (save-Saved (clusters - 1) disk
            (subst (λ k. size ≤ k * cluster_bytes v) (omega (arith, some_clusters)) enough) all
            absent) in
      let runs : guarded (cluster_bytes v) disk ≡ save clusters disk =
        rw (ne→== (cluster_bytes v) 0 (omega arith), ne→== clusters 0 some_clusters) refl in
      subst (λ n. Returns Saved (guarded (v.g_bpb.sectors_per_clustor * n) disk))
        (sym l.volume.sector_size) (subst (Returns Saved) (sym runs) saved)
