-- ===== src/Fat16/Read/Contents.antt =====
-- src/fat16.c: `fat16_read_file` copies the bytes of the file's chain of clusters.
use cindy_os.Base.{
  ℕ, zero, suc, ◌+◌, ◌-◌, ◌*◌, ◌≤◌, ◌<◌, ◌≡◌, ◌⊎◌, refl, sym, ap, ap₂, ◌∙◌, inl, inr, arith, ltb,
  leb, ◌&&◌, if◌then◌else◌, List, [], ◌∷◌, length, true, false, some, Returns, returns,
  Returns-bind, Returns-mono, Bool-cases, add32, min, lt_or_le,
}
use cindy_os.Base.Ram.{Ram, store8}
use cindy_os.Ata.{Disk, ata_read_sector, ata_read_sector_lem}
use cindy_os.Fat16.{Volume, DirEntry}
use cindy_os.Fat16.Table.Laws.{IsVolume, entry, fat16_read_fat_entry_lem}
use cindy_os.Fat16.Chain.{
  cluster_bytes, first_sector, region_byte, file_byte, IsChain, file_byte_here, file_byte_later,
  fat16_cluster_to_lba_lem,
}
use cindy_os.Fat16.Read.{
  Copying, copy_out, copy_sector, copy_cluster, copy_chain, find_file, fat16_read_file,
}
use cindy_os.Fat16.Read.Bounds.{
  Copied, Copied-refl, Copied-trans, copy_out_outside, copy_sector_lem, copy_cluster_lem,
}

copy_out_inside :
    (count i : ℕ) (tmp : Ram) (dst : ℕ) (memory : Ram) (j : ℕ)
    → i ≤ j
    → j < i + count
    → tmp j < 256
    → copy_out count i tmp dst memory (dst + j) ≡ tmp j
unfolding copy_out store8
copy_out_inside zero i tmp dst memory j le lt small = absurd (omega arith)
copy_out_inside (suc n) i tmp dst memory j le lt small = elim (lt_or_le i j) [
  | inl above ↦ copy_out_inside n (i + 1) tmp dst _ j (omega arith) (omega arith) small
  | inr below ↦
      let e : j ≡ i = omega arith in
      copy_out_outside n (i + 1) tmp dst _ (dst + j) (inl (omega arith)) ∙ rw e (ground arith)
]

-- The next `n` bytes, as far as bytes are wanted, are those of `byte`.
record Filled (out_buffer : ℕ) (byte : ℕ → ℕ) (n : ℕ) (c c' : Copying) : Type 0 where
  left : c'.bytes_left ≡ c.bytes_left - n
  bytes : (j : ℕ) → j < n → j < c.bytes_left → c'.memory (out_buffer + c.out_pos + j) ≡ byte j

Filled-trans :
    {out_buffer n m all : ℕ} {byte byte' : ℕ → ℕ} {c d e : Copying} (whole : ℕ → ℕ)
    → Copied out_buffer c d
    → Copied out_buffer d e
    → Filled out_buffer byte n c d
    → Filled out_buffer byte' m d e
    → all ≡ n + m
    → ((j : ℕ) → j < n → byte j ≡ whole j)
    → ((j : ℕ) → j < m → byte' j ≡ whole (n + j))
    → Filled out_buffer whole all c e
Filled-trans {out_buffer} {n} {m} {all} {byte} {byte'} {c} {d} {e} whole p q f g sum first second =
    record {
      left = omega (arith, f.left, g.left);
      bytes = λ j lt wanted. elim (lt_or_le j n) [
        | inl here ↦
            q.outside (out_buffer + c.out_pos + j) (inl (omega (arith, p.total, f.left)))
            ∙ (f.bytes j here wanted ∙ first j here)
        | inr later ↦
            ap e.memory (omega (arith, p.total, f.left))
            ∙ (g.bytes (j - n) (omega arith) (omega (arith, f.left))
                ∙ (second (j - n) (omega arith) ∙ ap whole (omega arith)))
      ];
    }

module _ (out_buffer : ℕ) (disk : Disk) (small : (s i : ℕ) → disk s i < 256) where
  copy_sector-Filled :
      (tmp : Ram) (c : Copying)
      → ((i : ℕ) → tmp i < 256)
      → Filled out_buffer tmp 512 c (copy_sector tmp out_buffer c)
  unfolding copy_sector
  copy_sector-Filled tmp c tmp_small = record {
    left = ground arith;
    bytes = λ j lt wanted.
        copy_out_inside (if ltb c.bytes_left 512 then c.bytes_left else 512) 0 tmp
          (out_buffer + c.out_pos) c.memory j (omega arith) (ground arith) (tmp_small j);
  }

  copy_cluster-Filled :
      (count sec lba : ℕ) (c : Copying)
      → lba + sec + count ≤ 268435456
      → Filled out_buffer
          (region_byte disk (lba + sec))
          (count * 512)
          c
          (copy_cluster count sec lba out_buffer disk c)
  unfolding copy_cluster
  copy_cluster-Filled zero sec lba c fits = record {
    left = omega arith;
    bytes = λ j lt wanted. absurd (omega arith);
  }
  copy_cluster-Filled (suc count) sec lba c fits = elim (Bool-cases (ltb 0 c.bytes_left)) [
    | inr none_left ↦
        rw none_left (record { left = ground arith; bytes = λ j lt wanted. absurd (ground arith) })
    | inl some_left ↦
        rw (some_left, sector)
          ((Filled-trans (region_byte disk (lba + sec)) (copy_sector_lem out_buffer _ c).0
            (copy_cluster_lem out_buffer count (sec + 1) lba disk _).0
            (copy_sector-Filled (disk (lba + sec)) c (small (lba + sec)))
            (copy_cluster-Filled count (sec + 1) lba _ (omega arith)) (omega arith)
            (λ j lt. ap₂ disk (omega arith) (omega arith))
            (λ j lt. ap₂ disk (omega arith) (omega arith))))
  ]
    where
      sector : ata_read_sector (add32 lba sec) disk ≡ disk (lba + sec)
      sector = ata_read_sector_lem (add32 lba sec) (omega arith) disk ∙ ap disk (omega arith)

  none_left :
      (c : Copying) (first : ℕ)
      → c.bytes_left ≡ 0
      → (leb 2 first && (ltb first 0xFFF8 && ltb 0 c.bytes_left)) ≡ false
  none_left c first e = ground arith

  Filled-none :
      {c : Copying} (byte : ℕ → ℕ) (n : ℕ) → c.bytes_left ≡ 0 → Filled out_buffer byte n c c
  Filled-none byte n e = record { left = omega arith; bytes = λ j lt wanted. absurd (omega arith) }

  module _ (v : Volume) (i : IsVolume v) where
    -- The loop over the clusters, for no more bytes than the chain has.
    copy_chain-Filled :
        (fuel first : ℕ) (cs : List ℕ) (c : Copying)
        → IsChain v disk first cs
        → c.bytes_left ≤ length cs * cluster_bytes v
        → c.bytes_left < fuel
        → Returns
            (λ c'.
              Copied out_buffer c c'
              × Filled out_buffer (file_byte v disk cs) (length cs * cluster_bytes v) c c')
            (copy_chain fuel first out_buffer v disk c)
    unfolding copy_chain
    copy_chain-Filled zero first cs c chain fits enough = absurd (omega arith)
    copy_chain-Filled (suc fuel) first [] c chain fits enough =
        rw (none_left c first (omega arith))
          (returns (Copied-refl out_buffer c, Filled-none _ _ (omega arith)))
    copy_chain-Filled (suc fuel) first (k ∷ cs) c (same, here, rest) fits enough =
        elim (Bool-cases (ltb 0 c.bytes_left)) [
          | inr complete ↦
              rw (none_left c first (ground arith))
                (returns (Copied-refl out_buffer c, Filled-none _ _ (ground arith)))
          | inl wanted ↦
              let some_left : 0 < c.bytes_left = ground arith in
              let one =
                copy_cluster_lem out_buffer v.g_bpb.sectors_per_clustor 0 (first_sector v k) disk
                  c in
              let two =
                copy_cluster-Filled v.g_bpb.sectors_per_clustor 0 (first_sector v k) c
                  (omega (arith, here.sectors)) in
              let test : (leb 2 k && (ltb k 0xFFF8 && ltb 0 c.bytes_left)) ≡ true =
                ground (arith, here.low, here.high) in
              rw
                (
                  same,
                  test,
                  fat16_cluster_to_lba_lem here,
                  fat16_read_fat_entry_lem i k here.inside disk,
                )
                (Returns-mono
                  (copy_chain-Filled fuel (entry v disk k) cs _ rest (omega (arith, two.left))
                    (omega (arith, two.left, i.cluster_size, enough, some_left)))
                  λ d (copied, filled). (
                    Copied-trans one.0 copied,
                    Filled-trans (file_byte v disk (k ∷ cs)) one.0 copied two filled (omega arith)
                        (λ j lt.
                          ap₂ disk (omega arith) refl ∙ sym (file_byte_here v disk k cs j lt))
                        (λ j lt. sym (file_byte_later v disk k cs j)),
                  ))
        ]

-- When the name's entry leads to a chain of clusters that is long enough for the bytes that are
-- wanted, `fat16_read_file` returns the file's size, and the buffer then holds the file's bytes, as many as it has
-- or `max_size` of them; no other byte is changed.
pub fat16_read_file_contents :
    (name8 ext3 : List ℕ) (out_buffer max_size : ℕ) (v : Volume) (disk : Disk) (memory : Ram)
    (target : DirEntry) (cs : List ℕ)
    → IsVolume v
    → ((s i : ℕ) → disk s i < 256)
    → find_file v.root_dir_sectors 0 v disk name8 ext3 ≡ some target
    → IsChain v disk target.low_first_cluster cs
    → min max_size target.file_size ≤ length cs * cluster_bytes v
    → Returns
        (λ (r, after).
          (r ≡ target.file_size)
          × ((j : ℕ)
              → j < max_size
              → j < target.file_size
              → after (out_buffer + j) ≡ file_byte v disk cs j)
          × ((x : ℕ)
              → (x < out_buffer) ⊎ (out_buffer + min max_size target.file_size ≤ x)
              → after x ≡ memory x))
        (fat16_read_file name8 ext3 out_buffer max_size v disk memory)
unfolding fat16_read_file
fat16_read_file_contents name8 ext3 out_buffer max_size v disk memory target cs i small found chain
      fits =
    rw (found, fat16_read_file)
      (Returns-bind
        (copy_chain-Filled out_buffer disk small v i (max_size + 1) target.low_first_cluster cs _
          chain (ground arith) (ground arith))
        λ c (copied, filled). returns (
          refl,
          λ j lt lt'. ap c.memory (omega arith) ∙ filled.bytes j (ground arith) (ground arith),
          λ x o. copied.outside x (ground arith),
        ))
