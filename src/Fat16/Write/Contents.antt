-- ===== src/Fat16/Write/Contents.antt =====
-- src/fat16.c: the loop of `fat16_write_file` that fills the clusters of the chain.
use cindy_os.Base.{
  ℕ, zero, suc, ◌+◌, ◌-◌, ◌*◌, ◌≤◌, ◌<◌, ◌≡◌, ◌⊎◌, refl, ap, ap₂, ◌∙◌, inl, inr, arith, ltb, leb,
  ◌&&◌, if◌then◌else◌, List, [], ◌∷◌, length, get_or, true, false, Returns, returns, Returns-mono,
  Bool-cases, add32, min, lt_or_le, subst, ltb→lt,
}
use cindy_os.Ata.{Disk, ata_write_sector, ata_write_sector_lem}
use cindy_os.Fat16.{Volume}
use cindy_os.Fat16.Table.Laws.{IsDisk, InTable, entry, fat16_read_fat_entry_lem}
use cindy_os.Fat16.Chain.{
  cluster_bytes, first_sector, region_byte, file_byte, IsCluster, IsChain, fat16_cluster_to_lba_lem,
  file_byte_here, file_byte_later, IsRising, IsLayout, first_sector_le, first_sector_mono,
  entry-ext, IsChain-ext,
}
use cindy_os.Fat16.Write.{chunk_of, write_cluster, write_chain}

module _ (content : List ℕ) (size : ℕ) where
  -- `count` sectors from `lba` on have the content from `start` on, as far as it goes.
  record Filled (lba count start : ℕ) (d d' : Disk) (end : ℕ) : Type 0 where
    to : end ≡ min size (start + count * 512)
    bytes :
        (j : ℕ)
        → j < count * 512
        → start + j < size
        → region_byte d' lba j ≡ get_or content (start + j) 0
    outside : (s i : ℕ) → (s < lba) ⊎ (lba + count ≤ s) → d' s i ≡ d s i
    disk_bytes : ((i : ℕ) → get_or content i 0 < 256) → IsDisk d → IsDisk d'

  abbrev chunk_at : ℕ → ℕ
  chunk_at start = if ltb (size - start) 512 then size - start else 512

  -- One sector before the others.
  Filled-suc :
      {lba count start end : ℕ} {d d' : Disk}
      → lba < 268435456
      → start < size
      → Filled
          (lba + 1)
          count
          (start + chunk_at start)
          (ata_write_sector lba (chunk_of content start (chunk_at start)) d)
          d'
          end
      → Filled lba (suc count) start d d' end
  unfolding chunk_of
  Filled-suc {lba} {count} {start} {end} {d} {d'} fits more rest = record {
    to = ground (arith, rest.to);
    bytes = λ j lt more'. elim (lt_or_le j 512) [
      | inl here ↦
          ap₂ d' (omega arith) (omega arith)
          ∙ (rest.outside lba j (inl (omega arith))
              ∙ (ata_write_sector_lem lba fits d _ lba j ∙ ground arith))
      | inr later ↦
          ap₂ d' (omega arith) (omega arith)
          ∙ (rest.bytes (j - 512) (omega arith) (ground arith)
              ∙ ap (λ n. get_or content n 0) (ground arith))
    ];
    outside = λ s i o.
        rest.outside s i (omega (arith, o))
        ∙ (ata_write_sector_lem lba fits d _ s i ∙ ground (arith, o));
    disk_bytes = λ small all. rest.disk_bytes small λ s i. ground (
      arith,
      ata_write_sector_lem lba fits d (chunk_of content start (chunk_at start)) s i,
      small (start + i),
      all s i,
    );
  }

  write_cluster-Filled :
      (count sec lba start : ℕ) (d : Disk)
      → lba + sec + count ≤ 268435456
      → start ≤ size
      → let (d', end) = write_cluster count sec lba content size d start in
        Filled (lba + sec) count start d d' end
  unfolding write_cluster
  write_cluster-Filled zero sec lba start d fits le = record {
    to = omega arith;
    bytes = λ j lt more. absurd (omega arith);
    outside = λ s i o. refl;
    disk_bytes = λ small all. all;
  }
  write_cluster-Filled (suc count) sec lba start d fits le = elim (Bool-cases (ltb start size)) [
    | inr complete ↦ rw complete (record {
      to = ground arith;
      bytes = λ j lt more. absurd (ground arith);
      outside = λ s i o. refl;
      disk_bytes = λ small all. all;
    })
    | inl more ↦
        rw (more, no_wrap)
          (Filled-suc (omega arith) (ltb→lt start size more) (
            subst
              (λ l.
                let (d', end) =
                  write_cluster count (sec + 1) lba content size (first d)
                    (start + chunk_at start) in
                Filled l count (start + chunk_at start) (first d) d' end)
              (omega arith)
              (write_cluster-Filled count (sec + 1) lba (start + chunk_at start) (first d)
                (omega arith) (ground arith))))
  ]
    where
      no_wrap : add32 lba sec ≡ lba + sec
      no_wrap = omega arith

      first : Disk → Disk
      first d = ata_write_sector (lba + sec) (chunk_of content start (chunk_at start)) d

  whole_cluster :
      {v : Volume} {c start : ℕ} (d : Disk)
      → IsCluster v c
      → start ≤ size
      → let (d', end) =
          write_cluster v.g_bpb.sectors_per_clustor 0 (first_sector v c) content size d start in
        Filled (first_sector v c) v.g_bpb.sectors_per_clustor start d d' end
  whole_cluster {v} {c} {start} d here le =
      subst
        (λ n.
          let (d', end) =
            write_cluster v.g_bpb.sectors_per_clustor 0 (first_sector v c) content size d start in
          Filled n v.g_bpb.sectors_per_clustor start d d' end)
        (omega arith)
        (write_cluster-Filled v.g_bpb.sectors_per_clustor 0 (first_sector v c) start d
          (omega (arith, here.sectors)) le)

  none_left :
      (first start : ℕ)
      → size ≤ start
      → (leb 2 first && (ltb first 0xFFF8 && ltb start size)) ≡ false
  none_left first start le = ground arith

  module _ {v : Volume} (l : IsLayout v) where
    -- The chain's clusters have the content from `start` on; nothing before the first of them changes.
    pub record Stored (k : ℕ) (cs : List ℕ) (start : ℕ) (d d' : Disk) : Type 0 where
      pub bytes : (j : ℕ) → start + j < size → file_byte v d' cs j ≡ get_or content (start + j) 0
      pub outside : (s i : ℕ) → s < first_sector v (k + 1) → d' s i ≡ d s i
      pub disk_bytes : ((i : ℕ) → get_or content i 0 < 256) → IsDisk d → IsDisk d'

    Stored-none :
        (k : ℕ) (cs : List ℕ) (start : ℕ) (d : Disk) → size ≤ start → Stored k cs start d d
    Stored-none k cs start d le = record {
      bytes = λ j lt. absurd (omega arith);
      outside = λ s i lt. refl;
      disk_bytes = λ small all. all;
    }

    -- One cluster before the others.
    Stored-cons :
        {k c : ℕ} {cs : List ℕ} {start end : ℕ} {d d₁ d' : Disk}
        → 2 ≤ c
        → k < c
        → Filled (first_sector v c) v.g_bpb.sectors_per_clustor start d d₁ end
        → Stored c cs end d₁ d'
        → Stored k (c ∷ cs) start d d'
    Stored-cons {k} {c} {cs} {start} {end} {d} {d₁} {d'} two above w r = record {
      bytes = λ j lt. elim (lt_or_le j (cluster_bytes v)) [
        | inl here ↦
            file_byte_here v d' c cs j here
            ∙ (r.outside _ _ (omega (arith, first_sector_le v c (c + 1) two (omega arith)))
                ∙ w.bytes j here lt)
        | inr later ↦
            ap (file_byte v d' (c ∷ cs)) (omega arith)
            ∙ (file_byte_later v d' c cs (j - cluster_bytes v)
                ∙ (r.bytes (j - cluster_bytes v) (omega (arith, w.to))
                    ∙ ap (λ n. get_or content n 0) (omega (arith, w.to))))
      ];
      outside = λ s i lt.
          r.outside s i (omega (arith, first_sector_mono v (k + 1) (c + 1) (omega arith)))
          ∙ w.outside s i (inl (omega (arith, first_sector_mono v (k + 1) c (omega arith))));
      disk_bytes = λ small all. r.disk_bytes small (w.disk_bytes small all);
    }

    entries_kept :
        (c : ℕ) {start end : ℕ} {d d' : Disk}
        → Filled (first_sector v c) v.g_bpb.sectors_per_clustor start d d' end
        → (k : ℕ) → InTable v k
        → entry v d' k ≡ entry v d k
    entries_kept c w k inside =
        entry-ext k l.volume inside
          (λ s i lt. w.outside s i (inl (omega (arith, l.root, l.data_area))))

    pub write_chain-Stored :
        (fuel first start k : ℕ) (cs : List ℕ) (d : Disk)
        → IsRising k cs
        → IsChain v d first cs
        → start ≤ size
        → size ≤ start + length cs * cluster_bytes v
        → size < start + fuel
        → Returns (Stored k cs start d) (write_chain fuel first v content size d start)
    unfolding write_chain
    write_chain-Stored zero first start k cs d rising chain le fits enough = absurd (omega arith)
    write_chain-Stored (suc fuel) first start k [] d rising chain le fits enough =
        rw (none_left first start (omega arith)) (returns (Stored-none k [] start d (omega arith)))
    write_chain-Stored (suc fuel) first start k (c ∷ cs) d (above, rising) (same, here, rest) le
          fits enough =
        elim (Bool-cases (ltb start size)) [
          | inr complete ↦
              rw (none_left first start (ground arith))
                (returns (Stored-none k (c ∷ cs) start d (ground arith)))
          | inl more ↦
              let w = whole_cluster d here le in
              let (d₁, end) =
                write_cluster v.g_bpb.sectors_per_clustor 0 (first_sector v c) content size d
                  start in
              let test : (leb 2 c && (ltb c 0xFFF8 && ltb start size)) ≡ true =
                ground (arith, here.low, here.high) in
              rw
                (
                  same,
                  test,
                  fat16_cluster_to_lba_lem here,
                  fat16_read_fat_entry_lem l.volume c here.inside d₁,
                  entries_kept c w c here.inside,
                )
                (Returns-mono
                  (write_chain-Stored fuel (entry v d c) end c cs d₁ rising
                    (IsChain-ext v d d₁ (entry v d c) cs (entries_kept c w) rest)
                    (omega (arith, w.to)) (omega (arith, w.to))
                    (omega (arith, w.to, l.volume.cluster_size, ltb→lt start size more)))
                  λ d' r. Stored-cons here.low above w r)
        ]
