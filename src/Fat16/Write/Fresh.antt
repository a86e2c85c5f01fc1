-- ===== src/Fat16/Write/Fresh.antt =====
-- src/fat16.c: the chain that `fat16_write_file` allocates.
use cindy_os.Base.{
  ℕ, zero, suc, ◌+◌, ◌*◌, ◌≤◌, ◌<◌, ◌≡◌, ◌≢◌, ◌⊎◌, inl, inr, refl, sym, ap, ◌∙◌, arith, List, [],
  ◌∷◌, length, Option, none, some, Returns, returns, Returns-bind, Returns-mono, ne→==, lt_or_le,
}
use native.Mathlib.Decide.{ℕ_discrete}
use cindy_os.Ata.{Disk}
use cindy_os.Fat16.{Volume}
use cindy_os.Fat16.Table.{cluster_end}
use cindy_os.Fat16.Table.Laws.{
  IsVolume, IsDisk, entry, InTable, Written, fat16_write_fat_entry_lem, fat16_find_free_cluster_lem,
}
use cindy_os.Fat16.Write.{Chain, allocate_chain}

-- The clusters before `c`, the latest first: the entry of each is the one behind it.
abbrev pub Linked : Volume → Disk → ℕ → List ℕ → Type 0
Linked v d c [] = Unit
Linked v d c (r ∷ rs) = (entry v d r ≡ c) × (r < c) × Linked v d r rs

-- Every cluster was free, and none is there twice.
abbrev pub WasFree : Volume → Disk → List ℕ → Type 0
WasFree v d [] = Unit
WasFree v d (r ∷ rs) = (2 ≤ r) × (r < cluster_end v) × (entry v d r ≡ 0) × WasFree v d rs

abbrev pub Absent : ℕ → List ℕ → Type 0
Absent k [] = Unit
Absent k (r ∷ rs) = (k ≢ r) × Absent k rs

abbrev pub oldest : ℕ → List ℕ → ℕ
oldest c [] = c
oldest c (r ∷ rs) = oldest r rs

-- Outside the tables.
abbrev pub SameOutside : Volume → Disk → Disk → Type 0
SameOutside v before d =
    (s j : ℕ)
    → (s < v.fat_start_sector) ⊎ (v.fat_start_sector + 2 * v.g_bpb.sectors_per_fat ≤ s)
    → d s j ≡ before s j

-- A chain that ends with `c`, in clusters that were free before; all other entries are as before.
pub record IsFresh (v : Volume) (before d : Disk) (c : ℕ) (rs : List ℕ) : Type 0 where
  pub last : entry v d c ≡ 0xFFFF
  pub linked : Linked v d c rs
  pub free : WasFree v before (c ∷ rs)
  pub used : (k : ℕ) → 2 ≤ k → k ≤ c → entry v d k ≢ 0
  pub others : (k : ℕ) → InTable v k → Absent k (c ∷ rs) → entry v d k ≡ entry v before k
  pub outside : SameOutside v before d
  pub bytes : IsDisk before → IsDisk d

abbrev pub DiskFull : Volume → Disk → Type 0
DiskFull v d = (k : ℕ) → 2 ≤ k → k < cluster_end v → entry v d k ≢ 0

-- What the loop is to return for `count` clusters and one more.
abbrev pub ChainResult : Volume → Disk → ℕ → Option Chain × Disk → Type 0
ChainResult v before count (none, d) = DiskFull v d
ChainResult v before count (some c, d) =
    (c.disk ≡ d)
    × ((rs : List ℕ) × (length rs ≡ count)
        × (oldest c.prev_cluster rs ≡ c.first_cluster)
        × IsFresh v before d c.prev_cluster rs)

above-Absent :
    (v : Volume) (d : Disk) (k c : ℕ) (rs : List ℕ) → c < k → Linked v d c rs → Absent k (c ∷ rs)
above-Absent v d k c [] lt h = (omega arith, tt)
above-Absent v d k c (r ∷ rs) lt h = (omega arith, above-Absent v d k r rs (omega (arith, h.1)) h.2)

Linked-ext :
    (v : Volume) (d d' : Disk) (c : ℕ) (rs : List ℕ)
    → Linked v d c rs
    → ((k : ℕ) → k < c → entry v d' k ≡ entry v d k)
    → Linked v d' c rs
Linked-ext v d d' c [] h same = tt
Linked-ext v d d' c (r ∷ rs) h same =
    (same r h.1 ∙ h.0, h.1, Linked-ext v d d' r rs h.2 (λ k lt. same k (omega (arith, h.1))))

cluster_end_lt : (v : Volume) → cluster_end v < 65536
unfolding cluster_end
cluster_end_lt v = omega arith

module _ {v : Volume} (i : IsVolume v) (covered : cluster_end v ≤ 256 * v.g_bpb.sectors_per_fat)
    (before : Disk) where
  -- A further cluster is linked to the chain and ends it.
  IsFresh-link :
      {d d₁ d₂ : Disk} {c f : ℕ} {rs : List ℕ}
      → IsFresh v before d c rs
      → 2 ≤ f
      → f < cluster_end v
      → entry v d f ≡ 0
      → ((k : ℕ) → 2 ≤ k → k < f → entry v d k ≢ 0)
      → Written c f v d d₁
      → Written f 0xFFFF v d₁ d₂
      → IsFresh v before d₂ f (c ∷ rs)
  IsFresh-link {d} {d₁} {d₂} {c} {f} {rs} h low high free_f first w₁ w₂ = record {
    last = w₂.at;
    linked = (
      w₂.rest c (omega (arith, above, covered, high)) (omega (arith, above)) ∙ w₁.at,
      above,
      Linked-ext v d d₂ c rs h.linked (λ k lt.
          kept k (omega (arith, lt, above, covered, high)) (omega (arith, lt, above))
            (omega (arith, lt))),
    );
    free = (
      low,
      high,
      sym (h.others f (omega (arith, covered, high)) (above-Absent v d f c rs above h.linked))
          ∙ free_f,
      h.free,
    );
    used = λ k two le. elim (ℕ_discrete k f) [
      | yes e ↦ λ z. absurd (omega (arith, z, w₂.at, ap (entry v d₂) e))
      | no k_ne_f ↦ elim (ℕ_discrete k c) [
        | yes e ↦ λ z. absurd (
            omega (
              arith,
              z,
              w₁.at,
              low,
              w₂.rest c (omega (arith, above, covered, high)) (omega (arith, above)),
              ap (entry v d₂) e,
            ))
        | no k_ne_c ↦ λ z.
            first k two (omega (arith, le, k_ne_f))
              (sym (kept k (omega (arith, le, covered, high)) k_ne_f k_ne_c) ∙ z)
      ]
    ];
    others = λ k inside absent. kept k inside absent.0 absent.1.0 ∙ h.others k inside absent.1;
    outside = λ s j o. w₂.outside s j o ∙ (w₁.outside s j o ∙ h.outside s j o);
    bytes = λ all. w₂.bytes (w₁.bytes (h.bytes all));
  }
    where
      above : c < f
      above = elim (lt_or_le c f) [ inl lt ↦ lt | inr le ↦ absurd (h.used f low le free_f) ]

      kept : (k : ℕ) → InTable v k → k ≢ f → k ≢ c → entry v d₂ k ≡ entry v d k
      kept k inside k_ne_f k_ne_c = w₂.rest k inside k_ne_f ∙ w₁.rest k inside k_ne_c

  -- The first cluster alone.
  IsFresh-first :
      {d₂ : Disk} {f : ℕ}
      → 2 ≤ f
      → f < cluster_end v
      → entry v before f ≡ 0
      → ((k : ℕ) → 2 ≤ k → k < f → entry v before k ≢ 0)
      → Written f 0xFFFF v before d₂
      → IsFresh v before d₂ f []
  IsFresh-first {d₂} {f} low high free_f first w = record {
    last = w.at;
    linked = tt;
    free = (low, high, free_f, tt);
    used = λ k two le. elim (ℕ_discrete k f) [
      | yes e ↦ λ z. absurd (omega (arith, z, w.at, ap (entry v d₂) e))
      | no k_ne_f ↦ λ z.
          first k two (omega (arith, le, k_ne_f))
            (sym (w.rest k (omega (arith, le, covered, high)) k_ne_f) ∙ z)
    ];
    others = λ k inside absent. w.rest k inside absent.0;
    outside = w.outside;
    bytes = w.bytes;
  }

  -- What the loop returns: a chain with `count` more clusters, or no entry is free.
  abbrev Extended : ℕ → ℕ → List ℕ → Option Chain × Disk → Type 0
  Extended count first rs (none, d) = DiskFull v d
  Extended count first rs (some c, d) =
      (c.disk ≡ d)
      × (c.first_cluster ≡ first)
      × ((rs' : List ℕ) × (length rs' ≡ length rs + count)
          × (oldest c.prev_cluster rs' ≡ first)
          × IsFresh v before d c.prev_cluster rs')

  Extended-suc :
      (count first c : ℕ) (rs : List ℕ) (r : Option Chain) (d : Disk)
      → Extended count first (c ∷ rs) (r, d)
      → Extended (suc count) first rs (r, d)
  Extended-suc count first c rs none d e = e
  Extended-suc count first c rs (some x) d (at, same, (rs', size, old, fresh)) =
      (at, same, (rs', omega (arith, size), old, fresh))

  more_clusters :
      (count n : ℕ) (c : Chain) (rs : List ℕ)
      → 0 < n
      → oldest c.prev_cluster rs ≡ c.first_cluster
      → IsFresh v before c.disk c.prev_cluster rs
      → 2 ≤ cluster_end v
      → Returns (Extended count c.first_cluster rs) (allocate_chain count n v c)
  unfolding allocate_chain
  more_clusters zero n c rs later first h some_clusters =
      returns (refl, refl, (rs, omega arith, first, h))
  more_clusters (suc count) n c rs later first h some_clusters =
      Returns-bind (fat16_find_free_cluster_lem i c.disk some_clusters covered) λ f found.
        elim found [
          | inl (z, full) ↦ rw z (returns full)
          | inr (low, high, free_f, below) ↦
              rw (ne→== f 0 (omega arith), ne→== n 0 (omega arith))
                (Returns-bind
                  (fat16_write_fat_entry_lem i c.prev_cluster f (omega (arith, h.free.1, covered))
                    (omega (arith, high, cluster_end_lt v)) c.disk)
                  λ d₁ w₁.
                    Returns-bind
                      (fat16_write_fat_entry_lem i f 0xFFFF (omega (arith, high, covered))
                        (omega arith) d₁)
                      λ d₂ w₂.
                        Returns-mono
                          (more_clusters count (n + 1) _ (c.prev_cluster ∷ rs) (omega arith) first
                            (IsFresh-link h low high free_f below w₁ w₂) some_clusters)
                          λ (r, d) e. Extended-suc count c.first_cluster c.prev_cluster rs r d e)
        ]

  to_ChainResult :
      (count f : ℕ) (r : Option Chain) (d : Disk)
      → Extended count f [] (r, d)
      → ChainResult v before count (r, d)
  to_ChainResult count f none d e = e
  to_ChainResult count f (some c) d (at, same, (rs, size, old, fresh)) =
      (at, (rs, omega (arith, size), old ∙ sym same, fresh))

  -- On a volume whose tables cover its clusters, the allocation of one cluster or more returns: either
  -- no entry is free any more, or the clusters from the first one on, as many as were asked for, were
  -- all free and are linked in rising order up to the last, which ends the chain; and the entry of
  -- every other cluster is as before.
  pub allocate_chain_lem :
      (count : ℕ)
      → 2 ≤ cluster_end v
      → Returns (ChainResult v before count) (
          allocate_chain
            (suc count)
            0
            v
            (record { disk = before; first_cluster = 0; prev_cluster = 0 }))
  unfolding allocate_chain
  allocate_chain_lem count some_clusters =
      Returns-bind (fat16_find_free_cluster_lem i before some_clusters covered) λ f found.
        elim found [
          | inl (z, full) ↦ rw z (returns full)
          | inr (low, high, free_f, below) ↦ rw (ne→== f 0 (omega arith)) (
              Returns-bind
                (fat16_write_fat_entry_lem i f 0xFFFF (omega (arith, high, covered)) (omega arith)
                  before)
                λ d₂ w.
                  Returns-mono
                    (more_clusters count 1 _ [] (omega arith) refl
                      (IsFresh-first low high free_f below w) some_clusters)
                    λ (r, d) e. to_ChainResult count f r d e)
        ]
