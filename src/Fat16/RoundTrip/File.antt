-- ===== src/Fat16/RoundTrip/File.antt =====
-- src/fat16.c: the chain that `fat16_write_file` allocates, as a list of clusters.
use cindy_os.Base.{
  ℕ, suc, ◌+◌, ◌-◌, ◌*◌, ◌/◌, ◌≤◌, ◌<◌, ◌≡◌, ◌≢◌, refl, arith, List, [], ◌∷◌, length, add32, sub32,
  subst, subst₂,
}
use native.Mathlib.Nat.{lt-mul-div-succ}
use cindy_os.Ata.{Disk}
use cindy_os.Fat16.{Volume}
use cindy_os.Fat16.Chain.{IsChain, IsRising, IsLayout, IsLayout-IsCluster}
use cindy_os.Fat16.Write.Fresh.{Linked, WasFree, oldest, IsFresh}

-- The clusters in the order of the chain.
abbrev pub forward : List ℕ → List ℕ → List ℕ
forward [] cs = cs
forward (r ∷ rs) cs = forward rs (r ∷ cs)

module _ {v : Volume} (l : IsLayout v) (before d : Disk) where
  -- The chain that was linked backwards, read forwards.
  pub record IsFile (first count : ℕ) (cs : List ℕ) : Type 0 where
    pub chain : IsChain v d first cs
    pub rising : IsRising 1 cs
    pub size : length cs ≡ count

  forward-IsFile :
      (c : ℕ) (rs cs : List ℕ)
      → Linked v d c rs
      → WasFree v before (c ∷ rs)
      → IsChain v d c (c ∷ cs)
      → IsRising c cs
      → IsFile (oldest c rs) (length rs + suc (length cs)) (forward rs (c ∷ cs))
  forward-IsFile c [] cs linked (low, _, _, _) chain rising = record {
    chain = chain;
    rising = (omega arith, rising);
    size = omega arith;
  }
  forward-IsFile c (r ∷ rs) cs (at, lt, linked) (_, _, _, (low, high, z, free)) chain rising =
      subst (λ n. IsFile (oldest r rs) n (forward rs (r ∷ c ∷ cs))) (omega arith)
        (forward-IsFile r rs (c ∷ cs) linked (low, high, z, free)
          (refl, IsLayout-IsCluster l low high, rw at chain) (lt, rising))

  pub IsFresh-IsFile :
      {count first last : ℕ} {rs : List ℕ}
      → length rs ≡ count
      → oldest last rs ≡ first
      → IsFresh v before d last rs
      → IsFile first (suc count) (forward rs (last ∷ []))
  IsFresh-IsFile {count} {first} {last} {rs} len at fresh =
      subst₂ (λ k m. IsFile k m (forward rs (last ∷ []))) at (omega (arith, len))
        (forward-IsFile last rs [] fresh.linked fresh.free
          (refl, IsLayout-IsCluster l fresh.free.0 fresh.free.1, tt) tt)

pub first_small :
    (v : Volume) (d : Disk) {first : ℕ} (cs : List ℕ)
    → IsChain v d first cs
    → 0 < length cs
    → first < 65536
first_small v d [] chain some_clusters = absurd (omega arith)
first_small v d (c ∷ cs) (same, here, rest) some_clusters = omega (arith, same, here.high)

-- The clusters that the file needs, and their bytes.
pub needed :
    (size bytes : ℕ)
    → 0 < size
    → 0 < bytes
    → size + bytes < 4294967296
    → let n = sub32 (add32 size bytes) 1 / bytes in (n ≢ 0) × (size ≤ n * bytes)
needed size bytes some_bytes pos small =
    let e : sub32 (add32 size bytes) 1 ≡ size + bytes - 1 = omega arith in
    let h = lt-mul-div-succ (size + bytes - 1) pos in rw e (grind (arith, h), grind (arith, h))
