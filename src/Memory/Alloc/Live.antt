-- ===== src/Memory/Alloc/Live.antt =====
-- src/memory.c: any sequence of `pmm_alloc_block` and `pmm_free_block`, seen by their callers.
use cindy_os.Base.{
  ℕ, ◌+◌, ◌*◌, ◌/◌, ◌≤◌, ◌<◌, ◌≡◌, ◌≢◌, ◌⊎◌, refl, sym, ap, ◌∙◌, inl, inr, List, [], ◌∷◌, ◌++◌,
  arith, ok, Returns, Returns_at, Returns-bind, returns, subst, lt_or_le,
}
use cindy_os.Memory.{Memory, pmm_alloc_block, pmm_free_block}
use cindy_os.Memory.Frames.{frame_bit, Marked, pmm_clear_bit_lem}
use cindy_os.Memory.Alloc.{IsMemory, Allocated, alloc_result, Allocated-IsMemory, frame_ne_zero}

-- The allocator with the blocks that its callers hold.
pub record System : Type 0 where
  pub memory : Memory
  pub held : List ℕ

-- A caller frees only a block that it holds.
pub data Step : System → System → Type 0 where
  alloc :
      {m m' : Memory} {held : List ℕ} (addr : ℕ)
      → pmm_alloc_block m ≡ ok (addr, m')
      → addr ≢ 0
      → Step (record { memory = m; held = held }) (record { memory = m'; held = addr ∷ held })
  refused :
      {m m' : Memory} {held : List ℕ}
      → pmm_alloc_block m ≡ ok (0, m')
      → Step (record { memory = m; held = held }) (record { memory = m'; held = held })
  free :
      {m m' : Memory} (addr : ℕ) (before after : List ℕ)
      → pmm_free_block addr m ≡ ok m'
      → Step
          (record { memory = m; held = before ++ (addr ∷ after) })
          (record { memory = m'; held = before ++ after })

pub data Reach (s : System) : System → Type 0 where
  here : Reach s s
  next : {t u : System} → Reach s t → Step t u → Reach s u

abbrev pub All : (ℕ → Type 0) → List ℕ → Type 0
All p [] = Unit
All p (x ∷ xs) = p x × All p xs

-- The block neither is, nor overlaps, any of the others.
abbrev pub ApartFrom : ℕ → List ℕ → Type 0
ApartFrom a xs = All (λ b. (a + 4096 ≤ b) ⊎ (b + 4096 ≤ a)) xs

abbrev pub Disjoint : List ℕ → Type 0
Disjoint [] = Unit
Disjoint (a ∷ xs) = ApartFrom a xs × Disjoint xs

-- A held block is a page other than page 0: its frame is below `max_frames`, the number that the boot
-- code found, and it is marked used.
pub record IsHeld (m : Memory) (a : ℕ) : Type 0 where
  pub frame : ℕ
  pub address : a ≡ frame * 4096
  pub nonzero : 0 < frame
  pub reached : frame < m.max_frames
  pub used : frame_bit m.mem_bitmap frame ≡ 1

pub record IsSafe (s : System) : Type 0 where
  pub memory : IsMemory s.memory
  pub held : All (IsHeld s.memory) s.held
  pub disjoint : Disjoint s.held

All-map : {p q : ℕ → Type 0} (xs : List ℕ) → ((x : ℕ) → p x → q x) → All p xs → All q xs
All-map [] f h = tt
All-map (x ∷ xs) f h = (f x h.0, All-map xs f h.1)

All-map₂ :
    {p q r : ℕ → Type 0} (xs : List ℕ)
    → ((x : ℕ) → p x → q x → r x)
    → All p xs
    → All q xs
    → All r xs
All-map₂ [] f h k = tt
All-map₂ (x ∷ xs) f h k = (f x h.0 k.0, All-map₂ xs f h.1 k.1)

All-drop : (p : ℕ → Type 0) (a : ℕ) (xs ys : List ℕ) → All p (xs ++ (a ∷ ys)) → All p (xs ++ ys)
All-drop p a [] ys h = h.1
All-drop p a (x ∷ xs) ys h = (h.0, All-drop p a xs ys h.1)

All_at : (p : ℕ → Type 0) (a : ℕ) (xs ys : List ℕ) → All p (xs ++ (a ∷ ys)) → p a
All_at p a [] ys h = h.0
All_at p a (x ∷ xs) ys h = All_at p a xs ys h.1

Disjoint-drop : (a : ℕ) (xs ys : List ℕ) → Disjoint (xs ++ (a ∷ ys)) → Disjoint (xs ++ ys)
Disjoint-drop a [] ys h = h.1
Disjoint-drop a (x ∷ xs) ys h = (All-drop _ a xs ys h.0, Disjoint-drop a xs ys h.1)

-- The others are apart from the one that is taken out.
Disjoint-apart : (a : ℕ) (xs ys : List ℕ) → Disjoint (xs ++ (a ∷ ys)) → ApartFrom a (xs ++ ys)
Disjoint-apart a [] ys h = h.0
Disjoint-apart a (x ∷ xs) ys h = (flip (All_at _ a xs ys h.0), Disjoint-apart a xs ys h.1)
  where
    flip : (x + 4096 ≤ a) ⊎ (a + 4096 ≤ x) → (a + 4096 ≤ x) ⊎ (x + 4096 ≤ a)
    flip (inl p) = inr p
    flip (inr p) = inl p

module _ {m m' : Memory} {addr : ℕ} (i : IsMemory m) (a : Allocated m addr m') where
  IsHeld-new : IsHeld m' addr
  IsHeld-new = record {
    frame = a.frame;
    address = a.address;
    nonzero = pos a.frame (frame_ne_zero i a);
    reached = omega (arith, a.below, a.same_max);
    used = a.taken.at;
  }
    where
      pos : (n : ℕ) → 0 ≢ n → 0 < n
      pos n h = omega arith

  -- A held frame is in use, and the new one was free.
  new-ne : (b : ℕ) (h : IsHeld m b) → h.frame ≢ a.frame
  new-ne b h e = omega (arith, h.used, a.was_free, ap (frame_bit m.mem_bitmap) e)

  IsHeld-alloc : (b : ℕ) → IsHeld m b → IsHeld m' b
  IsHeld-alloc b h = record {
    frame = h.frame;
    address = h.address;
    nonzero = h.nonzero;
    reached = omega (arith, h.reached, a.same_max);
    used = a.taken.rest h.frame (new-ne b h) ∙ h.used;
  }

  apart-alloc : (b : ℕ) → IsHeld m b → (addr + 4096 ≤ b) ⊎ (b + 4096 ≤ addr)
  apart-alloc b h = elim (lt_or_le h.frame a.frame) [
    | inl lt ↦ inr (omega (arith, h.address, a.address))
    | inr ge ↦ inl (omega (arith, h.address, a.address, new-ne b h))
  ]

module _ {m m' : Memory} {addr : ℕ} (h : IsHeld m addr)
    (one : Marked 0 h.frame m.mem_bitmap m'.mem_bitmap) (same : m'.max_frames ≡ m.max_frames) where
  IsHeld-free : (b : ℕ) → IsHeld m b → (addr + 4096 ≤ b) ⊎ (b + 4096 ≤ addr) → IsHeld m' b
  IsHeld-free b k apart = record {
    frame = k.frame;
    address = k.address;
    nonzero = k.nonzero;
    reached = omega (arith, k.reached, same);
    used = one.rest k.frame other ∙ k.used;
  }
    where
      other : k.frame ≢ h.frame
      other = omega (arith, k.address, h.address)

-- What a successful `pmm_free_block` of a held block does.
free_held :
    {m m' : Memory} {addr : ℕ}
    → IsMemory m
    → (h : IsHeld m addr) → pmm_free_block addr m ≡ ok m'
    → IsMemory m' × Marked 0 h.frame m.mem_bitmap m'.mem_bitmap × (m'.max_frames ≡ m.max_frames)
unfolding pmm_free_block
free_held {m} {m'} {addr} i h e = Returns_at freed e
  where
    frame : addr / 4096 ≡ h.frame
    frame = omega (arith, h.address)

    zero_ne : 0 ≢ h.frame
    zero_ne = omega (arith, h.nonzero)

    freed :
        Returns
          (λ m'.
            IsMemory m'
            × Marked 0 h.frame m.mem_bitmap m'.mem_bitmap
            × (m'.max_frames ≡ m.max_frames))
          (pmm_free_block addr m)
    freed = rw frame (
        Returns-bind (pmm_clear_bit_lem h.frame i.bitmap (omega (arith, h.reached, i.covered)))
          λ bitmap one. returns (
            record {
              bitmap = one.valid;
              covered = i.covered;
              zero_used = one.rest 0 zero_ne ∙ i.zero_used;
              bump = i.bump;
              counted = omega arith;
            },
            one,
            refl,
          ))

pub Step-IsSafe : {s t : System} → Step s t → IsSafe s → IsSafe t
Step-IsSafe (alloc {m} {m'} {held} addr e ne) v = elim (alloc_result v.memory.bitmap e) [
  | inr (z, same, none_free) ↦ absurd (ne z)
  | inl a ↦ record {
    memory = Allocated-IsMemory v.memory a;
    held = (IsHeld-new v.memory a, All-map held (IsHeld-alloc v.memory a) v.held);
    disjoint = (All-map held (apart-alloc v.memory a) v.held, v.disjoint);
  }
]
Step-IsSafe (refused {m} {m'} {held} e) v = elim (alloc_result v.memory.bitmap e) [
  | inl a ↦ absurd (omega (arith, a.address, frame_ne_zero v.memory a))
  | inr (z, same, none_free) ↦ subst (λ t. IsSafe (record { memory = t; held = held })) (sym same) v
]
Step-IsSafe (free {m} {m'} addr before after e) v =
    let h = All_at (IsHeld m) addr before after v.held in
    let (i, one, same) = free_held v.memory h e in
    record {
      memory = i;
      held =
          All-map₂ (before ++ after) (IsHeld-free h one same)
            (All-drop (IsHeld m) addr before after v.held)
            (Disjoint-apart addr before after v.disjoint);
      disjoint = Disjoint-drop addr before after v.disjoint;
    }

-- However allocations and releases of held blocks are ordered, the invariant of the allocator
-- holds, every held block is a page whose frame is below `max_frames`, is not
-- frame 0, and is marked used, and no two held blocks overlap.
pub Reach-IsSafe : {s t : System} → Reach s t → IsSafe s → IsSafe t
Reach-IsSafe here v = v
Reach-IsSafe (next r st) v = Step-IsSafe st (Reach-IsSafe r v)
