-- ===== src/Memory/Alloc.antt =====
-- src/memory.c: `pmm_alloc_block` and `pmm_free_block` against the set of frames in use.
mod Search
pub mod Live
use Search.{FirstFree, find_frame_lem}
use cindy_os.Base.{
  ℕ, zero, suc, ◌+◌, ◌*◌, ◌/◌, ◌≤◌, ◌<◌, ◌≡◌, ◌≢◌, ◌⊎◌, true, refl, ◌∙◌, inl, inr, Option, none,
  some, List, arith, leb, if◌then◌else◌, add32, sub32, Run, ok, Returns, returns, Returns-bind,
  Returns_at, subst, sym, ap, lt_or_le, length, Option-cases, Bool-cases,
}
use cindy_os.Memory.{Memory, find_frame, pmm_alloc_block, pmm_free_block}
use native.Mathlib.Decide.{ℕ_discrete}
use cindy_os.Memory.Frames.{
  frame_limit, frame_bit, IsBitmap, Marked, pmm_set_bit_lem, pmm_clear_bit_lem,
}

-- The outcome of a successful allocation: the lowest free frame, and nothing else, is taken.
pub record Allocated (m : Memory) (addr : ℕ) (m' : Memory) : Type 0 where
  pub frame : ℕ
  pub address : addr ≡ frame * 4096
  pub below : frame < m.max_frames
  pub was_free : frame_bit m.mem_bitmap frame ≡ 0
  pub lowest : (g : ℕ) → g < frame → frame_bit m.mem_bitmap g ≡ 1
  pub taken : Marked 1 frame m.mem_bitmap m'.mem_bitmap
  pub accounted : m'.allocated_memory ≡ add32 m.allocated_memory 4096
  pub same_max : m'.max_frames ≡ m.max_frames
  pub same_bump : m'.free_mem_addr ≡ m.free_mem_addr
  pub same_total : m'.total_memory ≡ m.total_memory

-- Every frame below `max_frames` is in use (as far as the bitmap reaches).
abbrev pub Exhausted : Memory → Type 0
Exhausted m = (g : ℕ) → g < m.max_frames → g < frame_limit → frame_bit m.mem_bitmap g ≡ 1

-- Either a frame is allocated, or the result is 0, nothing changes, and there was none.
abbrev pub AllocResult : Memory → ℕ × Memory → Type 0
AllocResult m (addr, m') = Allocated m addr m' ⊎ ((addr ≡ 0) × (m' ≡ m) × Exhausted m)

-- The state that the boot code leaves: a bitmap of 8192 words that covers `max_frames`, frame 0
-- in use (its address is the error code), and 32-bit counters.
pub record IsMemory (m : Memory) : Type 0 where
  pub bitmap : IsBitmap m.mem_bitmap
  pub covered : m.max_frames ≤ frame_limit
  pub zero_used : frame_bit m.mem_bitmap 0 ≡ 1
  pub bump : m.free_mem_addr < 4294967296
  pub counted : m.allocated_memory < 4294967296

alloc_found :
    {m : Memory} (frame : ℕ)
    → IsBitmap m.mem_bitmap
    → find_frame m.mem_bitmap 0 ≡ some frame
    → FirstFree (frame_bit m.mem_bitmap) 0 (length m.mem_bitmap * 32) (some frame)
    → Returns (AllocResult m) (pmm_alloc_block m)
unfolding pmm_alloc_block
alloc_found {m} frame b e first = elim (Bool-cases (leb m.max_frames frame)) [
  | inl past ↦
      rw (e, pmm_alloc_block, past)
        (returns (inr (refl, refl, λ g p q. first.3 g (omega arith) (below g p past))))
  | inr fits ↦
      rw (e, pmm_alloc_block, fits)
        (Returns-bind (pmm_set_bit_lem frame b (inside first.1)) λ bitmap taken. returns (
          inl (record {
            frame = frame;
            address = omega (arith, inside first.1);
            below = ground arith;
            was_free = first.2;
            lowest = λ g p. first.3 g (omega arith) p;
            taken = taken;
            accounted = refl;
            same_max = refl;
            same_bump = refl;
            same_total = refl;
          })))
]
  where
    inside : frame < length m.mem_bitmap * 32 → frame < frame_limit
    inside p = omega (arith, b.size)

    below : (g : ℕ) → g < m.max_frames → leb m.max_frames frame ≡ true → g < frame
    below g p q = ground arith

-- `pmm_alloc_block` returns the lowest free frame below `max_frames` and marks that frame only,
-- or returns 0 with nothing changed when every such frame is in use.
pub pmm_alloc_block_lem :
    {m : Memory} → IsBitmap m.mem_bitmap → Returns (AllocResult m) (pmm_alloc_block m)
unfolding pmm_alloc_block
pmm_alloc_block_lem {m} b = elim (Option-cases (find_frame m.mem_bitmap 0)) [
  | inl e ↦ alloc_none e (rw e at (find_frame_lem m.mem_bitmap))
  | inr (frame, e) ↦ alloc_found frame b e (rw e at (find_frame_lem m.mem_bitmap))
]
  where
    alloc_none :
        find_frame m.mem_bitmap 0 ≡ none
        → FirstFree (frame_bit m.mem_bitmap) 0 (length m.mem_bitmap * 32) none
        → Returns (AllocResult m) (pmm_alloc_block m)
    alloc_none e used =
        rw (e, pmm_alloc_block)
          (returns (inr (refl, refl, λ g p q. used g (omega arith) (omega (arith, b.size)))))

-- What a successful run of `pmm_alloc_block` says.
pub alloc_result :
    {m m' : Memory} {addr : ℕ}
    → IsBitmap m.mem_bitmap
    → pmm_alloc_block m ≡ ok (addr, m')
    → AllocResult m (addr, m')
alloc_result b e = Returns_at (pmm_alloc_block_lem b) e

-- Frame 0 is never allocated, so the error code is no address.
pub frame_ne_zero :
    {m m' : Memory} {addr : ℕ} → IsMemory m → (a : Allocated m addr m') → 0 ≢ a.frame
frame_ne_zero {m} i a e = omega (arith, i.zero_used, a.was_free, ap (frame_bit m.mem_bitmap) e)

pub Allocated-IsMemory : {m m' : Memory} {addr : ℕ} → IsMemory m → Allocated m addr m' → IsMemory m'
Allocated-IsMemory {m} i a = record {
  bitmap = a.taken.valid;
  covered = omega (arith, i.covered, a.same_max);
  zero_used = a.taken.rest 0 (frame_ne_zero i a) ∙ i.zero_used;
  bump = omega (arith, i.bump, a.same_bump);
  counted = omega (arith, a.accounted);
}

-- The invariant survives an allocation.
pub alloc-IsMemory :
    {m m' : Memory} {addr : ℕ} → IsMemory m → pmm_alloc_block m ≡ ok (addr, m') → IsMemory m'
alloc-IsMemory i e = elim (alloc_result i.bitmap e) [
  | inl a ↦ Allocated-IsMemory i a
  | inr (z, same, none_free) ↦ subst IsMemory (sym same) i
]

-- A result other than 0 is an allocation.
pub allocated :
    {m m' : Memory} {addr : ℕ}
    → IsBitmap m.mem_bitmap
    → pmm_alloc_block m ≡ ok (addr, m')
    → addr ≢ 0
    → Allocated m addr m'
allocated b e ne = elim (alloc_result b e) [ inl a ↦ a | inr (z, same, none_free) ↦ absurd (ne z) ]

restored :
    {before taken after : List ℕ} {f : ℕ}
    → Marked 1 f before taken
    → frame_bit before f ≡ 0
    → Marked 0 f taken after
    → (g : ℕ) → frame_bit after g ≡ frame_bit before g
restored {before} {after} {f} one free cleared g = elim (ℕ_discrete g f) [
  | yes e ↦ rw e (cleared.at ∙ sym free)
  | no ne ↦ cleared.rest g ne ∙ one.rest g ne
]

-- Freeing the block that `pmm_alloc_block` has just returned restores the state of every frame
-- and the count of allocated bytes.
pub free-alloc :
    {m m' : Memory} {addr : ℕ}
    → IsMemory m
    → pmm_alloc_block m ≡ ok (addr, m')
    → addr ≢ 0
    → Returns
        (λ m''.
          ((g : ℕ) → frame_bit m''.mem_bitmap g ≡ frame_bit m.mem_bitmap g)
          × (m''.allocated_memory ≡ m.allocated_memory)
          × (m''.max_frames ≡ m.max_frames))
        (pmm_free_block addr m')
unfolding pmm_free_block
free-alloc {m} {m'} {addr} i e ne =
    let a = allocated i.bitmap e ne in
    let frame : addr / 4096 ≡ a.frame = omega (arith, a.address) in
    let reached : a.frame < frame_limit = omega (arith, a.below, i.covered) in
    rw frame (
      Returns-bind (pmm_clear_bit_lem a.frame a.taken.valid reached) λ bitmap cleared.
        returns
          (restored a.taken a.was_free cleared, omega (arith, a.accounted, i.counted), a.same_max))

-- Two allocations in a row that both succeed return different blocks, in rising order.
pub alloc-alloc_lt :
    {m m' m'' : Memory} {a b : ℕ}
    → IsMemory m
    → pmm_alloc_block m ≡ ok (a, m')
    → pmm_alloc_block m' ≡ ok (b, m'')
    → a ≢ 0
    → b ≢ 0
    → a + 4096 ≤ b
alloc-alloc_lt {m} {m'} i e e' na nb =
    let x = allocated i.bitmap e na in
    let y = allocated x.taken.valid e' nb in
    elim (lt_or_le x.frame y.frame) [
      | inl lt ↦ omega (arith, x.address, y.address)
      | inr ge ↦ elim (ℕ_discrete y.frame x.frame) [
        | yes same ↦
            absurd (omega (arith, x.taken.at, y.was_free, ap (frame_bit m'.mem_bitmap) same))
        | no ne ↦
            absurd
              (omega (arith, x.lowest y.frame (omega arith), x.taken.rest y.frame ne, y.was_free))
      ]
    ]
