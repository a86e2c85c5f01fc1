-- ===== src/Memory/Bump.antt =====
-- src/memory.c: `kmalloc` and `kmalloc_a`, and how the second shares frames with the bitmap.
use cindy_os.Base.{
  ℕ, zero, suc, ◌+◌, ◌-◌, ◌*◌, ◌/◌, ◌%◌, ◌≤◌, ◌<◌, ◌≡◌, ◌≢◌, ◌⊎◌, refl, ap, ◌∙◌, inl, inr, arith,
  add32, sub32, ok, Returns, returns, Returns-bind, Returns-mono, Returns_at, lt_or_le, ne→==,
}
use cindy_os.Base.Bits.{page_mask, page_offset}
use cindy_os.Memory.{Memory, kmalloc, kmalloc_a, page_up, pmm_mark_used, pmm_alloc_block}
use native.Mathlib.Decide.{ℕ_discrete}
use cindy_os.Memory.Frames.{frame_bit, IsBitmap}
use cindy_os.Memory.Frames.Range.{set_frames_lem}
use cindy_os.Memory.Alloc.{IsMemory, Allocated, allocated, Allocated-IsMemory}

-- `kmalloc` keeps the bump pointer a multiple of 4, returns the old one, and moves it past the
-- block, as long as the 32-bit address space is not used up.
pub kmalloc_lem :
    (size : ℕ) (m : Memory)
    → m.free_mem_addr % 4 ≡ 0
    → m.free_mem_addr + size + 3 < 4294967296
    → let (ptr, m') = kmalloc size m in
      (ptr ≡ m.free_mem_addr)
      × (ptr + size ≤ m'.free_mem_addr)
      × (m'.free_mem_addr < ptr + size + 4)
      × (m'.free_mem_addr % 4 ≡ 0)
      × (m'.mem_bitmap ≡ m.mem_bitmap)
unfolding kmalloc
kmalloc_lem size m aligned small = ground arith

-- `page_up` is the next multiple of the page size.
pub page_up_lem :
    (a : ℕ)
    → a + 4096 ≤ 4294967296
    → (page_up a % 4096 ≡ 0) × (a ≤ page_up a) × (page_up a < a + 4096)
unfolding page_up
page_up_lem a h = ground (arith, page_offset a, page_mask a (omega arith))

-- What `pmm_mark_used` does to the bitmap, for a region inside the first GiB.
pub record MarkedRegion (start stop : ℕ) (before after : Memory) : Type 0 where
  pub valid : IsBitmap after.mem_bitmap
  pub within : (x : ℕ) → start ≤ x → x < stop → frame_bit after.mem_bitmap (x / 4096) ≡ 1
  pub outside :
      (g : ℕ)
      → (g * 4096 + 4096 ≤ start) ⊎ (stop ≤ g * 4096)
      → frame_bit after.mem_bitmap g ≡ frame_bit before.mem_bitmap g
  pub same_bump : after.free_mem_addr ≡ before.free_mem_addr
  pub same_count : after.allocated_memory ≡ before.allocated_memory
  pub same_max : after.max_frames ≡ before.max_frames
  pub same_total : after.total_memory ≡ before.total_memory

-- For a region inside the first GiB, `pmm_mark_used` returns with the frame of every byte of the
-- region in use and every frame outside the region as before.
pub pmm_mark_used_lem :
    (start size : ℕ) {m : Memory}
    → IsBitmap m.mem_bitmap
    → start + size ≤ 1073741824
    → Returns (MarkedRegion start (start + size) m) (pmm_mark_used start size m)
unfolding pmm_mark_used
pmm_mark_used_lem start zero {m} b h = returns (record {
  valid = b;
  within = λ x p q. absurd (omega arith);
  outside = λ g o. refl;
  same_bump = refl;
  same_count = refl;
  same_max = refl;
  same_total = refl;
})
pmm_mark_used_lem start (suc n) {m} b h =
    rw (ne→== (suc n) 0 (omega arith), last)
      (Returns-bind (set_frames_lem count (start / 4096) b (omega arith)) λ bitmap r.
        returns (record {
          valid = r.valid;
          within = λ x p q. r.within (x / 4096) (omega arith) (omega arith);
          outside = λ g o. r.outside g (apart g o);
          same_bump = refl;
          same_count = refl;
          same_max = refl;
          same_total = refl;
        }))
  where
    count : ℕ
    count = (start + n) / 4096 + 1 - start / 4096

    last : sub32 (add32 start (suc n)) 1 ≡ start + n
    last = omega arith

    apart :
        (g : ℕ)
        → (g * 4096 + 4096 ≤ start) ⊎ (start + suc n ≤ g * 4096)
        → (g < start / 4096) ⊎ (start / 4096 + count ≤ g)
    apart g (inl p) = inl (omega arith)
    apart g (inr p) = inr (omega arith)

-- What `kmalloc_a` does to any bitmap, also one that `init_pmm` has not set up yet.
pub record Raised (size : ℕ) (m : Memory) (ptr : ℕ) (m' : Memory) : Type 0 where
  pub aligned : ptr % 4096 ≡ 0
  pub above : m.free_mem_addr ≤ ptr
  pub near : ptr < m.free_mem_addr + 4096
  pub next : m'.free_mem_addr ≡ ptr + size
  pub within : (x : ℕ) → ptr ≤ x → x < ptr + size → frame_bit m'.mem_bitmap (x / 4096) ≡ 1
  pub outside :
      (g : ℕ)
      → (g * 4096 + 4096 ≤ ptr) ⊎ (ptr + size ≤ g * 4096)
      → frame_bit m'.mem_bitmap g ≡ frame_bit m.mem_bitmap g
  pub same_max : m'.max_frames ≡ m.max_frames
  pub same_total : m'.total_memory ≡ m.total_memory
  pub bitmap : IsBitmap m'.mem_bitmap
  pub counted : m'.allocated_memory < 4294967296

pub kmalloc_a-Raised :
    (size : ℕ) {m : Memory}
    → IsBitmap m.mem_bitmap
    → m.free_mem_addr + size + 4096 ≤ 1073741824
    → Returns (λ (ptr, m'). Raised size m ptr m') (kmalloc_a size m)
unfolding kmalloc_a
kmalloc_a-Raised size {m} b h =
    Returns-bind (pmm_mark_used_lem (page_up m.free_mem_addr) size b (omega (arith, up.2))) λ m' r.
      returns (record {
        aligned = up.0;
        above = up.1;
        near = up.2;
        next = omega (arith, r.same_bump, up.2);
        within = r.within;
        outside = r.outside;
        same_max = r.same_max;
        same_total = r.same_total;
        bitmap = r.valid;
        counted = omega (arith, r.same_count);
      })
  where
    up :
        (page_up m.free_mem_addr % 4096 ≡ 0)
        × (m.free_mem_addr ≤ page_up m.free_mem_addr)
        × (page_up m.free_mem_addr < m.free_mem_addr + 4096)
    up = page_up_lem m.free_mem_addr (omega arith)

-- What `kmalloc_a` returns: a page-aligned region just past the old bump pointer, whose frames
-- are all in use afterwards, with every frame outside it as before.
pub record Bumped (size : ℕ) (m : Memory) (ptr : ℕ) (m' : Memory) : Type 0 where
  pub raised : Raised size m ptr m'
  pub open raised use *
  pub valid : IsMemory m'

-- Frame 0 stays in use.
zero_stays :
    {size ptr : ℕ} {m m' : Memory}
    → Raised size m ptr m'
    → frame_bit m.mem_bitmap 0 ≡ 1
    → frame_bit m'.mem_bitmap 0 ≡ 1
zero_stays {size} {ptr} {m} {m'} r used = elim (ℕ_discrete ptr 0) [
  | no ne ↦ r.outside 0 (inl (omega (arith, r.aligned))) ∙ used
  | yes e ↦ elim (ℕ_discrete size 0) [
    | yes z ↦ r.outside 0 (inr (omega arith)) ∙ used
    | no pos ↦ r.within 0 (omega arith) (omega arith)
  ]
]

-- While the bump pointer, the size and a page add up to 1 GiB at most, `kmalloc_a` returns the next
-- page boundary, moves the pointer just past the region, marks the frames of the region used, leaves
-- every frame outside it, and keeps the allocator's invariant.
pub kmalloc_a_lem :
    (size : ℕ) {m : Memory}
    → IsMemory m
    → m.free_mem_addr + size + 4096 ≤ 1073741824
    → Returns (λ (ptr, m'). Bumped size m ptr m') (kmalloc_a size m)
kmalloc_a_lem size {m} i h = Returns-mono (kmalloc_a-Raised size i.bitmap h) λ (ptr, m') r. record {
  raised = r;
  valid = record {
    bitmap = r.bitmap;
    covered = omega (arith, r.same_max, i.covered);
    zero_used = zero_stays r i.zero_used;
    bump = omega (arith, r.next, r.near);
    counted = r.counted;
  };
}

-- A block that `pmm_alloc_block` hands out after `kmalloc_a` shares no byte with the region.
pub alloc-kmalloc_a :
    (size : ℕ) {m m' m'' : Memory} {ptr addr : ℕ}
    → IsMemory m
    → m.free_mem_addr + size + 4096 ≤ 1073741824
    → kmalloc_a size m ≡ ok (ptr, m')
    → pmm_alloc_block m' ≡ ok (addr, m'')
    → addr ≢ 0
    → (addr + 4096 ≤ ptr) ⊎ (ptr + size ≤ addr)
alloc-kmalloc_a size {m} {m'} {ptr} {addr} i h e e' ne =
    let b = Returns_at (kmalloc_a_lem size i h) e in
    let a = allocated b.valid.bitmap e' ne in
    elim (lt_or_le addr (ptr + size)) [
      | inr ge ↦ inr ge
      | inl lt ↦ inl (elim (lt_or_le addr ptr) [
        | inl lt' ↦ omega (arith, a.address, b.aligned)
        | inr ge' ↦ absurd (
            omega (
              arith,
              b.within addr ge' lt,
              a.was_free,
              ap (frame_bit m'.mem_bitmap) (frame_of a.frame addr a.address),
            ))
      ])
    ]
  where
    frame_of : (f n : ℕ) → n ≡ f * 4096 → n / 4096 ≡ f
    frame_of f n e = omega arith

-- The other order is not safe: once `pmm_alloc_block` has taken the frame at the bump pointer,
-- the next `kmalloc_a` returns the very same address.
pub kmalloc_a-alloc_alias :
    (size : ℕ) {m m' : Memory} {addr : ℕ}
    → IsMemory m
    → m.free_mem_addr + size + 4096 ≤ 1073741824
    → m.free_mem_addr % 4096 ≡ 0
    → ((g : ℕ) → g * 4096 < m.free_mem_addr → frame_bit m.mem_bitmap g ≡ 1)
    → frame_bit m.mem_bitmap (m.free_mem_addr / 4096) ≡ 0
    → pmm_alloc_block m ≡ ok (addr, m')
    → addr ≢ 0
    → Returns (λ (ptr, m''). ptr ≡ addr) (kmalloc_a size m')
kmalloc_a-alloc_alias size {m} {m'} {addr} i h aligned low free e ne =
    let a = allocated i.bitmap e ne in
    let at : a.frame ≡ m.free_mem_addr / 4096 = frame_at a in
    Returns-mono (kmalloc_a_lem size (Allocated-IsMemory i a) (omega (arith, a.same_bump)))
      λ (ptr, m'') b. omega (arith, b.aligned, b.above, b.near, a.address, a.same_bump)
  where
    frame_at : (a : Allocated m addr m') → a.frame ≡ m.free_mem_addr / 4096
    frame_at a = elim (lt_or_le a.frame (m.free_mem_addr / 4096)) [
      | inl lt ↦ absurd (omega (arith, low a.frame (omega arith), a.was_free))
      | inr ge ↦ elim (lt_or_le (m.free_mem_addr / 4096) a.frame) [
        | inl gt ↦ absurd (omega (arith, a.lowest (m.free_mem_addr / 4096) gt, free))
        | inr le ↦ omega arith
      ]
    ]
