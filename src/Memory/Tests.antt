-- ===== src/Memory/Tests.antt =====
-- src/memory.c: the theorems on concrete memories.
use cindy_os.Base.{
  ℕ, ◌+◌, ◌%◌, ◌≤◌, ◌<◌, ◌≡◌, ◌≢◌, ◌⊎◌, ◌∙◌, inl, inr, List, [], ◌∷◌, arith, ok, Returns,
  Returns-inv,
}
use native.Mathlib.Decide.{ℕ_discrete}
use cindy_os.Memory.{Memory, kmalloc, kmalloc_a, pmm_alloc_block, pmm_free_block, all_used}
use cindy_os.Memory.Bitmap.{pmm_clear_bit}
use cindy_os.Memory.Frames.{frame_bit, Marked, pmm_clear_bit_lem}
use cindy_os.Memory.Alloc.{
  IsMemory, Allocated, AllocResult, pmm_alloc_block_lem, free-alloc, frame_ne_zero,
  Allocated-IsMemory,
}
use cindy_os.Memory.Alloc.Live.{System, alloc, Reach, here, next, IsSafe, Reach-IsSafe}
use cindy_os.Memory.Bump.{
  kmalloc_lem, Bumped, kmalloc_a_lem, alloc-kmalloc_a, kmalloc_a-alloc_alias,
}
use cindy_os.Memory.Boot.{all_used-IsBitmap, frame_bit-all_used}

-- Every frame below 1024 is in use, but 512 and 513.
pub freed :
    (bitmap : List ℕ) × (pmm_clear_bit 512 all_used ≡ ok bitmap) × Marked 0 512 all_used bitmap
freed = Returns-inv (pmm_clear_bit_lem 512 all_used-IsBitmap (omega arith))

pub freed_next :
    (bitmap : List ℕ) × (pmm_clear_bit 513 freed.0 ≡ ok bitmap) × Marked 0 513 freed.0 bitmap
freed_next = Returns-inv (pmm_clear_bit_lem 513 freed.2.valid (omega arith))

abbrev pub two_free : Memory
two_free = record {
  free_mem_addr = 0x200000;
  total_memory = 0;
  allocated_memory = 0;
  mem_bitmap = freed_next.0;
  max_frames = 1024;
}

pub low_used : (g : ℕ) → g < 512 → frame_bit two_free.mem_bitmap g ≡ 1
low_used g h =
    freed_next.2.rest g (omega arith)
    ∙ freed.2.rest g (omega arith)
    ∙ frame_bit-all_used g (omega arith)

pub free_512 : frame_bit two_free.mem_bitmap 512 ≡ 0
free_512 = freed_next.2.rest 512 (omega arith) ∙ freed.2.at

pub two_free-IsMemory : IsMemory two_free
two_free-IsMemory = record {
  bitmap = freed_next.2.valid;
  covered = omega arith;
  zero_used = low_used 0 (omega arith);
  bump = omega arith;
  counted = omega arith;
}

pmm_alloc_block_lem_example : Returns (AllocResult two_free) (pmm_alloc_block two_free)
pmm_alloc_block_lem_example = pmm_alloc_block_lem two_free-IsMemory.bitmap

-- Some frame is free, so an allocation succeeds.
succeeds :
    {m : Memory} (f : ℕ)
    → IsMemory m
    → f < m.max_frames
    → frame_bit m.mem_bitmap f ≡ 0
    → (addr : ℕ) × (m' : Memory) × (pmm_alloc_block m ≡ ok (addr, m'))
      × (addr ≢ 0)
      × Allocated m addr m'
succeeds f i h unused =
    let ((addr, m'), e, r) = Returns-inv (pmm_alloc_block_lem i.bitmap) in
    elim r [
      | inl a ↦ (addr, m', e, omega (arith, a.address, frame_ne_zero i a), a)
      | inr (z, same, none_free) ↦
          absurd (omega (arith, none_free f h (omega (arith, i.covered)), unused))
    ]

pub first :
    (addr : ℕ) × (m' : Memory) × (pmm_alloc_block two_free ≡ ok (addr, m'))
    × (addr ≢ 0)
    × Allocated two_free addr m'
first = succeeds 512 two_free-IsMemory (omega arith) free_512

free-alloc_example :
    Returns
      (λ m''.
        ((g : ℕ) → frame_bit m''.mem_bitmap g ≡ frame_bit two_free.mem_bitmap g)
        × (m''.allocated_memory ≡ 0)
        × (m''.max_frames ≡ 1024))
      (pmm_free_block first.0 first.1)
free-alloc_example = free-alloc two_free-IsMemory first.2 first.3

free_513 : frame_bit first.1.mem_bitmap 513 ≡ 0
free_513 = elim (ℕ_discrete 513 first.4.frame) [
  | yes e ↦ absurd (omega (arith, first.4.lowest 512 (omega arith), free_512))
  | no ne ↦ first.4.taken.rest 513 ne ∙ freed_next.2.at
]

first-IsMemory : IsMemory first.1
first-IsMemory = Allocated-IsMemory two_free-IsMemory first.4

second :
    (addr : ℕ) × (m' : Memory) × (pmm_alloc_block first.1 ≡ ok (addr, m'))
    × (addr ≢ 0)
    × Allocated first.1 addr m'
second = succeeds 513 first-IsMemory (omega (arith, first.4.same_max)) free_513

nothing_held : System
nothing_held = record { memory = two_free; held = [] }

both_held : System
both_held = record { memory = second.1; held = second.0 ∷ first.0 ∷ [] }

two_allocations : Reach nothing_held both_held
unfolding nothing_held both_held
two_allocations =
    next (next here (alloc first.0 first.2 first.3)) (alloc second.0 second.2 second.3)

nothing_held-IsSafe : IsSafe nothing_held
unfolding nothing_held
nothing_held-IsSafe = record { memory = two_free-IsMemory; held = tt; disjoint = tt }

Reach-IsSafe_example : IsSafe both_held
Reach-IsSafe_example = Reach-IsSafe two_allocations nothing_held-IsSafe

kmalloc_lem_example :
    let (ptr, m') = kmalloc 10 two_free in
    (ptr ≡ 0x200000)
    × (ptr + 10 ≤ m'.free_mem_addr)
    × (m'.free_mem_addr < ptr + 10 + 4)
    × (m'.free_mem_addr % 4 ≡ 0)
    × (m'.mem_bitmap ≡ two_free.mem_bitmap)
kmalloc_lem_example = kmalloc_lem 10 two_free (omega arith) (omega arith)

kmalloc_a_lem_example : Returns (λ (ptr, m'). Bumped 4096 two_free ptr m') (kmalloc_a 4096 two_free)
kmalloc_a_lem_example = kmalloc_a_lem 4096 two_free-IsMemory (omega arith)

bumped : (r : ℕ × Memory) × (kmalloc_a 4096 two_free ≡ ok r) × Bumped 4096 two_free r.0 r.1
bumped = Returns-inv (kmalloc_a_lem 4096 two_free-IsMemory (omega arith))

free_after : frame_bit bumped.0.1.mem_bitmap 513 ≡ 0
free_after =
    bumped.2.outside 513 (inr (omega (arith, bumped.2.aligned, bumped.2.near))) ∙ freed_next.2.at

after :
    (addr : ℕ) × (m' : Memory) × (pmm_alloc_block bumped.0.1 ≡ ok (addr, m'))
    × (addr ≢ 0)
    × Allocated bumped.0.1 addr m'
after = succeeds 513 bumped.2.valid (omega (arith, bumped.2.same_max)) free_after

alloc-kmalloc_a_example : (after.0 + 4096 ≤ bumped.0.0) ⊎ (bumped.0.0 + 4096 ≤ after.0)
alloc-kmalloc_a_example =
    alloc-kmalloc_a 4096 two_free-IsMemory (omega arith) bumped.1 after.2 after.3

kmalloc_a-alloc_alias_example : Returns (λ (ptr, m''). ptr ≡ first.0) (kmalloc_a 4096 first.1)
kmalloc_a-alloc_alias_example =
    kmalloc_a-alloc_alias 4096 two_free-IsMemory (omega arith) (omega arith)
      (λ g h. low_used g (omega arith)) free_512 first.2 first.3
