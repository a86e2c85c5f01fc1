-- ===== src/Memory/Boot.antt =====
-- src/memory.c: what `init_memory` and `init_pmm` make of GRUB's memory map.
pub mod Map
pub mod Overrun
pub mod Total
pub mod Tests
use Map.{IsMap, fold_run, walk-fold_run}
use cindy_os.Base.{
  ℕ, zero, suc, ◌+◌, ◌*◌, ◌/◌, ◌%◌, ◌≤◌, ◌<◌, max, ◌≡◌, ◌≢◌, ◌⊎◌, refl, sym, ap, ◌∙◌, inl, inr,
  Bool, true, false, ◌&&◌, ◌||◌, List, [], ◌∷◌, arith, ltb, leb, ◌==◌, ◌!=◌, if◌then◌else◌, bit_and,
  add32, Run, ok, fault, ◌>>=◌, Returns, returns, Returns-bind, Returns-mono, length, Bool-cases,
  length-replicate, get_or-replicate, get_or-out, lt_or_le, ne→==,
}
use cindy_os.Base.Ram.{Ram}
use cindy_os.Memory.{
  Memory, free_region, count_region, init_pmm, init_memory, kmalloc, all_used, set_frames,
}
use cindy_os.Memory.Bitmap.{full_word, pmm_set_bit}
use cindy_os.Memory.Multiboot.{MmapEntry, MultibootInfo}
use cindy_os.Memory.Frames.{frame_limit, frame_bit, IsBitmap, Marked, pmm_set_bit_lem, full_bits}
use cindy_os.Memory.Frames.Range.{MarkedRange, set_frames_lem, clear_frames_lem}
use cindy_os.Memory.Alloc.{IsMemory}

-- A region of usable RAM, as the boot code reads it.
abbrev pub is_usable : MmapEntry → Bool
is_usable e = e.type == 1 && e.base_addr_high == 0

abbrev pub end_frame : MmapEntry → ℕ
end_frame e = e.base_addr_low / 4096 + e.length_low / 4096

-- The loop of the boot code visits the frame.
unfoldable pub is_visited : List MmapEntry → ℕ → Bool
is_visited [] g = false
is_visited (e ∷ es) g =
    is_usable e && (leb (e.base_addr_low / 4096) g && ltb g (end_frame e)) || is_visited es g

-- All 4096 bytes of the frame lie in some usable region.
unfoldable pub in_usable : List MmapEntry → ℕ → Bool
in_usable [] g = false
in_usable (e ∷ es) g =
    is_usable e
      && (leb e.base_addr_low (g * 4096) && leb (g * 4096 + 4096) (e.base_addr_low + e.length_low))
    || in_usable es g

-- The usable regions begin on a page boundary.
abbrev pub Aligned : List MmapEntry → Type 0
Aligned [] = Unit
Aligned (e ∷ es) = (is_usable e ≡ true → e.base_addr_low % 4096 ≡ 0) × Aligned es

is_visited-in_usable : (es : List MmapEntry) (g : ℕ) → Aligned es → is_visited es g ≡ in_usable es g
unfolding is_visited in_usable
is_visited-in_usable [] g aligned = refl
is_visited-in_usable (e ∷ es) g aligned = elim (Bool-cases (is_usable e)) [
  | inr other ↦ rw other (is_visited-in_usable es g aligned.1)
  | inl u ↦
      let base : e.base_addr_low % 4096 ≡ 0 = aligned.0 u in
      rw (u, is_visited-in_usable es g aligned.1) (ground arith)
]

-- No usable region reaches past the first GiB, which is what the bitmap can describe.
abbrev pub Fits : List MmapEntry → Type 0
Fits [] = Unit
Fits (e ∷ es) = (is_usable e ≡ true → end_frame e ≤ frame_limit) × Fits es

-- The highest end of a usable region.
unfoldable pub top_frame : ℕ → List MmapEntry → ℕ
top_frame n [] = n
top_frame n (e ∷ es) = top_frame (if is_usable e then max n (end_frame e) else n) es

pub all_used-IsBitmap : IsBitmap all_used
unfolding all_used
all_used-IsBitmap = record {
  size = length-replicate 8192 full_word;
  words = λ i. elim (lt_or_le i 8192) [
    | inl lt ↦ omega (arith, get_or-replicate 8192 i full_word 0 lt)
    | inr ge ↦
        omega (arith, get_or-out all_used i 0 (omega (arith, length-replicate 8192 full_word)))
  ];
}

pub frame_bit-all_used : (g : ℕ) → g < frame_limit → frame_bit all_used g ≡ 1
unfolding all_used frame_bit
frame_bit-all_used g h =
    rw (get_or-replicate 8192 (g / 32) full_word 0 (omega arith)) (full_bits (g % 32) (omega arith))

abbrev pub covers : MmapEntry → ℕ → Bool
covers e g = is_usable e && (leb (e.base_addr_low / 4096) g && ltb g (end_frame e))

-- What the loop over `es` did: the frames of the usable regions are free, the others as before.
record Mapped (es : List MmapEntry) (before after : Memory) : Type 0 where
  valid : IsBitmap after.mem_bitmap
  bits :
      (g : ℕ)
      → g < frame_limit
      → frame_bit after.mem_bitmap g
        ≡ (if is_visited es g then 0 else frame_bit before.mem_bitmap g)
  top : after.max_frames ≡ top_frame before.max_frames es
  same_bump : after.free_mem_addr ≡ before.free_mem_addr
  same_count : after.allocated_memory ≡ before.allocated_memory

module _ (e : MmapEntry) {m : Memory} (b : IsBitmap m.mem_bitmap) where
  free_region-skip : is_usable e ≡ false → free_region e m ≡ ok m
  unfolding free_region
  free_region-skip u = ground arith

  free_region-clear :
      is_usable e ≡ true → end_frame e ≤ frame_limit → Returns (Mapped (e ∷ []) m) (free_region e m)
  unfolding free_region is_visited top_frame
  free_region-clear u fits =
      rw (both.0, both.1)
        (Returns-bind (clear_frames_lem (e.length_low / 4096) (e.base_addr_low / 4096) b fits)
          λ bitmap r. returns (record {
            valid = r.valid;
            bits = λ g p. bit_after bitmap r g;
            top = ground arith;
            same_bump = refl;
            same_count = refl;
          }))
    where
      both : ((e.type == 1) ≡ true) × ((e.base_addr_high == 0) ≡ true)
      both = ground arith

      bit_after :
          (bitmap : List ℕ)
          → MarkedRange 0 (e.base_addr_low / 4096) (end_frame e) m.mem_bitmap bitmap
          → (g : ℕ)
          → frame_bit bitmap g ≡ (if covers e g || false then 0 else frame_bit m.mem_bitmap g)
      bit_after bitmap r g = ground (arith, r.within g, r.outside g)

Mapped-nil : {m : Memory} → IsBitmap m.mem_bitmap → Mapped [] m m
unfolding is_visited top_frame
Mapped-nil b = record {
  valid = b;
  bits = λ g p. refl;
  top = refl;
  same_bump = refl;
  same_count = refl;
}

Mapped-skip :
    {e : MmapEntry} {es : List MmapEntry} {m m' : Memory}
    → is_usable e ≡ false
    → Mapped es m m'
    → Mapped (e ∷ es) m m'
unfolding is_visited top_frame
Mapped-skip u r = record {
  valid = r.valid;
  bits = rw u r.bits;
  top = rw u r.top;
  same_bump = r.same_bump;
  same_count = r.same_count;
}

Mapped-cons :
    {e : MmapEntry} {es : List MmapEntry} {m m₁ m' : Memory}
    → Mapped (e ∷ []) m m₁
    → Mapped es m₁ m'
    → Mapped (e ∷ es) m m'
unfolding is_visited top_frame
Mapped-cons {e} {es} {m} {m₁} one more = record {
  valid = more.valid;
  bits = λ g p. ground (arith, one.bits g p, more.bits g p);
  top = more.top ∙ ap (λ n. top_frame n es) one.top;
  same_bump = more.same_bump ∙ one.same_bump;
  same_count = more.same_count ∙ one.same_count;
}

free_regions :
    (es : List MmapEntry) {m : Memory}
    → IsBitmap m.mem_bitmap
    → Fits es
    → Returns (Mapped es m) (fold_run free_region es m)
unfolding fold_run
free_regions [] b fits = returns (Mapped-nil b)
free_regions (e ∷ es) {m} b fits = elim (Bool-cases (is_usable e)) [
  | inl u ↦
      Returns-bind (free_region-clear e b u (fits.0 u))
        λ m₁ one. Returns-mono (free_regions es one.valid fits.1) λ m' more. Mapped-cons one more
  | inr u ↦
      rw (free_region-skip e {m = m} b u)
        (Returns-mono (free_regions es b fits.1) λ m' more. Mapped-skip u more)
]

-- The frames that `init_pmm` keeps for the kernel whatever the map says.
abbrev pub kernel_frames : Memory → ℕ
kernel_frames m = add32 m.free_mem_addr 4095 / 4096

-- The bitmap that `init_pmm` builds: a frame is free exactly if some usable region contains all of it
-- and it lies above the kernel's frames and is not frame 0.
pub record Booted (es : List MmapEntry) (m m' : Memory) : Type 0 where
  pub bits :
      (g : ℕ)
      → g < frame_limit
      → frame_bit m'.mem_bitmap g
        ≡ (if in_usable es g && (ltb 0 g && leb (kernel_frames m) g) then 0 else 1)
  pub top : m'.max_frames ≡ top_frame m.max_frames es
  pub same_bump : m'.free_mem_addr ≡ m.free_mem_addr
  pub same_count : m'.allocated_memory ≡ m.allocated_memory
  pub valid : IsBitmap m'.mem_bitmap

-- The step of `init_pmm` after the loop over the map.
reserve :
    {es : List MmapEntry} {m mapped : Memory}
    → Mapped es (record m { mem_bitmap = all_used }) mapped
    → kernel_frames m ≤ frame_limit
    → Aligned es
    → Returns (Booted es m) (do
      low ← pmm_set_bit 0 mapped.mem_bitmap
      bitmap ← set_frames (kernel_frames mapped) 0 low
      ok (record mapped { mem_bitmap = bitmap }))
reserve {es} {m} {mapped} r small aligned =
    Returns-bind (pmm_set_bit_lem 0 r.valid (omega arith)) λ low one.
      Returns-bind (set_frames_lem (kernel_frames mapped) 0 one.valid (omega (arith, r.same_bump)))
        λ bitmap range. returns (record {
          bits = λ g p. after low bitmap g p (range.within g) (range.outside g) (one.rest g) one.at;
          top = r.top;
          same_bump = r.same_bump;
          same_count = r.same_count;
          valid = range.valid;
        })
  where
    after :
        (low bitmap : List ℕ) (g : ℕ)
        → g < frame_limit
        → (0 ≤ g → g < 0 + kernel_frames mapped → frame_bit bitmap g ≡ 1)
        → ((g < 0) ⊎ (0 + kernel_frames mapped ≤ g) → frame_bit bitmap g ≡ frame_bit low g)
        → (g ≢ 0 → frame_bit low g ≡ frame_bit mapped.mem_bitmap g)
        → frame_bit low 0 ≡ 1
        → frame_bit bitmap g
          ≡ (if in_usable es g && (ltb 0 g && leb (kernel_frames m) g) then 0 else 1)
    after low bitmap g p within outside rest at =
        ground (
          arith,
          r.bits g p,
          r.same_bump,
          frame_bit-all_used g p,
          is_visited-in_usable es g aligned,
        )

-- With a well-formed memory map whose usable regions begin on a page boundary and end inside the first
-- GiB, fuel above the
-- number of its entries, and a kernel that fits the bitmap, `init_pmm` returns: a frame below
-- 1 GiB is free exactly if a usable region holds all of it, it is not frame 0, and the kernel does not
-- end above it; `max_frames` is the highest end of a usable region, or the old value if higher.
pub init_pmm_lem :
    (fuel : ℕ) (ram : Ram) (mbd : MultibootInfo) (es : List MmapEntry) (m : Memory)
    → bit_and mbd.flags 64 ≢ 0
    → mbd.mmap_addr + mbd.mmap_length < 4294967296
    → IsMap ram mbd.mmap_addr (mbd.mmap_addr + mbd.mmap_length) es
    → length es < fuel
    → Fits es
    → Aligned es
    → kernel_frames m ≤ frame_limit
    → Returns (Booted es m) (init_pmm fuel ram mbd m)
unfolding init_pmm
init_pmm_lem fuel ram mbd es m flag small map enough fits aligned low =
    rw
      (
        ne→== (bit_and mbd.flags 64) 0 flag,
        stop,
        walk-fold_run fuel ram _ _ free_region es map enough,
      )
      (Returns-bind (free_regions es all_used-IsBitmap fits) λ mapped r. reserve r low aligned)
  where
    stop : add32 mbd.mmap_addr mbd.mmap_length ≡ mbd.mmap_addr + mbd.mmap_length
    stop = omega arith

-- The highest end stays inside the bitmap.
top_frame-le :
    (n : ℕ) (es : List MmapEntry) → n ≤ frame_limit → Fits es → top_frame n es ≤ frame_limit
unfolding top_frame
top_frame-le n [] h fits = h
top_frame-le n (e ∷ es) h fits =
    top_frame-le (if is_usable e then max n (end_frame e) else n) es (ground (arith, fits.0)) fits.1

-- After `init_pmm` the invariant of the allocator holds.
pub Booted-IsMemory :
    {es : List MmapEntry} {m m' : Memory}
    → Booted es m m'
    → Fits es
    → m.max_frames ≤ frame_limit
    → m'.free_mem_addr < 4294967296
    → m'.allocated_memory < 4294967296
    → IsMemory m'
Booted-IsMemory {es} {m} b fits h bump counted = record {
  bitmap = b.valid;
  covered = omega (arith, b.top, top_frame-le m.max_frames es h fits);
  zero_used = ground (arith, b.bits 0);
  bump = bump;
  counted = counted;
}
