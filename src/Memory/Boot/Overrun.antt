-- ===== src/Memory/Boot/Overrun.antt =====
-- src/memory.c: `init_pmm` on a machine whose usable RAM reaches past the first GiB.
use cindy_os.Base.{
  ℕ, zero, suc, ◌+◌, ◌/◌, ◌<◌, ◌≡◌, ◌≢◌, refl, true, List, [], ◌∷◌, ◌++◌, arith, bit_and, add32,
  Run, ok, fault, out_of_fuel, ◌==◌, lt_or_le, inl, inr, ne→==, ◌>>=◌, Returns-inv, length,
}
use cindy_os.Base.Ram.{Ram}
use cindy_os.Memory.{Memory, clear_frames, free_region, init_pmm, all_used}
use cindy_os.Memory.Multiboot.{MmapEntry, MultibootInfo}
use cindy_os.Memory.Frames.{frame_limit, IsBitmap, pmm_clear_bit_lem, pmm_bits_fault}
use cindy_os.Memory.Boot.{is_usable, end_frame, Fits, free_regions, all_used-IsBitmap}
use cindy_os.Memory.Boot.Map.{IsMap, fold_run, walk-fold_run}

clear_frames_fault :
    (count first : ℕ) {bitmap : List ℕ}
    → IsBitmap bitmap
    → frame_limit < first + count
    → 0 < count
    → clear_frames count first bitmap ≡ fault
unfolding clear_frames
clear_frames_fault zero first b past some_left = absurd (omega arith)
clear_frames_fault (suc n) first {bitmap} b past some_left = elim (lt_or_le first frame_limit) [
  | inr ge ↦ rw ((pmm_bits_fault first b ge).1)
  | inl lt ↦
      let (bitmap', e, one) = Returns-inv (pmm_clear_bit_lem first b lt) in
      rw e (clear_frames_fault n (first + 1) one.valid (omega arith) (omega arith))
]

free_region_fault :
    (e : MmapEntry) (m : Memory)
    → IsBitmap m.mem_bitmap
    → is_usable e ≡ true
    → frame_limit < end_frame e
    → 0 < e.length_low / 4096
    → free_region e m ≡ fault
unfolding free_region
free_region_fault e m b u past some_left = rw (
  (usable_parts u).0,
  (usable_parts u).1,
  clear_frames_fault (e.length_low / 4096) (e.base_addr_low / 4096) b past some_left,
)
  where
    usable_parts : is_usable e ≡ true → ((e.type == 1) ≡ true) × ((e.base_addr_high == 0) ≡ true)
    usable_parts h = ground arith

bind_assoc {ℓ} :
    {S : Type ℓ} (r : Run S) (f g h : S → Run S)
    → ((s : S) → h s ≡ (f s >>= g))
    → (r >>= h) ≡ ((r >>= f) >>= g)
bind_assoc (ok s) f g h e = e s
bind_assoc fault f g h e = refl
bind_assoc out_of_fuel f g h e = refl

fold_run-append {ℓ} :
    {S : Type ℓ} (body : MmapEntry → S → Run S) (pre post : List MmapEntry) (s : S)
    → fold_run body (pre ++ post) s ≡ (fold_run body pre s >>= fold_run body post)
unfolding fold_run
fold_run-append body [] post s = refl
fold_run-append body (e ∷ es) post s = bind_assoc (body e s) _ _ _ (fold_run-append body es post)

-- If the memory map has a usable region that ends past the first GiB (and those before it do not),
-- `init_pmm` writes past the end of `mem_bitmap`.
pub init_pmm_overrun :
    (fuel : ℕ) (ram : Ram) (mbd : MultibootInfo) (pre post : List MmapEntry) (e : MmapEntry)
    (m : Memory)
    → bit_and mbd.flags 64 ≢ 0
    → mbd.mmap_addr + mbd.mmap_length < 4294967296
    → IsMap ram mbd.mmap_addr (mbd.mmap_addr + mbd.mmap_length) (pre ++ (e ∷ post))
    → length (pre ++ (e ∷ post)) < fuel
    → Fits pre
    → is_usable e ≡ true
    → frame_limit < end_frame e
    → 0 < e.length_low / 4096
    → init_pmm fuel ram mbd m ≡ fault
unfolding init_pmm fold_run
init_pmm_overrun fuel ram mbd pre post e m flag small map enough fits u past some_left =
    let (mapped, run, r) = Returns-inv (free_regions pre {m = filled} all_used-IsBitmap fits) in
    rw (
      ne→== (bit_and mbd.flags 64) 0 flag,
      stop,
      walk-fold_run fuel ram _ _ free_region (pre ++ (e ∷ post)) map enough,
      fold_run-append free_region pre (e ∷ post) filled,
      run,
      free_region_fault e mapped r.valid u past some_left,
    )
  where
    filled : Memory
    filled = record m { mem_bitmap = all_used }

    stop : add32 mbd.mmap_addr mbd.mmap_length ≡ mbd.mmap_addr + mbd.mmap_length
    stop = omega arith
