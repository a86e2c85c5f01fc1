-- ===== src/Memory/Bitmap.antt =====
-- src/memory.c, the helpers on the words of `mem_bitmap`.
use cindy_os.Base.{
  ℕ, zero, suc, ◌+◌, ◌/◌, ◌%◌, ◌^◌, bit_and, bit_or, Option, none, some, List, ltb, ◌==◌,
  if◌then◌else◌, not32, Run, ok, fault, length, get_or, set,
}

abbrev pub full_word : ℕ
full_word = 0xFFFFFFFF

-- `1 << k` is `2 ^ k`.
unfoldable pub pmm_set_bit : ℕ → List ℕ → Run (List ℕ)
pmm_set_bit frame_idx bitmap =
    if ltb (frame_idx / 32) (length bitmap)
    then ok (
        set bitmap (frame_idx / 32)
          (bit_or (get_or bitmap (frame_idx / 32) 0) (2 ^ (frame_idx % 32))))
    else fault

unfoldable pub pmm_clear_bit : ℕ → List ℕ → Run (List ℕ)
pmm_clear_bit frame_idx bitmap =
    if ltb (frame_idx / 32) (length bitmap)
    then ok (
        set bitmap (frame_idx / 32)
          (bit_and (get_or bitmap (frame_idx / 32) 0) (not32 (2 ^ (frame_idx % 32)))))
    else fault

unfoldable pub pmm_test_bit : ℕ → List ℕ → Run ℕ
pmm_test_bit frame_idx bitmap =
    if ltb (frame_idx / 32) (length bitmap)
    then ok (bit_and (get_or bitmap (frame_idx / 32) 0) (2 ^ (frame_idx % 32)))
    else fault

-- The inner loop of `pmm_alloc_block`: the first 0 bit of `w` among `rest` bits from `bit` on.
unfoldable pub find_zero : ℕ → ℕ → ℕ → Option ℕ
find_zero zero bit w = none
find_zero (suc rest) bit w =
    let later = find_zero rest (bit + 1) w in if bit_and w (2 ^ bit) == 0 then some bit else later
