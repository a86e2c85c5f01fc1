-- ===== src/Paging/Tests.antt =====
-- src/paging.c: the theorems on a machine with one user page, at 0x400000.
use cindy_os.Base.{ℕ, ◌+◌, ◌-◌, ◌≤◌, ◌<◌, ◌≡◌, ◌↔◌, refl, false, arith, Returns}
use cindy_os.Base.Ram.{load32, store32}
use cindy_os.Memory.Tests.{two_free, two_free-IsMemory, low_used}
use cindy_os.Paging.{Machine, pd_index, pt_index, pde_at, get_pte, map_page, validate_user_region}
use cindy_os.Paging.Tables.{IsPaging}
use cindy_os.Paging.Map.{MapResult, map_page_lem}
use cindy_os.Paging.User.{
  user_page, IsUser, InRange, validate_user_region_aligned, validate_user_region_gap,
}

-- The directory is frame 100 and has no entry.
abbrev pub bare : Machine
bare = record { memory = two_free; ram = λ a. 0; page_direc = 0x64000; cr3 = 0; cr0 = 0 }

no_entry : (i : ℕ) → pde_at bare i ≡ 0
unfolding pde_at load32
no_entry i = refl

pub bare-IsPaging : IsPaging bare
bare-IsPaging = record {
  memory = two_free-IsMemory;
  bytes = λ a. omega arith;
  dir = 100;
  dir_at = refl;
  dir_in = omega arith;
  dir_used = low_used 100 (omega arith);
  table_in = λ i h p. absurd (omega (arith, no_entry i));
  table_used = λ i h p. absurd (omega (arith, no_entry i));
  table_ne_dir = λ i h p. absurd (omega (arith, no_entry i));
  tables_ne = λ i j h k p q ne. absurd (omega (arith, no_entry i));
}

map_page_lem_example :
    Returns (MapResult 0x800000 0x400000 7 bare) (map_page 0x800000 0x400000 7 bare)
map_page_lem_example =
    map_page_lem 0x800000 0x400000 7 bare-IsPaging (omega arith) (omega arith) (omega arith)

-- Directory entry 1 names the table in frame 101, whose entry 0 is a user page.
abbrev one_page : Machine
one_page = record {
  memory = two_free;
  ram = λ x. store32 (store32 (λ a. 0) 0x64004 0x65007) 0x65000 0x800007 x;
  page_direc = 0x64000;
  cr3 = 0;
  cr0 = 0;
}

validate_user_region_aligned_example :
    Returns
      (λ r. (r ≡ 1) ↔ (
        InRange 0x400000 4096 × ((x : ℕ) → 0x400000 ≤ x → x < 0x400000 + 4096 → IsUser one_page x)))
      (validate_user_region 0x400000 4096 one_page)
validate_user_region_aligned_example =
    validate_user_region_aligned 0x400000 4096 one_page (omega arith) (omega arith) (omega arith)
      (omega arith)

first_page : IsUser one_page 0x400800
unfolding get_pte pd_index pt_index pde_at load32 store32
first_page = refl

second_page : user_page one_page (0x400800 + 4096 - 1) ≡ false
unfolding get_pte pd_index pt_index pde_at load32 store32
second_page = refl

validate_user_region_gap_example :
    Returns
      (λ r.
        (r ≡ 1) × (x : ℕ) × (0x400800 ≤ x) × (x < 0x400800 + 4096) × (user_page one_page x ≡ false))
      (validate_user_region 0x400800 4096 one_page)
validate_user_region_gap_example =
    validate_user_region_gap 0x400800 4096 one_page (omega arith, omega arith) (omega arith)
      (omega arith) first_page second_page
