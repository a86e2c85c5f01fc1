-- ===== src/CString/Tests.antt =====
-- src/string.c: the theorem on `memcpy` on a small memory.
use cindy_os.Base.{ℕ, ◌+◌, ◌≤◌, ◌<◌, ◌≡◌, ◌⊎◌, inr, arith, ◌==◌, if◌then◌else◌}
use cindy_os.Base.Ram.{Ram}
use cindy_os.CString.{memcpy}
use cindy_os.CString.Laws.{memcpy_lem}

-- Two bytes at 100, two at 200, and 0 elsewhere.
abbrev ram : Ram
ram a =
    if a == 100
    then 97
    else if a == 101
    then 98
    else if a == 200
    then 97
    else if a == 201
    then 99
    else 0

ram-byte : (a : ℕ) → ram a < 256
ram-byte a = ground arith

memcpy_lem_example :
    ((i : ℕ) → i < 3 → memcpy 300 100 3 ram (300 + i) ≡ ram (100 + i))
    × ((x : ℕ) → (x < 300) ⊎ (300 + 3 ≤ x) → memcpy 300 100 3 ram x ≡ ram x)
memcpy_lem_example = memcpy_lem 3 300 100 ram ram-byte (inr (omega arith))
