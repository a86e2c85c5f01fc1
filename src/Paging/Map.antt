-- ===== src/Paging/Map.antt =====
-- src/paging.c: `map_page` sets the entry of one page and leaves every other page as it was.
pub mod Install
use Install.{Installed, install, install_lem}
use cindy_os.Base.{
  ℕ, zero, suc, ◌+◌, ◌*◌, ◌/◌, ◌%◌, ◌≤◌, ◌<◌, ◌≡◌, ◌≢◌, ◌⊎◌, refl, ap, ◌∙◌, sym, inl, inr, arith,
  bit_and, bit_or, ◌==◌, Run, ok, Returns, returns, Returns-bind, ne→==, ==_refl, Returns-inv,
}
use cindy_os.Base.Bits.{page_mask, bit_or_low, bit_or-lt, bit-or}
use cindy_os.Base.Ram.{load32, store32, load32-store32_self, load32-store32_apart}
use native.Mathlib.Decide.{ℕ_discrete}
use cindy_os.Memory.{Memory, pmm_alloc_block}
use cindy_os.Memory.Frames.{frame_limit, frame_bit}
use cindy_os.Memory.Alloc.{
  IsMemory, Allocated, Exhausted, AllocResult, pmm_alloc_block_lem, Allocated-IsMemory,
  frame_ne_zero,
}
use cindy_os.Paging.{Machine, pd_index, pt_index, pde_at, get_pte, map_page}
use cindy_os.Paging.Tables.{
  IsRam, IsPaging, pde-lt, store32-IsRam, pt_index_lem, pd_index_lem, present_bit, get_pte-absent,
  get_pte-present, word_apart, pages_apart, IsPaging-ram,
}

-- The table of the page is the one that it had, or a frame that was free.
-- The page of `virt` now has the entry that was asked for, every other page the one it had.
pub record MappedPage (phys virt flags : ℕ) (s s' : Machine) : Type 0 where
  pub entry : get_pte virt s' ≡ bit_or (bit_or phys flags) 1
  pub others : (v : ℕ) → v < 4294967296 → v / 4096 ≢ virt / 4096 → get_pte v s' ≡ get_pte v s
  pub valid : IsPaging s'
  pub table :
      (pde_at s' (virt / 4194304) ≡ pde_at s (virt / 4194304))
      ⊎ ((pde_at s (virt / 4194304) % 2 ≡ 0)
          × (frame_bit s.memory.mem_bitmap (pde_at s' (virt / 4194304) / 4096) ≡ 0))

odd_or_even : (n : ℕ) → (n % 2 ≡ 0) ⊎ (n % 2 ≡ 1)
odd_or_even n = omega arith

-- Two machines agree on a page if they agree on its directory entry and on its table's word.
get_pte_same :
    (v : ℕ) (s s' : Machine)
    → IsRam s.ram
    → IsRam s'.ram
    → pde_at s' (v / 4194304) ≡ pde_at s (v / 4194304)
    → (pde_at s (v / 4194304) % 2 ≡ 1
        → load32 s'.ram (pde_at s (v / 4194304) / 4096 * 4096 + 4 * (v / 4096 % 1024))
          ≡ load32 s.ram (pde_at s (v / 4194304) / 4096 * 4096 + 4 * (v / 4096 % 1024)))
    → get_pte v s' ≡ get_pte v s
get_pte_same v s s' b b' e w = elim (odd_or_even (pde_at s (v / 4194304))) [
  | inl absent ↦ get_pte-absent v s' (ap (λ n. n % 2) e ∙ absent) ∙ sym (get_pte-absent v s absent)
  | inr present ↦
      get_pte-present v s' b' (ap (λ n. n % 2) e ∙ present)
      ∙ ap (λ n. load32 s'.ram (n / 4096 * 4096 + 4 * (v / 4096 % 1024))) e
      ∙ w present
      ∙ sym (get_pte-present v s b present)
]

entry-lt :
    (phys flags : ℕ)
    → phys < 4294967296
    → flags < 4294967296
    → bit_or (bit_or phys flags) 1 < 4294967296
entry-lt phys flags p q =
    bit_or-lt 32 (bit_or phys flags) 1 (bit_or-lt 32 phys flags p q) (omega arith)

module _ (phys virt flags : ℕ) {s : Machine} (inv : IsPaging s) (pl : phys < 4294967296)
    (vl : virt < 4294967296) (fl : flags < 4294967296) where
  -- The table exists: one word of it changes.
  map_existing :
      pde_at s (virt / 4194304) % 2 ≡ 1
      → MappedPage phys virt flags s (record s {
        ram =
            store32 s.ram
              (pde_at s (virt / 4194304) / 4096 * 4096 + 4 * (virt / 4096 % 1024))
              (bit_or (bit_or phys flags) 1);
      })
  unfolding pde_at
  map_existing present = record {
    entry =
        get_pte-present virt after bytes
          (ap (λ n. n % 2) (dir_same (virt / 4194304) (omega arith)) ∙ present)
        ∙ ap (λ n. load32 after.ram (n / 4096 * 4096 + 4 * (virt / 4096 % 1024)))
            (dir_same (virt / 4194304) (omega arith))
        ∙ load32-store32_self s.ram at entry (entry-lt phys flags pl fl);
    others = λ v lt ne.
        get_pte_same v s after inv.bytes bytes (dir_same (v / 4194304) (omega arith)) λ p.
          load32-store32_apart s.ram at _ entry (
            word_apart _ _ (v / 4096 % 1024) (virt / 4096 % 1024) (omega arith) (omega arith)
              (pages_apart s v virt inv lt vl ne p present));
    valid = IsPaging-ram after.ram inv bytes dir_same;
    table = inl (dir_same (virt / 4194304) (omega arith));
  }
    where
      entry : ℕ
      entry = bit_or (bit_or phys flags) 1

      at : ℕ
      at = pde_at s (virt / 4194304) / 4096 * 4096 + 4 * (virt / 4096 % 1024)

      after : Machine
      after = record s { ram = store32 s.ram at entry }

      bytes : IsRam after.ram
      bytes = store32-IsRam s.ram at entry inv.bytes

      dir_same : (i : ℕ) → i < 1024 → pde_at after i ≡ pde_at s i
      dir_same i h =
          load32-store32_apart s.ram at (s.page_direc + 4 * i) entry
            (omega (arith, inv.dir_at, inv.table_ne_dir (virt / 4194304) (omega arith) present))

-- The table does not exist: a frame that was free becomes the table.
module _ (phys virt flags : ℕ) {s : Machine} (inv : IsPaging s) (pl : phys < 4294967296)
    (vl : virt < 4294967296) (fl : flags < 4294967296) (absent : pde_at s (virt / 4194304) % 2 ≡ 0)
    {addr : ℕ} {memory : Memory} (a : Allocated s.memory addr memory) where
  new_at : ℕ
  new_at = s.page_direc + 4 * (virt / 4194304)

  new_machine : Machine
  new_machine = record s {
    memory = memory;
    ram = install s.ram new_at a.frame (virt / 4096 % 1024) (bit_or (bit_or phys flags) 1);
  }

  frame_in : a.frame < frame_limit
  frame_in = omega (arith, a.below, inv.memory.covered)

  -- The new frame was free, the directory and the tables are in use.
  ne_used : (g : ℕ) → frame_bit s.memory.mem_bitmap g ≡ 1 → g ≢ a.frame
  ne_used g used e = omega (arith, used, a.was_free, ap (frame_bit s.memory.mem_bitmap) e)

  new-Installed :
      Installed s.ram new_at a.frame
        (virt / 4096 % 1024)
        (bit_or (bit_or phys flags) 1)
        new_machine.ram
  unfolding new_machine new_at
  new-Installed =
      install_lem s.ram new_at a.frame (virt / 4096 % 1024) (bit_or (bit_or phys flags) 1) inv.bytes
        (omega (arith, inv.dir_at, ne_used inv.dir inv.dir_used)) (omega (arith, frame_in))
        (omega arith) (entry-lt phys flags pl fl)

  pde_new : pde_at new_machine (virt / 4194304) ≡ a.frame * 4096 + 7
  unfolding pde_at new_machine new_at
  pde_new = new-Installed.pde

  pde_other : (i : ℕ) → i < 1024 → i ≢ virt / 4194304 → pde_at new_machine i ≡ pde_at s i
  unfolding pde_at new_machine new_at
  pde_other i h ne =
      new-Installed.rest (s.page_direc + 4 * i)
        (omega (arith, inv.dir_at, ne_used inv.dir inv.dir_used)) (omega arith)

  -- What a directory entry of the new machine is.
  pde_cases :
      (i : ℕ)
      → i < 1024
      → pde_at new_machine i % 2 ≡ 1
      → ((i ≡ virt / 4194304) × (pde_at new_machine i / 4096 ≡ a.frame))
        ⊎ ((pde_at s i % 2 ≡ 1) × (pde_at new_machine i / 4096 ≡ pde_at s i / 4096))
  pde_cases i h p = elim (ℕ_discrete i (virt / 4194304)) [
    | yes e ↦ inl (e, omega (arith, pde_new, ap (pde_at new_machine) e))
    | no ne ↦ inr (omega (arith, pde_other i h ne), omega (arith, pde_other i h ne))
  ]

  new-IsPaging : IsPaging new_machine
  unfolding new_machine
  new-IsPaging = record {
    memory = Allocated-IsMemory inv.memory a;
    bytes = new-Installed.bytes;
    dir = inv.dir;
    dir_at = inv.dir_at;
    dir_in = inv.dir_in;
    dir_used = a.taken.rest inv.dir (ne_used inv.dir inv.dir_used) ∙ inv.dir_used;
    table_in = λ i h p. elim (pde_cases i h p) [
      | inl (e, new) ↦ omega (arith, new, frame_in)
      | inr (q, old) ↦ omega (arith, old, inv.table_in i h q)
    ];
    table_used = λ i h p. elim (pde_cases i h p) [
      | inl (e, new) ↦ rw new a.taken.at
      | inr (q, old) ↦ rw old (
          a.taken.rest (pde_at s i / 4096) (ne_used (pde_at s i / 4096) (inv.table_used i h q))
          ∙ inv.table_used i h q)
    ];
    table_ne_dir = λ i h p. elim (pde_cases i h p) [
      | inl (e, new) ↦ omega (arith, new, ne_used inv.dir inv.dir_used)
      | inr (q, old) ↦ omega (arith, old, inv.table_ne_dir i h q)
    ];
    tables_ne = λ i j h k p q ne. distinct i j h k ne (pde_cases i h p) (pde_cases j k q);
  }
    where
      distinct :
          (i j : ℕ)
          → i < 1024
          → j < 1024
          → i ≢ j
          → ((i ≡ virt / 4194304) × (pde_at new_machine i / 4096 ≡ a.frame))
            ⊎ ((pde_at s i % 2 ≡ 1) × (pde_at new_machine i / 4096 ≡ pde_at s i / 4096))
          → ((j ≡ virt / 4194304) × (pde_at new_machine j / 4096 ≡ a.frame))
            ⊎ ((pde_at s j % 2 ≡ 1) × (pde_at new_machine j / 4096 ≡ pde_at s j / 4096))
          → pde_at new_machine i / 4096 ≢ pde_at new_machine j / 4096
      distinct i j h k ne (inl (e, new)) (inl (e', new')) = absurd (ne (omega arith))
      distinct i j h k ne (inl (e, new)) (inr (q, old)) =
          omega (arith, new, old, ne_used (pde_at s j / 4096) (inv.table_used j k q))
      distinct i j h k ne (inr (q, old)) (inl (e, new)) =
          omega (arith, new, old, ne_used (pde_at s i / 4096) (inv.table_used i h q))
      distinct i j h k ne (inr (q, old)) (inr (q', old')) =
          omega (arith, old, old', inv.tables_ne i j h k q q' ne)

  new_odd : pde_at new_machine (virt / 4194304) % 2 ≡ 1
  new_odd = omega (arith, pde_new)

  new_frame : pde_at new_machine (virt / 4194304) / 4096 ≡ a.frame
  new_frame = omega (arith, pde_new)

  new_entry : get_pte virt new_machine ≡ bit_or (bit_or phys flags) 1
  new_entry =
      get_pte-present virt new_machine new-Installed.bytes new_odd
      ∙ ap (λ n. load32 new_machine.ram (n * 4096 + 4 * (virt / 4096 % 1024))) new_frame
      ∙ new-Installed.word

  -- A page of the same table: it had no entry, and its word has been cleared.
  new_same_table :
      (v : ℕ)
      → v / 4096 ≢ virt / 4096
      → v / 4194304 ≡ virt / 4194304
      → get_pte v new_machine ≡ get_pte v s
  new_same_table v ne e =
      get_pte-present v new_machine new-Installed.bytes (rw e new_odd)
      ∙ ap (λ n. load32 new_machine.ram (n * 4096 + 4 * (v / 4096 % 1024))) (rw e new_frame)
      ∙ new-Installed.cleared (v / 4096 % 1024) (omega arith) (omega arith)
      ∙ sym (get_pte-absent v s (rw e absent))

  new_other_table :
      (v : ℕ) → v < 4294967296 → v / 4194304 ≢ virt / 4194304 → get_pte v new_machine ≡ get_pte v s
  unfolding new_at
  new_other_table v lt ne =
      get_pte_same v s new_machine inv.bytes new-Installed.bytes
        (pde_other (v / 4194304) (omega arith) ne)
        λ p.
          new-Installed.rest (pde_at s (v / 4194304) / 4096 * 4096 + 4 * (v / 4096 % 1024))
            (omega (
              arith,
              ne_used (pde_at s (v / 4194304) / 4096)
                  (inv.table_used (v / 4194304) (omega arith) p),
            ))
            (omega (arith, inv.dir_at, inv.table_ne_dir (v / 4194304) (omega arith) p))

  map_new : MappedPage phys virt flags s new_machine
  map_new = record {
    entry = new_entry;
    others = λ v lt ne. elim (ℕ_discrete (v / 4194304) (virt / 4194304)) [
      | yes e ↦ new_same_table v ne e
      | no other ↦ new_other_table v lt other
    ];
    valid = new-IsPaging;
    table = inr (absent, ap (frame_bit s.memory.mem_bitmap) new_frame ∙ a.was_free);
  }

-- What `map_page` can do: map the page, or, when the page has no table and no frame is free,
-- nothing at all.
abbrev pub MapResult : ℕ → ℕ → ℕ → Machine → Machine → Type 0
MapResult phys virt flags s s' =
    MappedPage phys virt flags s s'
    ⊎ ((s' ≡ s) × (pde_at s (virt / 4194304) % 2 ≡ 0) × Exhausted s.memory)

-- `map_page` gives the page of `virtual_addr` the entry `physical_addr | flags | 1` and leaves
-- the entry of every other page as it was, or it changes nothing for want of a free frame. The
-- invariant holds afterwards; and the page's table is the one that was there, or, where there was none,
-- lies on a frame that was free.
pub map_page_lem :
    (phys virt flags : ℕ) {s : Machine}
    → IsPaging s
    → phys < 4294967296
    → virt < 4294967296
    → flags < 4294967296
    → Returns (MapResult phys virt flags s) (map_page phys virt flags s)
unfolding map_page pd_index new_machine new_at install
map_page_lem phys virt flags {s} inv pl vl fl = elim (odd_or_even (pde_at s (virt / 4194304))) [
  | inr present ↦
      rw
        (
          present_bit (pde_at s (virt / 4194304)),
          present,
          page_mask (pde_at s (virt / 4194304)) (pde-lt s inv.bytes (virt / 4194304)),
          pt_index_lem virt,
        )
        (returns (inl (map_existing phys virt flags inv pl vl fl present)))
  | inl absent ↦
      rw (present_bit (pde_at s (virt / 4194304)), absent, pt_index_lem virt)
        (Returns-bind (pmm_alloc_block_lem inv.memory.bitmap) λ (addr, memory) r. elim r [
          | inl a ↦
              rw (ne→== addr 0 (nonzero addr memory a), a.address)
                (returns (inl (map_new phys virt flags inv pl vl fl absent a)))
          | inr (z, same, none_free) ↦ rw (z, same) (returns (inr (refl, absent, none_free)))
        ])
]
  where
    nonzero : (addr : ℕ) (memory : Memory) → Allocated s.memory addr memory → addr ≢ 0
    nonzero addr memory a = omega (arith, a.address, frame_ne_zero inv.memory a)
