-- ===== src/Elf/Pages.antt =====
-- src/keyboard.c: the pages of a segment are mapped, and no page outside it changes.
use cindy_os.Base.{
  ℕ, zero, suc, ◌+◌, ◌*◌, ◌/◌, ◌%◌, ◌≤◌, ◌<◌, ◌≡◌, ◌≢◌, ◌⊎◌, refl, ap, ◌∙◌, inl, inr, arith,
  bit_and, bit_or, ◌==◌, Bool, true, false, add32, Returns, returns, Returns-bind, Returns-mono,
  Bool-cases, lt_or_le, ne→==, lt→ltb, le→ltb-false, sym, subst, Run, ok, ◌>>=◌, if◌then◌else◌,
}
use cindy_os.Base.Bits.{bit_and_mask, or_one_odd}
use cindy_os.Memory.{Memory, pmm_alloc_block}
use cindy_os.Memory.Frames.{frame_bit}
use cindy_os.Memory.Alloc.{
  IsMemory, Allocated, Exhausted, pmm_alloc_block_lem, Allocated-IsMemory, frame_ne_zero,
}
use cindy_os.Paging.{Machine, pde_at, get_pte, map_page}
use cindy_os.Paging.Tables.{IsPaging}
use cindy_os.Paging.User.{get_pte-page}
use cindy_os.Paging.Map.{MapResult, map_page_lem}
use cindy_os.Elf.{map_pages}

-- A frame taken from the allocator is none of those of the page tables.
IsPaging-alloc :
    {s : Machine} {addr : ℕ} {memory : Memory}
    → IsPaging s
    → Allocated s.memory addr memory
    → IsPaging (record s { memory = memory })
unfolding pde_at
IsPaging-alloc {s} {addr} {memory} inv a = record {
  memory = Allocated-IsMemory inv.memory a;
  bytes = inv.bytes;
  dir = inv.dir;
  dir_at = inv.dir_at;
  dir_in = inv.dir_in;
  dir_used = still inv.dir inv.dir_used;
  table_in = inv.table_in;
  table_used = λ i h p. still (pde_at s i / 4096) (inv.table_used i h p);
  table_ne_dir = inv.table_ne_dir;
  tables_ne = inv.tables_ne;
}
  where
    still : (g : ℕ) → frame_bit s.memory.mem_bitmap g ≡ 1 → frame_bit memory.mem_bitmap g ≡ 1
    still g used =
        a.taken.rest g (λ e. omega (arith, used, a.was_free, ap (frame_bit s.memory.mem_bitmap) e))
        ∙ used

-- What the loop does: the pages that are not in the region keep their entries, and either every page
-- of the region is present at the end, or no frame is free any more.
pub record Mapped (start stop : ℕ) (s : Machine) (done : Bool) (s' : Machine) : Type 0 where
  pub valid : IsPaging s'
  pub others :
      (v : ℕ)
      → v < 4294967296
      → (v / 4096 * 4096 + 4096 ≤ start) ⊎ (stop ≤ v / 4096 * 4096)
      → get_pte v s' ≡ get_pte v s
  pub spent : Exhausted s.memory → Exhausted s'.memory
  pub result :
      ((done ≡ true) × ((v : ℕ) → start ≤ v → v < stop → get_pte v s' % 2 ≡ 1))
      ⊎ Exhausted s'.memory

-- No frame is allocated once none is free.
spent_alloc : {m m' : Memory} {addr : ℕ} → IsMemory m → Exhausted m → Allocated m addr m' → ⊥
spent_alloc i ex a =
    omega (arith, ex a.frame a.below (omega (arith, a.below, i.covered)), a.was_free)

-- The page at `start` is present, and the pages behind it are mapped.
Mapped-cons :
    {s s₁ s' : Machine} {done : Bool} (start stop : ℕ)
    → start % 4096 ≡ 0
    → start < stop
    → stop < 4294967296
    → get_pte start s₁ % 2 ≡ 1
    → ((v : ℕ) → v < 4294967296 → v / 4096 ≢ start / 4096 → get_pte v s₁ ≡ get_pte v s)
    → (Exhausted s.memory → Exhausted s₁.memory)
    → Mapped (start + 4096) stop s₁ done s'
    → Mapped start stop s done s'
Mapped-cons {s} {s₁} {s'} {done} start stop aligned lt small present others spent m = record {
  valid = m.valid;
  others = λ v h o. m.others v h (omega arith) ∙ others v h (omega arith);
  spent = λ e. m.spent (spent e);
  result = elim m.result [
    | inr none_free ↦ inr none_free
    | inl (e, all) ↦ inl (
      e,
      λ v p q. elim (lt_or_le v (start + 4096)) [
        | inr ge ↦ all v ge q
        | inl near ↦
            ap (λ n. n % 2)
              (m.others v (omega arith) (inl (omega arith)) ∙ get_pte-page v start s₁ (omega arith))
            ∙ present
      ],
    )
  ];
}

-- The allocator's state is not in the tables.
get_pte-memory :
    (v : ℕ) (s : Machine) (m : Memory) → get_pte v (record s { memory = m }) ≡ get_pte v s
unfolding get_pte pde_at
get_pte-memory v s m = refl

-- The invariant holds after `map_page`, whether it found a frame or not.
MapResult-IsPaging :
    {phys virt flags : ℕ} {s s₁ : Machine}
    → IsPaging s
    → MapResult phys virt flags s s₁
    → IsPaging s₁
MapResult-IsPaging inv (inl m) = m.valid
MapResult-IsPaging inv (inr (same, no_table, none_free)) = subst IsPaging (sym same) inv

-- The loop stops where there is no free frame.
Mapped-stop :
    {s : Machine} {done : Bool} (start stop : ℕ)
    → IsPaging s
    → Exhausted s.memory
    → Mapped start stop s done s
Mapped-stop start stop inv none_free = record {
  valid = inv;
  others = λ v h o. refl;
  spent = λ e. none_free;
  result = inr none_free;
}

module _ (start stop : ℕ) {s : Machine} (inv : IsPaging s) (aligned : start % 4096 ≡ 0)
    (lt : start < stop) (small : stop < 4294967296) where
  is_present : (bit_and (get_pte start s) 1 == 0) ≡ false → get_pte start s % 2 ≡ 1
  is_present e = ground (arith, bit_and_mask 1 (get_pte start s))

  -- The page at `start` is mapped to a new frame, or there was no frame for its table.
  Mapped-map_page :
      {phys : ℕ} {memory : Memory} {s₁ s' : Machine} {done : Bool}
      → Allocated s.memory phys memory
      → MapResult phys start 7 (record s { memory = memory }) s₁
      → Mapped (start + 4096) stop s₁ done s'
      → Mapped start stop s done s'
  Mapped-map_page {phys} {memory} a (inl m) rest =
      Mapped-cons start stop aligned lt small (ap (λ n. n % 2) m.entry ∙ or_one_odd (bit_or phys 7))
        (λ v h ne. m.others v h ne ∙ get_pte-memory v s memory)
        (λ ex. absurd (spent_alloc inv.memory ex a)) rest
  Mapped-map_page {phys} {memory} {s₁} a (inr (same, no_table, none_free)) rest = record {
    valid = rest.valid;
    others =
        λ v h o. rest.others v h (omega arith) ∙ (ap (get_pte v) same ∙ get_pte-memory v s memory);
    spent = λ ex. absurd (spent_alloc inv.memory ex a);
    result = inr (rest.spent (subst (λ t. Exhausted t.memory) (sym same) none_free));
  }

  -- A page that is not present: a frame is taken and mapped, and the loop goes on.
  absent_page :
      (rest : Machine → Run (Bool × Machine))
      → ((s₁ : Machine)
          → IsPaging s₁
          → Returns (λ (done, s'). Mapped (start + 4096) stop s₁ done s') (rest s₁))
      → Returns
          (λ (done, s'). Mapped start stop s done s')
          (do
            (phys, memory) ← pmm_alloc_block s.memory
            let taken : Machine = record s { memory = memory }
            let mapped : Run (Bool × Machine) = map_page phys start 7 taken >>= rest
            if phys == 0 then ok (false, taken) else mapped)
  absent_page rest goes_on =
      Returns-bind (pmm_alloc_block_lem inv.memory.bitmap) λ (phys, memory) r. elim r [
        | inr (z, same, none_free) ↦ rw (z, same) (returns (Mapped-stop start stop inv none_free))
        | inl a ↦
            let nonzero : phys ≢ 0 = omega (arith, a.address, frame_ne_zero inv.memory a) in
            rw (ne→== phys 0 nonzero) (
              Returns-bind
                (map_page_lem phys start 7 (IsPaging-alloc inv a)
                  (omega (arith, a.address, a.below, inv.memory.covered)) (omega arith)
                  (omega arith))
                λ s₁ m.
                  Returns-mono (goes_on s₁ (MapResult-IsPaging (IsPaging-alloc inv a) m))
                    λ (done, s') mapped. Mapped-map_page a m mapped)
      ]

-- From an invariant state, on a region of whole pages: the loop ends; pages outside the region keep
-- their entries; the page tables stay well-formed; and either every page of the region is present
-- afterwards and the result says so, or there is no free frame left.
pub map_pages_lem :
    (fuel start stop : ℕ) (s : Machine)
    → IsPaging s
    → start % 4096 ≡ 0
    → stop % 4096 ≡ 0
    → start ≤ stop
    → stop < 4294967296
    → stop < start + 4096 * fuel
    → Returns (λ (done, s'). Mapped start stop s done s') (map_pages fuel start stop s)
unfolding map_pages
map_pages_lem zero start stop s inv al al' le small enough = absurd (omega arith)
map_pages_lem (suc fuel) start stop s inv al al' le small enough = elim (lt_or_le start stop) [
  | inr ge ↦ rw (le→ltb-false start stop ge) (
      returns (record {
        valid = inv;
        others = λ v h o. refl;
        spent = λ e. e;
        result = inl (refl, λ v p q. absurd (omega arith));
      }))
  | inl lt ↦
      let next : add32 start 4096 ≡ start + 4096 = omega arith in
      let goes_on = λ (s₁ : Machine) (inv₁ : IsPaging s₁).
        map_pages_lem fuel (start + 4096) stop s₁ inv₁ (omega arith) al' (omega arith) small
          (omega arith) in
      rw (lt→ltb start stop lt, next)
        (elim (Bool-cases (bit_and (get_pte start s) 1 == 0)) [
          | inl absent ↦
              rw absent (
                absent_page start stop inv al lt small (map_pages fuel (start + 4096) stop) goes_on)
          | inr present ↦ rw present (
              Returns-mono (goes_on s inv) λ (done, s') m.
                Mapped-cons start stop al lt small (is_present start stop inv al lt small present)
                  (λ v h ne. refl) (λ e. e) m)
        ])
]
