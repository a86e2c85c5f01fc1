-- ===== src/Kernel/Gates.antt =====
-- src/kernel.c: the interrupt table that `kernel_main` builds.
use cindy_os.Base.{
  ℕ, zero, suc, ◌+◌, ◌*◌, ◌≤◌, ◌<◌, ◌≡◌, ◌≢◌, ◌⊎◌, refl, ◌∙◌, inl, inr, arith, lt_or_le,
}
use native.Mathlib.Decide.{ℕ_discrete}
use cindy_os.Descriptors.{Idt, IdtEntry, idt_set_gate}
use cindy_os.Descriptors.Encoding.{Gate, idt_set_gate_lem}
use cindy_os.Kernel.{set_exceptions, set_interrupts}

-- An entry that sends its interrupt to `base`, in the kernel's code segment.
pub record EntersAt (base flags : ℕ) (e : IdtEntry) : Type 0 where
  pub offset : e.base_low + e.base_high * 65536 ≡ base
  pub segment : e.selector ≡ 0x08
  pub kind : e.flags ≡ flags
  pub reserved : e.always_zero ≡ 0

Gate-EntersAt :
    {num base flags : ℕ} {t t' : Idt}
    → Gate num base 0x08 flags t t'
    → EntersAt base flags (t'.idt num)
Gate-EntersAt g = record {
  offset = g.offset;
  segment = g.segment;
  kind = g.kind;
  reserved = g.reserved;
}

module _ (isr : ℕ → ℕ) (small : (n : ℕ) → isr n < 4294967296) where
  -- A call of `idt_set_gate` on a table that already has gate `i`.
  gate_kept :
      {num base flags' : ℕ} (flags : ℕ) (t : Idt) (i : ℕ)
      → base < 4294967296
      → i ≢ num
      → EntersAt (isr i) flags' (t.idt i)
      → EntersAt (isr i) flags' ((idt_set_gate num base 0x08 flags t).idt i)
  gate_kept {num} {base} {flags'} flags t i lt ne e =
      rw ((idt_set_gate_lem num base 0x08 flags t lt).others i ne) e

  set_exceptions-others :
      (count n : ℕ) (t : Idt) (i : ℕ)
      → (i < n) ⊎ (n + count ≤ i)
      → (set_exceptions count n isr t).idt i ≡ t.idt i
  unfolding set_exceptions
  set_exceptions-others zero n t i o = refl
  set_exceptions-others (suc count) n t i o =
      set_exceptions-others count (n + 1) _ i (omega (arith, o))
      ∙ (idt_set_gate_lem n (isr n) 0x08 0x8E t (small n)).others i (omega (arith, o))

  set_exceptions_lem :
      (count n : ℕ) (t : Idt) (i : ℕ)
      → n ≤ i
      → i < n + count
      → EntersAt (isr i) 0x8E ((set_exceptions count n isr t).idt i)
  unfolding set_exceptions
  set_exceptions_lem zero n t i le lt = absurd (omega arith)
  set_exceptions_lem (suc count) n t i le lt = elim (ℕ_discrete i n) [
    | yes e ↦ rw e (
        rw
          (set_exceptions-others count (n + 1) (idt_set_gate n (isr n) 0x08 0x8E t) n
            (inl (omega arith)))
          (Gate-EntersAt (idt_set_gate_lem n (isr n) 0x08 0x8E t (small n))))
    | no ne ↦ set_exceptions_lem count (n + 1) _ i (omega (arith, ne)) (omega arith)
  ]

set_exceptions-loaded :
    (isr : ℕ → ℕ)
    → ((n : ℕ) → isr n < 4294967296)
    → (count n : ℕ) (t : Idt) → (set_exceptions count n isr t).loaded ≡ t.loaded
unfolding set_exceptions
set_exceptions-loaded isr small zero n t = refl
set_exceptions-loaded isr small (suc count) n t =
    set_exceptions-loaded isr small count (n + 1) _
    ∙ (idt_set_gate_lem n (isr n) 0x08 0x8E t (small n)).same_register

-- The flags: ring 0, but for the system calls.
abbrev pub Gates : (ℕ → ℕ) → Idt → Idt → Type 0
Gates isr t t' =
    ((i : ℕ) → i < 34 → EntersAt (isr i) 0x8E (t'.idt i))
    × EntersAt (isr 128) 0xEE (t'.idt 128)
    × ((i : ℕ) → 34 ≤ i → i ≢ 128 → t'.idt i ≡ t.idt i)

-- After the gates of `kernel_main` each exception, the timer and the keyboard enter their own
-- routine of isr.asm, in the kernel's code segment and only from ring 0; interrupt 128 may come from user
-- mode too; every other gate is as it was.
pub set_interrupts_lem :
    (isr : ℕ → ℕ) (t : Idt)
    → ((n : ℕ) → isr n < 4294967296)
    → let t' = set_interrupts isr (set_exceptions 32 0 isr t) in
      Gates isr t t' × (t'.loaded ≡ t.loaded)
unfolding set_interrupts
set_interrupts_lem isr t small = (
  (
    λ i h. elim (lt_or_le i 32) [
      | inl lt ↦ gate_kept isr small 0xEE _ i (small 128) (omega arith) (
          gate_kept isr small 0x8E _ i (small 33) (omega arith) (
            gate_kept isr small 0x8E _ i (small 32) (omega arith)
              (set_exceptions_lem isr small 32 0 t i (omega arith) (omega arith))))
      | inr ge ↦ gate_kept isr small 0xEE _ i (small 128) (omega arith) (elim (ℕ_discrete i 33) [
        | yes e ↦ rw e (Gate-EntersAt (idt_set_gate_lem 33 (isr 33) 0x08 0x8E _ (small 33)))
        | no ne ↦
            let e : i ≡ 32 = omega (arith, ne) in
            gate_kept isr small 0x8E _ i (small 33) ne
              (rw e (Gate-EntersAt (idt_set_gate_lem 32 (isr 32) 0x08 0x8E _ (small 32))))
      ])
    ],
    Gate-EntersAt (idt_set_gate_lem 128 (isr 128) 0x08 0xEE _ (small 128)),
    λ i le ne.
        (idt_set_gate_lem 128 (isr 128) 0x08 0xEE _ (small 128)).others i ne
        ∙ ((idt_set_gate_lem 33 (isr 33) 0x08 0x8E _ (small 33)).others i (omega arith)
            ∙ ((idt_set_gate_lem 32 (isr 32) 0x08 0x8E _ (small 32)).others i (omega arith)
                ∙ set_exceptions-others isr small 32 0 t i (inr (omega arith)))),
  ),
  (idt_set_gate_lem 128 (isr 128) 0x08 0xEE _ (small 128)).same_register
      ∙ ((idt_set_gate_lem 33 (isr 33) 0x08 0x8E _ (small 33)).same_register
          ∙ ((idt_set_gate_lem 32 (isr 32) 0x08 0x8E _ (small 32)).same_register
              ∙ set_exceptions-loaded isr small 32 0 t)),
)
