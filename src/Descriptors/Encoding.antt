-- ===== src/Descriptors/Encoding.antt =====
-- src/gdt.c and src/idt.c: what the processor reads back from the descriptors.
use cindy_os.Base.{
  ℕ, ◌+◌, ◌*◌, ◌/◌, ◌%◌, ◌<◌, ◌≡◌, ◌≢◌, refl, ap, ◌∙◌, true, ne→==, arith, ◌==◌, if◌then◌else◌,
  bit_and, bit_or,
}
use cindy_os.Base.Bits.{bit_and_mask, nibble_or}
use cindy_os.Descriptors.{
  Gdt, Idt, write_tss_descriptor, gdt_init_tss, tss_set_kernel_stack, idt_set_gate,
}

-- The i386's reading of a segment descriptor.
abbrev pub descriptor_base : (ℕ → ℕ) → ℕ
descriptor_base d = d 2 + d 3 * 256 + d 4 * 65536 + d 7 * 16777216

-- With the granularity bit, bit 7 of byte 6, the limit counts pages.
abbrev pub descriptor_limit : (ℕ → ℕ) → ℕ
descriptor_limit d =
    let limit = d 0 + d 1 * 256 + d 6 % 16 * 65536 in
    if d 6 / 128 == 0 then limit else limit * 4096 + 4095

-- Bit 7: present; bits 5 and 6: the privilege level; bits 0 to 4: an available 32-bit TSS is 9.
pub record DecodesTo (base limit : ℕ) (d : ℕ → ℕ) : Type 0 where
  pub same_base : descriptor_base d ≡ base
  pub same_limit : descriptor_limit d ≡ limit
  pub present : d 5 / 128 ≡ 1
  pub level : d 5 / 32 % 4 ≡ 0
  pub available_tss : d 5 % 32 ≡ 9
  pub bytes : (i : ℕ) → d i < 256

-- `write_tss_descriptor` encodes any base and any limit below 2 ^ 20 so that the processor reads
-- them back, of a present TSS for ring 0.
pub write_tss_descriptor_lem :
    (base limit : ℕ)
    → base < 4294967296
    → limit < 1048576
    → DecodesTo base limit (write_tss_descriptor base limit)
unfolding write_tss_descriptor
write_tss_descriptor_lem base limit small small' = record {
  same_base = omega (
    arith,
    bit_and_mask 8 base,
    bit_and_mask 8 (base / 256),
    bit_and_mask 8 (base / 65536),
    bit_and_mask 8 (base / 16777216),
  );
  same_limit = ground (arith, bit_and_mask 8 limit, bit_and_mask 8 (limit / 256), granularity);
  present = refl;
  level = refl;
  available_tss = refl;
  bytes = λ i. ground (
    arith,
    bit_and_mask 8 base,
    bit_and_mask 8 (base / 256),
    bit_and_mask 8 (base / 65536),
    bit_and_mask 8 (base / 16777216),
    bit_and_mask 8 limit,
    bit_and_mask 8 (limit / 256),
    granularity,
  );
}
  where
    granularity : bit_or (bit_and (limit / 65536) 0x0F) 0x40 ≡ limit / 65536 % 16 + 64
    granularity =
        ap (λ n. bit_or n 0x40) (bit_and_mask 4 (limit / 65536))
        ∙ nibble_or (limit / 65536 % 16) (omega arith)

-- What a call of `idt_set_gate` makes of the table.
pub record Gate (num base selector flags : ℕ) (t t' : Idt) : Type 0 where
  pub offset : (t'.idt num).base_low + (t'.idt num).base_high * 65536 ≡ base
  pub segment : (t'.idt num).selector ≡ selector
  pub kind : (t'.idt num).flags ≡ flags
  pub reserved : (t'.idt num).always_zero ≡ 0
  pub others : (i : ℕ) → i ≢ num → t'.idt i ≡ t.idt i
  pub same_register : t'.loaded ≡ t.loaded

-- The gate that `idt_set_gate` writes sends the interrupt to the handler's address, with the
-- selector and the flags given; every other gate stays.
pub idt_set_gate_lem :
    (num base selector flags : ℕ) (t : Idt)
    → base < 4294967296
    → Gate num base selector flags t (idt_set_gate num base selector flags t)
unfolding idt_set_gate
idt_set_gate_lem num base selector flags t small =
    let here = eq→== num in
    record {
      offset = rw here (omega (arith, bit_and_mask 16 base, bit_and_mask 16 (base / 65536)));
      segment = rw here;
      kind = rw here;
      reserved = rw here;
      others = λ i ne. rw (ne→== i num ne);
      same_register = refl;
    }
  where
    eq→== : (n : ℕ) → (n == n) ≡ true
    eq→== n = ground arith

-- After `gdt_init_tss` the task register selects a descriptor of the TSS at its address, 104
-- bytes long with no I/O bitmap, whose ring 0 stack is the one given; `tss_set_kernel_stack` then
-- changes that stack and leaves the descriptor.
pub gdt_init_tss_lem :
    (tss_addr top top' : ℕ) (g : Gdt)
    → tss_addr < 4294967296
    → let h = gdt_init_tss tss_addr top g in
      let h' = tss_set_kernel_stack top' h in
      DecodesTo tss_addr 103 h.gdt_tss
      × (h.tss.esp0 ≡ top)
      × (h.tss.ss0 ≡ 0x10)
      × (h.tss.iomap_base ≡ 104)
      × (h'.tss ≡ record (h.tss) { esp0 = top' })
      × (h'.gdt_tss ≡ h.gdt_tss)
      × (h.task_register ≡ 0x28)
unfolding gdt_init_tss tss_set_kernel_stack
gdt_init_tss_lem tss_addr top top' g small =
    (write_tss_descriptor_lem tss_addr 103 small (omega arith), refl, refl, refl, refl, refl, refl)
