-- ===== src/Devices.antt =====
-- src/ports.c, src/pic.c and src/timer.c: what is written to the ports, in order. What a port answers
-- is up to the device.
use cindy_os.Base.{
  ℕ, ◌+◌, ◌*◌, ◌/◌, ◌≤◌, ◌<◌, ◌≡◌, ◌==◌, ◌!=◌, if◌then◌else◌, List, [], ◌∷◌, ◌++◌, bit_and, add32,
  u8, ◌>>>◌, Run, ok, fault, Returns, returns, ap₂, ◌%◌, arith, ne→==,
}
use cindy_os.Base.Bits.{bit_and_mask}
use native.Mathlib.Nat.{div-lt_iff_lt-mul}

-- A port, and the byte that is sent to it.
abbrev pub Ports : Type 0
Ports = List (ℕ × ℕ)

unfoldable pub outb : ℕ → ℕ → Ports → Ports
outb port byte log = log ++ ((port, byte) ∷ [])

-- Both controllers are initialised; the timer and the keyboard stay unmasked.
unfoldable pub pic_remap : Ports → Ports
pic_remap log = outb 0xA1 0xFF (
    outb 0x21 0xFC (
      outb 0xA1 0x01 (
        outb 0x21 0x01 (
          outb 0xA1 0x02 (
            outb 0x21 0x04
              (outb 0xA1 0x28 (outb 0x21 0x20 (outb 0xA0 0x11 (outb 0x20 0x11 log)))))))))

-- The two bytes of the divisor, low byte first; a frequency of 0 is a division by 0.
unfoldable pub init_timer : ℕ → Ports → Run Ports
init_timer freq log =
    let divisor = 1193180 / freq in
    let low = u8 (bit_and divisor 0xFF) in
    let high = u8 (bit_and (divisor >>> 8) 0xFF) in
    if freq == 0 then fault else ok (outb 0x40 high (outb 0x40 low (outb 0x43 0x36 log)))

-- The counter of timer.c, and the flag of scheduler.c that it clears.
pub record Timer : Type 0 where
  pub timer_ticks : ℕ
  pub yield_flag : ℕ
  pub ports : Ports

unfoldable pub timer_handler : Timer → Timer
timer_handler t = record {
  timer_ticks = add32 t.timer_ticks 1;
  yield_flag = if t.yield_flag != 0 then 0 else t.yield_flag;
  ports = outb 0x20 0x20 t.ports;
}

-- From 19 Hz on the divisor fits the two bytes, which give it back; the rate is then the frequency
-- asked for, rounded up to what a divisor can give.
pub init_timer_lem :
    (freq : ℕ) (log : Ports)
    → 19 ≤ freq
    → Returns
        (λ log'.
          (low high : ℕ) × (log'
            ≡ ((log ++ ((0x43, 0x36) ∷ [])) ++ ((0x40, low) ∷ [])) ++ ((0x40, high) ∷ []))
          × (low + 256 * high ≡ 1193180 / freq))
        (init_timer freq log)
unfolding init_timer outb
init_timer_lem freq log h = rw (ne→== freq 0 (omega arith)) (
    returns (
      (1193180 / freq) % 256,
      1193180 / freq / 256,
      ap₂ (λ low high. ((log ++ ((0x43, 0x36) ∷ [])) ++ ((0x40, low) ∷ [])) ++ ((0x40, high) ∷ []))
          (omega (arith, bit_and_mask 8 (1193180 / freq)))
          (omega (arith, bit_and_mask 8 (1193180 / freq / 256), fits)),
      omega arith,
    ))
  where
    fits : 1193180 / freq < 65536
    fits = (div-lt_iff_lt-mul (omega arith)).1 (omega arith)
