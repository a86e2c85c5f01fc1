-- ===== src/Keyboard/Handler/Line.antt =====
-- src/keyboard.c: the line that is typed, as a list of characters.
use cindy_os.Base.{
  ℕ, zero, suc, ◌+◌, ◌-◌, ◌≤◌, ◌<◌, ◌≡◌, ◌≢◌, ◌⊎◌, inl, inr, refl, sym, ap, ◌∙◌, arith, ltb, ◌==◌,
  ◌!=◌, ◌&&◌, ◌||◌, if◌then◌else◌, List, [], ◌∷◌, ◌++◌, length, length-append, get_or, Bool, true,
  false, Bool-cases, Run, ok, Returns, returns, bit_and, subst, lt→ltb, ne→==,
}
use cindy_os.Base.Ram.{Ram, store8, store8_self, store8_ne}
use cindy_os.CString.Strings.{HoldsString}
use cindy_os.Paging.{Machine}
use cindy_os.Keyboard.{World}
use native.Mathlib.Decide.{ℕ_discrete}
use cindy_os.Keyboard.Handler.{
  kbd_us, kbd_us_shift, ascii_of, with_caps, erase, type_char, handle_keyboard_interrupt,
}

-- The line typed so far stands in the buffer, with zeros behind it up to the buffer's end.
pub record IsLine (input_buffer : ℕ) (line : List ℕ) (w : World) : Type 0 where
  pub held : HoldsString w.machine.ram input_buffer line
  pub index : w.buffer_index ≡ length line
  pub fits : length line ≤ 255
  pub zeros :
      (x : ℕ) → input_buffer + length line ≤ x → x < input_buffer + 256 → w.machine.ram x ≡ 0

-- What a key does to the line: nothing, its last character is taken away, or one is added.
pub data Edited : List ℕ → List ℕ → Type 0 where
  kept : (line : List ℕ) → Edited line line
  erased : (line : List ℕ) (c : ℕ) → Edited (line ++ (c ∷ [])) line
  typed : (line : List ℕ) (c : ℕ) → Edited line (line ++ (c ∷ []))

HoldsString-append :
    (m : Ram) (a e c : ℕ) (cs : List ℕ)
    → HoldsString m a cs
    → c ≢ 0
    → c < 256
    → e ≡ a + length cs
    → m (e + 1) ≡ 0
    → HoldsString (store8 m e c) a (cs ++ (c ∷ []))
HoldsString-append m a e c [] h ne byte at next = (
  ap (store8 m e c) (omega arith) ∙ (store8_self m e c ∙ omega arith),
  ne,
  byte,
  store8_ne m e c (a + 1) (omega arith) ∙ (ap m (omega arith) ∙ next),
)
HoldsString-append m a e c (d ∷ cs) h ne byte at next = (
  store8_ne m e c a (omega arith) ∙ h.0,
  h.1,
  h.2,
  HoldsString-append m (a + 1) e c cs h.3 ne byte (omega arith) next,
)

HoldsString-last :
    (m : Ram) (a e c : ℕ) (cs : List ℕ)
    → HoldsString m a (cs ++ (c ∷ []))
    → e ≡ a + length cs
    → HoldsString (store8 m e 0) a cs
HoldsString-last m a e c [] h at = ap (store8 m e 0) (omega arith) ∙ store8_self m e 0
HoldsString-last m a e c (d ∷ cs) h at = (
  store8_ne m e 0 a (omega arith) ∙ h.0,
  h.1,
  h.2,
  HoldsString-last m (a + 1) e c cs h.3 (omega arith),
)

-- A line is empty or has a last character.
last_char : (cs : List ℕ) → (cs ≡ []) ⊎ ((line : List ℕ) × (c : ℕ) × (cs ≡ line ++ (c ∷ [])))
last_char [] = inl refl
last_char (c ∷ cs) = elim (last_char cs) [
  | inl e ↦ inr ([], c, ap (λ x. c ∷ x) e)
  | inr (line, d, e) ↦ inr (c ∷ line, d, ap (λ x. c ∷ x) e)
]

type_char_lem :
    (input_buffer c : ℕ) (line : List ℕ) (w : World)
    → c ≢ 0
    → c < 256
    → IsLine input_buffer line w
    → (line' : List ℕ) × Edited line line' × IsLine input_buffer line' (type_char input_buffer c w)
unfolding type_char
type_char_lem input_buffer c line w ne byte i = elim (Bool-cases (ltb w.buffer_index 255)) [
  | inr full ↦ (line, kept line, rw full i)
  | inl room ↦ (
    line ++ (c ∷ []),
    typed line c,
    rw room (record {
      held =
          HoldsString-append w.machine.ram input_buffer (input_buffer + w.buffer_index) c line
            i.held ne byte (omega (arith, i.index))
            (i.zeros _ (omega (arith, i.index)) (ground (arith, i.index)));
      index = omega (arith, i.index, longer);
      fits = ground (arith, i.index, longer, room);
      zeros = λ x p q.
          store8_ne w.machine.ram (input_buffer + w.buffer_index) c x
            (omega (arith, i.index, longer))
          ∙ i.zeros x (omega (arith, longer)) q;
    }),
  )
]
  where
    longer : length (line ++ (c ∷ [])) ≡ length line + 1
    longer = length-append line (c ∷ [])

erase_lem :
    (input_buffer : ℕ) (line : List ℕ) (w : World)
    → IsLine input_buffer line w
    → (line' : List ℕ) × Edited line line' × IsLine input_buffer line' (erase input_buffer w)
unfolding erase
erase_lem input_buffer line w i = elim (last_char line) [
  | inl e ↦ (line, kept line, rw (none_left e) i)
  | inr (before, c, e) ↦ (
    before,
    subst (λ l. Edited l before) (sym e) (erased before c),
    rw (some_left before c e) (record {
      held =
          HoldsString-last w.machine.ram input_buffer _ c before
            (subst (HoldsString w.machine.ram input_buffer) e i.held)
            (omega (arith, i.index, size before c e));
      index = omega (arith, i.index, size before c e);
      fits = omega (arith, i.fits, size before c e);
      zeros = λ x p q. elim (ℕ_discrete x (input_buffer + (w.buffer_index - 1))) [
        | yes at ↦ ap (store8 w.machine.ram _ 0) at ∙ store8_self w.machine.ram _ 0
        | no other ↦
            store8_ne w.machine.ram _ 0 x other
            ∙ i.zeros x (omega (arith, i.index, size before c e, other)) q
      ];
    }),
  )
]
  where
    size : (before : List ℕ) (c : ℕ) → line ≡ before ++ (c ∷ []) → length line ≡ length before + 1
    size before c e = ap length e ∙ length-append before (c ∷ [])

    none_left : line ≡ [] → ltb 0 w.buffer_index ≡ false
    none_left e = ground (arith, i.index, ap length e)

    some_left : (before : List ℕ) (c : ℕ) → line ≡ before ++ (c ∷ []) → ltb 0 w.buffer_index ≡ true
    some_left before c e = lt→ltb 0 w.buffer_index (omega (arith, i.index, size before c e))

-- Every entry of the keyboard's tables is a byte.
all_bytes : List ℕ → Bool
all_bytes [] = true
all_bytes (c ∷ cs) = ltb c 128 && all_bytes cs

get_or-byte : (cs : List ℕ) (n : ℕ) → all_bytes cs ≡ true → get_or cs n 0 < 128
unfolding all_bytes
get_or-byte [] n h = omega arith
get_or-byte (c ∷ cs) zero h = ground arith
get_or-byte (c ∷ cs) (suc n) h = get_or-byte cs n (ground arith)

ascii_of-byte : (scancode : ℕ) (w : World) → ascii_of scancode w < 128
unfolding ascii_of all_bytes kbd_us kbd_us_shift
ascii_of-byte scancode w = elim (Bool-cases (w.shift_pressed != 0)) [
  | inl shift ↦ rw shift (get_or-byte kbd_us_shift scancode refl)
  | inr none ↦ rw none (get_or-byte kbd_us scancode refl)
]

with_caps-byte :
    (caps ascii : ℕ)
    → ascii ≢ 0
    → ascii < 128
    → (with_caps caps ascii ≢ 0) × (with_caps caps ascii < 256)
unfolding with_caps
with_caps-byte caps ascii ne small = (λ e. ground arith, ground arith)

-- Both branches of a test return.
Returns-if :
    {P : World → Type 0} {x y : Run World} (b : Bool)
    → Returns P x
    → (b ≡ false → Returns P y)
    → Returns P (if b then x else y)
Returns-if true p q = p
Returns-if false p q = q refl

module _ (cpu_read : Machine → ℕ → ℕ) (cpu_write : Machine → ℕ → ℕ → Machine)
    (jump_to_usermode : ℕ → ℕ → World → Run World) (fuel input_buffer : ℕ) where
  -- For every scan code but that of Enter, `handle_keyboard_interrupt` returns, and the line that
  -- stands in the buffer afterwards is the one before, that without its last character, or that with
  -- one character more; it always has room for the 0 at its end.
  pub handle_keyboard_interrupt_lem :
      (scancode : ℕ) (line : List ℕ) (w : World)
      → ascii_of scancode w ≢ b'\n'
      → IsLine input_buffer line w
      → Returns
          (λ w'. (line' : List ℕ) × Edited line line' × IsLine input_buffer line' w')
          (handle_keyboard_interrupt cpu_read cpu_write jump_to_usermode fuel input_buffer scancode
            w)
  unfolding handle_keyboard_interrupt
  handle_keyboard_interrupt_lem scancode line w no_enter i =
      rw (ne→== (ascii_of scancode w) b'\n' no_enter) (
        Returns-if (scancode == 0x2A || scancode == 0x36) (same_line _ refl refl) λ _.
          Returns-if (scancode == 0xAA || scancode == 0xB6) (same_line _ refl refl) λ _.
            Returns-if (scancode == 0x3A) (same_line _ refl refl) λ _.
              Returns-if (bit_and scancode 0x80 != 0) (same_line _ refl refl) λ _.
                Returns-if (ascii_of scancode w == 8) (returns (erase_lem input_buffer line w i))
                  λ _. elim (Bool-cases (ascii_of scancode w != 0)) [
                    | inr none ↦ rw none (same_line _ refl refl)
                    | inl some ↦
                        let byte =
                          with_caps-byte w.caps (ascii_of scancode w) (λ e. ground arith)
                            (ascii_of-byte scancode w) in
                        rw some (returns (type_char_lem input_buffer _ line w byte.0 byte.1 i))
                  ])
    where
      same_line :
          (w' : World)
          → w'.machine.ram ≡ w.machine.ram
          → w'.buffer_index ≡ w.buffer_index
          → Returns
              (λ w₁. (line' : List ℕ) × Edited line line' × IsLine input_buffer line' w₁)
              (ok w')
      same_line w' ram index = returns (
        line,
        kept line,
        record {
          held = subst (λ m. HoldsString m input_buffer line) (sym ram) i.held;
          index = index ∙ i.index;
          fits = i.fits;
          zeros = λ x p q. ap (λ m. m x) ram ∙ i.zeros x p q;
        },
      )
