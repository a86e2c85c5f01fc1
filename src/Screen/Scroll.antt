-- ===== src/Screen/Scroll.antt =====
-- src/screen.c: what `scroll_screen` leaves on the screen.
use cindy_os.Base.{
  ℕ, zero, suc, ◌+◌, ◌-◌, ◌*◌, ◌%◌, ◌≤◌, ◌<◌, ◌≡◌, ◌≢◌, ◌⊎◌, inl, inr, refl, sym, ap, subst₂, ◌∙◌,
  arith, ◌==◌, if◌then◌else◌, lt_or_le,
}
use native.Mathlib.Decide.{ℕ_discrete}
use cindy_os.Base.Ram.{Ram, store8}
use cindy_os.Screen.{
  clear_cells, clear_screen, Screen, copy_cells, copy_rows, blank_cells, scroll_screen,
}

-- Every byte of the screen is a byte.
abbrev pub IsVideo : Ram → Type 0
IsVideo video = (x : ℕ) → video x < 256

-- The bytes from `lo` up to `hi` come from 160 places further on, the others are the old ones.
abbrev Moved : ℕ → ℕ → Ram → Ram → Type 0
Moved lo hi before after =
    (x : ℕ)
    → (lo ≤ x → x < hi → after x ≡ before (x + 160)) × ((x < lo) ⊎ (hi ≤ x) → after x ≡ before x)

move_one :
    (a : ℕ) (video : Ram)
    → IsVideo video
    → Moved a (a + 2) video (
        store8
          (store8 video a (video (a + 160)))
          (a + 1)
          (store8 video a (video (a + 160)) (a + 160 + 1)))
unfolding store8
move_one a video b x = (
  λ p q. elim (ℕ_discrete x a) [
    | yes e ↦ rw e (ground (arith, b (a + 160)))
    | no ne ↦ rw (next p q ne) (ground (arith, b (a + 160 + 1), ap video (shift a)))
  ],
  λ o. ground arith,
)
  where
    next : a ≤ x → x < a + 2 → x ≢ a → x ≡ a + 1
    next p q ne = omega arith

    shift : (n : ℕ) → n + 160 + 1 ≡ n + 1 + 160
    shift n = omega arith

pub store8-IsVideo : (video : Ram) (a v : ℕ) → IsVideo video → IsVideo (store8 video a v)
unfolding store8
store8-IsVideo video a v b x = ground (arith, b x)

Moved-trans :
    {lo mid hi : ℕ} {u v w : Ram}
    → lo ≤ mid
    → mid ≤ hi
    → Moved lo mid u v
    → Moved mid hi v w
    → Moved lo hi u w
Moved-trans {lo} {mid} {hi} p q f g x = (
  λ a b. elim (lt_or_le x mid) [
    | inl lt ↦ (g x).1 (inl lt) ∙ (f x).0 a lt
    | inr ge ↦ (g x).0 ge b ∙ (f (x + 160)).1 (inr (omega arith))
  ],
  λ o. (g x).1 (omega arith) ∙ (f x).1 (omega arith),
)

-- The same bounds, written differently.
Moved-at :
    {lo hi lo' hi' : ℕ} {u v : Ram} → lo ≡ lo' → hi ≡ hi' → Moved lo hi u v → Moved lo' hi' u v
Moved-at {u = u} {v = v} p q m = subst₂ (λ a b. Moved a b u v) p q m

copy_cells_lem :
    (count row col : ℕ) (video : Ram)
    → IsVideo video
    → Moved
        ((row * 80 + col) * 2)
        ((row * 80 + col + count) * 2)
        video
        (copy_cells count (row + 1) col video)
      × IsVideo (copy_cells count (row + 1) col video)
unfolding copy_cells
copy_cells_lem zero row col video b = (λ x. (λ p q. absurd (omega arith), λ o. refl), b)
copy_cells_lem (suc n) row col video b =
    rw (to, from)
      (let rest =
          copy_cells_lem n row (col + 1) _
            (store8-IsVideo _ (a + 1) _ (store8-IsVideo video a (video (a + 160)) b)) in
        (
          Moved-trans (omega arith) (omega arith) (move_one a video b)
              (Moved-at (sym mid_at) (sym hi_at) rest.0),
          rest.1,
        ))
  where
    a : ℕ
    a = (row * 80 + col) * 2

    to : ((row + 1 - 1) * 80 + col) * 2 ≡ a
    to = omega arith

    from : ((row + 1) * 80 + col) * 2 ≡ a + 160
    from = omega arith

    mid_at : a + 2 ≡ (row * 80 + (col + 1)) * 2
    mid_at = omega arith

    hi_at : (row * 80 + col + suc n) * 2 ≡ (row * 80 + (col + 1) + n) * 2
    hi_at = omega arith

copy_rows_lem :
    (count row : ℕ) (video : Ram)
    → IsVideo video
    → Moved (row * 160) ((row + count) * 160) video (copy_rows count (row + 1) video)
      × IsVideo (copy_rows count (row + 1) video)
unfolding copy_rows
copy_rows_lem zero row video b = (λ x. (λ p q. absurd (omega arith), λ o. refl), b)
copy_rows_lem (suc n) row video b =
    let one = copy_cells_lem 80 row 0 video b in
    let rest = copy_rows_lem n (row + 1) _ one.1 in
    (
      Moved-trans (omega arith) (omega arith) (Moved-at (omega arith) (omega arith) one.0)
          (Moved-at refl (omega arith) rest.0),
      rest.1,
    )

-- The bytes of the last row from cell `col` on, as `blank_cells` leaves them.
blank_cells_lem :
    (count col : ℕ) (video : Ram) (x : ℕ)
    → (3840 + col * 2 ≤ x
        → x < 3840 + (col + count) * 2
        → blank_cells count col video x ≡ (if x % 2 == 0 then b' ' else 0x0F))
      × ((x < 3840 + col * 2) ⊎ (3840 + (col + count) * 2 ≤ x)
          → blank_cells count col video x ≡ video x)
unfolding blank_cells store8
blank_cells_lem zero col video x = (λ p q. absurd (omega arith), λ o. refl)
blank_cells_lem (suc n) col video x = rw cell (
    let rest = blank_cells_lem n (col + 1) _ x in
    (
      λ p q. elim (lt_or_le x (3840 + (col + 1) * 2)) [
        | inl lt ↦ rest.1 (inl lt) ∙ stored p lt
        | inr ge ↦ rest.0 ge (omega arith)
      ],
      λ o. rest.1 (omega arith) ∙ kept o,
    ))
  where
    cell : (24 * 80 + col) * 2 ≡ 3840 + col * 2
    cell = omega arith

    stored :
        3840 + col * 2 ≤ x
        → x < 3840 + (col + 1) * 2
        → store8 (store8 video (3840 + col * 2) b' ') (3840 + col * 2 + 1) 0x0F x
          ≡ (if x % 2 == 0 then b' ' else 0x0F)
    stored p q = ground arith

    kept :
        (x < 3840 + col * 2) ⊎ (3840 + (col + suc n) * 2 ≤ x)
        → store8 (store8 video (3840 + col * 2) b' ') (3840 + col * 2 + 1) 0x0F x ≡ video x
    kept o = ground arith

blank_cells-IsVideo :
    (count col : ℕ) (video : Ram) → IsVideo video → IsVideo (blank_cells count col video)
unfolding blank_cells
blank_cells-IsVideo zero col video b = b
blank_cells-IsVideo (suc n) col video b =
    blank_cells-IsVideo n (col + 1) _ (store8-IsVideo _ _ _ (store8-IsVideo video _ _ b))

-- What `scroll_screen` shows: each row the one below it, the last row blanks; the cursor is on
-- the last row, and no byte past the screen is written.
pub record Scrolled (s s' : Screen) : Type 0 where
  pub upper : (x : ℕ) → x < 3840 → s'.video x ≡ s.video (x + 160)
  pub last : (x : ℕ) → 3840 ≤ x → x < 4000 → s'.video x ≡ (if x % 2 == 0 then b' ' else 0x0F)
  pub past : (x : ℕ) → 4000 ≤ x → s'.video x ≡ s.video x
  pub row : s'.cursor_row ≡ 24
  pub col : s'.cursor_col ≡ s.cursor_col
  pub bytes : IsVideo s'.video

-- `scroll_screen` moves every row up by one, blanks the last row, puts the cursor there, and
-- writes nothing past the 4000 bytes of the screen.
pub scroll_screen_lem : (s : Screen) → IsVideo s.video → Scrolled s (scroll_screen s)
unfolding scroll_screen
scroll_screen_lem s b =
    let (moved, bytes) = copy_rows_lem 24 0 s.video b in
    let blank = blank_cells_lem 80 0 (copy_rows 24 1 s.video) in
    record {
      upper = λ x p. (blank x).1 (inl (omega arith)) ∙ (moved x).0 (omega arith) (omega arith);
      last = λ x p q. (blank x).0 (omega arith) (omega arith);
      past = λ x p. (blank x).1 (inr (omega arith)) ∙ (moved x).1 (inr (omega arith));
      row = refl;
      col = refl;
      bytes = blank_cells-IsVideo 80 0 _ bytes;
    }

-- The bytes from cell `i` on, as `clear_cells` leaves them.
clear_cells_lem :
    (count i : ℕ) (video : Ram) (x : ℕ)
    → (i * 2 ≤ x
        → x < (i + count) * 2
        → clear_cells count i video x ≡ (if x % 2 == 0 then b' ' else 0x0F))
      × ((x < i * 2) ⊎ ((i + count) * 2 ≤ x) → clear_cells count i video x ≡ video x)
unfolding clear_cells store8
clear_cells_lem zero i video x = (λ p q. absurd (omega arith), λ o. refl)
clear_cells_lem (suc n) i video x =
    let rest = clear_cells_lem n (i + 1) _ x in
    (
      λ p q. elim (lt_or_le x ((i + 1) * 2)) [
        | inl lt ↦ rest.1 (inl lt) ∙ stored p lt
        | inr ge ↦ rest.0 ge (omega arith)
      ],
      λ o. rest.1 (omega arith) ∙ kept o,
    )
  where
    stored :
        i * 2 ≤ x
        → x < (i + 1) * 2
        → store8 (store8 video (i * 2) b' ') (i * 2 + 1) 0x0F x
          ≡ (if x % 2 == 0 then b' ' else 0x0F)
    stored p q = ground arith

    kept :
        (x < i * 2) ⊎ ((i + suc n) * 2 ≤ x)
        → store8 (store8 video (i * 2) b' ') (i * 2 + 1) 0x0F x ≡ video x
    kept o = ground arith

-- `clear_screen` fills the 4000 bytes of the screen with blanks, writes nothing past them, and
-- puts the cursor in the first cell.
pub clear_screen_lem :
    (s : Screen)
    → ((x : ℕ) → x < 4000 → (clear_screen s).video x ≡ (if x % 2 == 0 then b' ' else 0x0F))
      × ((x : ℕ) → 4000 ≤ x → (clear_screen s).video x ≡ s.video x)
      × ((clear_screen s).cursor_row ≡ 0)
      × ((clear_screen s).cursor_col ≡ 0)
unfolding clear_screen
clear_screen_lem s =
    let cells = clear_cells_lem 2000 0 s.video in
    (
      λ x p. (cells x).0 (omega arith) (omega arith),
      λ x p. (cells x).1 (inr (omega arith)),
      refl,
      refl,
    )
