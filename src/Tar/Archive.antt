-- ===== src/Tar/Archive.antt =====
-- src/fs.c: `tar_cat` and `tar_ls` on a well-formed archive, seen as a list of members.
use cindy_os.Base.{
  ℕ, zero, suc, ◌+◌, ◌*◌, ◌/◌, ap, Returns, returns, Returns-bind, ◌<◌, ◌≡◌, ◌≢◌, refl, sym, ◌∙◌,
  arith, ◌==◌, if◌then◌else◌, List, [], ◌∷◌, ◌++◌, length, false, Option, none, some, text, ok,
  Bool-cases, inl, inr, ne→==, Returns-inv,
}
use cindy_os.Base.Ram.{Ram}
use cindy_os.CString.Strings.{HoldsString, same, strcmp-same}
use cindy_os.Tar.{
  parse_octal, string_at, next_header, ls_from, tar_ls, cat_bytes, cat_from, tar_cat,
}
use cindy_os.CString.{printed}
use cindy_os.Screen.Numbers.Laws.{Denotes, int_text_lem}
use cindy_os.Tar.Octal.{HoldsOctal, octal_value, parse_octal_lem}

-- A member of the archive: its name, the eleven octal digits of its size, and its contents.
pub record Member : Type 0 where
  pub name : List ℕ
  pub digits : List ℕ
  pub contents : List ℕ

-- The bytes stand in memory from `a` on.
abbrev pub HoldsBytes : Ram → ℕ → List ℕ → Type 0
HoldsBytes m a [] = Unit
HoldsBytes m a (c ∷ cs) = (m a ≡ c) × HoldsBytes m (a + 1) cs

-- The contents take up whole blocks of 512 bytes.
abbrev pub padded : List ℕ → ℕ
padded cs = (length cs + 511) / 512 * 512

-- A header of one block, the contents in whole blocks behind it, and so on, up to an empty name; all
-- below 4 GiB, and no member of 2 GiB or more.
abbrev pub IsArchive : Ram → ℕ → List Member → Type 0
IsArchive m a [] = m a ≡ 0
IsArchive m a (e ∷ es) =
    (e.name ≢ [])
    × HoldsString m a e.name
    × (length e.digits ≡ 11)
    × HoldsOctal m (a + 124) e.digits
    × (octal_value 0 e.digits ≡ length e.contents)
    × (length e.contents < 2147483648)
    × HoldsBytes m (a + 512) e.contents
    × (a + 512 + padded e.contents < 4294967296)
    × IsArchive m (a + 512 + padded e.contents) es

-- The first member of a name.
unfoldable pub find_member : List ℕ → List Member → Option Member
find_member name [] = none
find_member name (e ∷ es) = if same e.name name then some e else find_member name es

-- The characters that appear: a 0 is no character.
unfoldable pub visible : List ℕ → List ℕ
visible [] = []
visible (c ∷ cs) = if c == 0 then visible cs else c ∷ visible cs

-- What `tar_cat` is to print: the member's contents with a line feed, or a message.
abbrev pub cat_text : Option Member → List ℕ
cat_text none = text "File not found.\n"
cat_text (some e) = visible e.contents ++ text "\n"

-- What `tar_ls` is to print: a line of all members with their sizes in decimal.
abbrev pub Listing : List Member → List ℕ → Type 0
Listing [] t = t ≡ text "\n"
Listing (e ∷ es) t =
    (size : List ℕ) × (rest : List ℕ) × (t
      ≡ e.name ++ (text " (" ++ (size ++ (text " bytes)  " ++ rest))))
    × Denotes (length e.contents) size
    × Listing es rest

abbrev pub NamesShort : ℕ → List Member → Type 0
NamesShort n [] = Unit
NamesShort n (e ∷ es) = (length e.name < n) × NamesShort n es

-- The next header, for the size that `parse_octal` has read.
next_header_lem :
    (a : ℕ) (cs : List ℕ)
    → a + 512 + padded cs < 4294967296
    → next_header a (length cs) ≡ a + 512 + padded cs
unfolding next_header
next_header_lem a cs below = ground arith

size_lem :
    (m : Ram) (a : ℕ) (e : Member)
    → length e.digits ≡ 11
    → HoldsOctal m a e.digits
    → octal_value 0 e.digits ≡ length e.contents
    → length e.contents < 2147483648
    → parse_octal m a 11 ≡ length e.contents
size_lem m a e eleven held value small =
    ap (parse_octal m a) (sym eleven) ∙ (parse_octal_lem e.digits a m held ∙ omega (arith, value))

cat_bytes_lem :
    (m : Ram) (a : ℕ) (cs : List ℕ) → HoldsBytes m a cs → cat_bytes (length cs) m a ≡ visible cs
unfolding cat_bytes visible printed
cat_bytes_lem m a [] h = refl
cat_bytes_lem m a (c ∷ cs) h =
    rw (h.0, cat_bytes_lem m (a + 1) cs h.1)
      (elim (Bool-cases (c == 0)) [ inl zero_byte ↦ rw zero_byte refl | inr other ↦ rw other refl ])

-- A header with a name does not begin with 0.
named : (m : Ram) (a : ℕ) (name : List ℕ) → name ≢ [] → HoldsString m a name → (m a == 0) ≡ false
named m a [] ne h = absurd (ne refl)
named m a (c ∷ cs) ne h = ne→== (m a) 0 (λ e. h.1 (sym h.0 ∙ e))

module _ (m : Ram) where
  string_at_lem :
      (fuel a : ℕ) (cs : List ℕ)
      → HoldsString m a cs
      → length cs < fuel
      → string_at fuel m a ≡ ok cs
  unfolding string_at
  string_at_lem zero a cs h enough = absurd (omega arith)
  string_at_lem (suc fuel) a [] h enough = rw h
  string_at_lem (suc fuel) a (c ∷ cs) h enough =
      rw (h.0, ne→== c 0 h.1, string_at_lem fuel (a + 1) cs h.3 (omega arith))

  cat_from_lem :
      (n fuel filename a : ℕ) (name : List ℕ) (es : List Member)
      → HoldsString m filename name
      → IsArchive m a es
      → NamesShort n es
      → length es + n < fuel
      → cat_from fuel m filename a ≡ ok (cat_text (find_member name es))
  unfolding cat_from find_member
  cat_from_lem n zero filename a name es str arch short enough = absurd (omega arith)
  cat_from_lem n (suc fuel) filename a name [] str arch short enough = rw arch
  cat_from_lem n (suc fuel) filename a name (e ∷ es) str
        (ne, held, eleven, octal, value, small, bytes, below, rest) short enough =
      let (r, runs, order) =
        Returns-inv (strcmp-same fuel m a filename e.name name held str (omega (arith, short.0))) in
      rw
        (
          named m a e.name ne held,
          size_lem m (a + 124) e eleven octal value small,
          next_header_lem a e.contents below,
          runs,
          order,
          cat_from_lem n fuel filename (a + 512 + padded e.contents) name es str rest short.1
              (omega arith),
          cat_bytes_lem m (a + 512) e.contents bytes,
        )
        (elim (Bool-cases (same e.name name)) [
          | inl found ↦ rw found refl
          | inr other ↦ rw other refl
        ])

  ls_from_lem :
      (n fuel a : ℕ) (es : List Member)
      → IsArchive m a es
      → NamesShort n es
      → length es + n < fuel
      → Returns (Listing es) (ls_from fuel m a)
  unfolding ls_from
  ls_from_lem n zero a es arch short enough = absurd (omega arith)
  ls_from_lem n (suc fuel) a [] arch short enough = rw arch (returns refl)
  ls_from_lem n (suc fuel) a (e ∷ es) (ne, held, eleven, octal, value, small, bytes, below, rest)
        short enough =
      rw
        (
          named m a e.name ne held,
          size_lem m (a + 124) e eleven octal value small,
          next_header_lem a e.contents below,
          string_at_lem fuel a e.name held (omega (arith, short.0)),
        )
        (Returns-bind (int_text_lem (length e.contents) (omega arith) (omega arith)) λ size d.
          Returns-bind
            (ls_from_lem n fuel (a + 512 + padded e.contents) es rest short.1 (omega arith))
            λ others l. returns (size, others, refl, d, l))

  -- On a well-formed archive with names shorter than `n`, and fuel above `n` and the number of
  -- members: `tar_cat` prints the contents of the first member of that name, without bytes 0, and a line
  -- feed, or that there is none; `tar_ls` prints the name and the size in decimal of every member, in
  -- order.
  pub tar_archive :
      (n fuel filename a : ℕ) (name : List ℕ) (es : List Member)
      → a ≢ 0
      → HoldsString m filename name
      → IsArchive m a es
      → NamesShort n es
      → length es + n < fuel
      → (tar_cat fuel a filename m ≡ ok (cat_text (find_member name es)))
        × Returns (Listing es) (tar_ls fuel a m)
  unfolding tar_cat tar_ls
  tar_archive n fuel filename a name es ne str arch short enough = rw (ne→== a 0 ne) (
    cat_from_lem n fuel filename a name es str arch short enough,
    ls_from_lem n fuel a es arch short enough,
  )
