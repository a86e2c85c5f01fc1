-- ===== src/Tar/Tests.antt =====
-- src/fs.c: the theorems on an archive with one member, `a`, which holds `hi`.
use cindy_os.Base.{
  ◌≡◌, refl, arith, [], ◌∷◌, ◌==◌, if◌then◌else◌, length, ok, ap, leb, ltb, ◌&&◌, text, Returns,
}
use cindy_os.Base.Ram.{Ram}
use cindy_os.Tar.{tar_ls, tar_cat}
use cindy_os.Tar.Octal.{octal_value}
use cindy_os.Tar.Archive.{Member, IsArchive, find_member, cat_text, Listing, tar_archive}

-- The name that is looked for stands at 16.
abbrev archive : Ram
archive a =
    if a == 16
    then b'a'
    else if a == 4096
    then b'a'
    else if leb 4220 a && ltb a 4230
    then b'0'
    else if a == 4230
    then b'2'
    else if a == 4608
    then b'h'
    else if a == 4609
    then b'i'
    else 0

abbrev member : Member
member = record {
  name = b'a' ∷ [];
  digits = 0 ∷ 0 ∷ 0 ∷ 0 ∷ 0 ∷ 0 ∷ 0 ∷ 0 ∷ 0 ∷ 0 ∷ 2 ∷ [];
  contents = text "hi";
}

archive-IsArchive : IsArchive archive 4096 (member ∷ [])
unfolding octal_value
archive-IsArchive = (
  (λ e. absurd (omega (arith, ap length e))),
  (refl, omega arith, omega arith, refl),
  refl,
  ground arith,
  refl,
  omega arith,
  (refl, (refl, tt)),
  omega arith,
  refl,
)

tar_archive_example :
    (tar_cat 4 4096 16 archive ≡ ok (cat_text (find_member (b'a' ∷ []) (member ∷ []))))
    × Returns (Listing (member ∷ [])) (tar_ls 4 4096 archive)
tar_archive_example =
    tar_archive archive 2 4 16 4096 (b'a' ∷ []) (member ∷ []) (omega arith)
      (refl, omega arith, omega arith, refl) archive-IsArchive (omega arith, tt) (omega arith)
