-- ===== src/Fat16/Init.antt =====
-- src/fat16.c: `fat16_init`, which prints what it has found and lists the files.
use cindy_os.Base.{
  ℕ, zero, suc, ◌+◌, ◌*◌, ◌/◌, ◌<◌, ◌≤◌, ◌≡◌, ◌≢◌, ◌==◌, ◌||◌, refl, ap, List, ◌++◌, text, add32,
  Bool-cases, inl, inr, arith, Run, ok, ◌>>=◌, Returns, returns, Returns-bind, ne→==, ◌∙◌,
}
use native.Mathlib.Nat.{mul-le-mul_right}
use cindy_os.Paging.Tables.{load32-lt}
use cindy_os.Base.Ram.{Ram, load16}
use cindy_os.Ata.{Disk, ata_read_sector}
use cindy_os.CString.{printed}
use cindy_os.Screen.Numbers.{int_text}
use cindy_os.Screen.Numbers.Laws.{int_text_lem}
use cindy_os.Fat16.{Bpb, Volume, load_bpb, load_dir, geometry}
use cindy_os.Fat16.Table.Laws.{IsDisk}
use cindy_os.Fat16.Read.{Listing, listed, ls_sector, ls_sectors, fat16_ls}

-- The volume, and the text that is handed to `print`, in order.
unfoldable pub fat16_init : Disk → Run (Volume × List ℕ)
fat16_init disk = do
  let bpb : Bpb = load_bpb (ata_read_sector 0 disk)
  volume ← geometry bpb
  size ← int_text bpb.bytes_per_sector
  start ← int_text volume.root_dir_start
  files ← fat16_ls volume disk
  ok (
    volume,
    text "Bytes per sector: "
        ++ (size
            ++ (text "\nFilesystem Type: "
                ++ (printed bpb.fs_type
                    ++ (text "\nRoot dir starts at sector: " ++ (start ++ (text "\n" ++ files)))))),
  )

load16-lt : (m : Ram) (a : ℕ) → ((i : ℕ) → m i < 256) → load16 m a < 65536
unfolding load16
load16-lt m a bytes = omega (arith, bytes a, bytes (a + 1))

product : {a b c n : ℕ} → a < 65536 → b < 256 → c < 65536 → n ≡ a + b * c → n < 33554432
product {a} {b} {c} ha hb hc e =
    let le : b ≤ 255 = omega arith in omega (arith, mul-le-mul_right c le)

-- No entry of a sector of the directory has the size 2 ^ 31, which as an `int` has no positive opposite.
abbrev pub Listable : Volume → Disk → Type 0
Listable v disk =
    (s e : ℕ)
    → s < v.root_dir_sectors
    → e < 16
    → (load_dir (ata_read_sector (add32 v.root_dir_start s) disk) (e * 32)).file_size ≢ 2147483648

-- The sectors where the tables, the root directory and the data area begin, for a boot sector.
pub record Geometry (bpb : Bpb) (v : Volume) : Type 0 where
  pub same_bpb : v.g_bpb ≡ bpb
  pub tables : v.fat_start_sector ≡ bpb.reserved_sectors
  pub root : v.root_dir_start ≡ v.fat_start_sector + bpb.fat_count * bpb.sectors_per_fat
  pub entries : v.root_dir_sectors ≡ bpb.root_dir_entries * 32 / bpb.bytes_per_sector
  pub data_area : v.data_start_sector ≡ v.root_dir_start + v.root_dir_sectors

geometry_lem : (bpb : Bpb) → bpb.bytes_per_sector ≢ 0 → Returns (Geometry bpb) (geometry bpb)
unfolding geometry
geometry_lem bpb ne = rw (ne→== bpb.bytes_per_sector 0 ne) (
    returns
      (record { same_bpb = refl; tables = refl; root = refl; entries = refl; data_area = refl }))

abbrev Ends : {X : Type 0} → Run X → Type 0
Ends run = Returns (λ x. Unit) run

module _ (buf : Ram) (bytes : (i : ℕ) → buf i < 256)
    (listable : (e : ℕ) → e < 16 → (load_dir buf (e * 32)).file_size ≢ 2147483648) where
  listed-Ends : (e : ℕ) → e < 16 → Ends (listed buf e)
  unfolding listed load_dir
  listed-Ends e lt =
      Returns-bind (int_text_lem _ (load32-lt buf (e * 32 + 28) bytes) (listable e lt))
        λ t d. returns tt

  ls_sector-Ends : (count e : ℕ) (l : Listing) → e + count ≤ 16 → Ends (ls_sector count e buf l)
  unfolding ls_sector
  ls_sector-Ends zero e l le = returns tt
  ls_sector-Ends (suc count) e l le = elim (Bool-cases (buf (e * 32) == 0)) [
    | inl here ↦ rw here (returns tt)
    | inr used ↦ elim (Bool-cases (buf (e * 32) == 0xE5 || buf (e * 32 + 11) == 0x0F)) [
      | inl skip ↦ rw (used, skip) (ls_sector-Ends count (e + 1) l (omega arith))
      | inr shown ↦
          rw (used, shown)
            (Returns-bind (listed-Ends e (omega arith))
              λ line u. ls_sector-Ends count (e + 1) _ (omega arith))
    ]
  ]

read_bytes : (lba : ℕ) (disk : Disk) → IsDisk disk → (i : ℕ) → ata_read_sector lba disk i < 256
unfolding ata_read_sector
read_bytes lba disk all i = all _ i

module _ (v : Volume) (disk : Disk) (all : IsDisk disk) (listable : Listable v disk) where
  ls_sectors-Ends :
      (count s : ℕ) (l : Listing)
      → s + count ≤ v.root_dir_sectors
      → Ends (ls_sectors count s v disk l)
  unfolding ls_sectors
  ls_sectors-Ends zero s l le = returns tt
  ls_sectors-Ends (suc count) s l le =
      Returns-bind
        (ls_sector-Ends (ata_read_sector (add32 v.root_dir_start s) disk) (read_bytes _ disk all)
          (λ e lt. listable s e (omega arith) lt) 16 0 l (omega arith))
        λ l' u. elim (Bool-cases l'.done) [
          | inl done ↦ rw done (returns tt)
          | inr more ↦ rw more (ls_sectors-Ends count (s + 1) _ (omega arith))
        ]

  fat16_ls-Ends : Ends (fat16_ls v disk)
  unfolding fat16_ls
  fat16_ls-Ends =
      Returns-bind (ls_sectors-Ends v.root_dir_sectors 0 _ (omega arith)) λ l u. returns tt

-- A disk of bytes whose first sector gives a sector size, and whose root directory can be listed.
pub record Mountable (disk : Disk) : Type 0 where
  pub bytes : IsDisk disk
  pub sector_size : (load_bpb (ata_read_sector 0 disk)).bytes_per_sector ≢ 0
  pub listable : (v : Volume) → Geometry (load_bpb (ata_read_sector 0 disk)) v → Listable v disk

-- `fat16_init` computes the geometry of the volume, and the listing that it prints comes to an end.
pub fat16_init_lem :
    (disk : Disk)
    → IsDisk disk
    → (load_bpb (ata_read_sector 0 disk)).bytes_per_sector ≢ 0
    → ((v : Volume) → Geometry (load_bpb (ata_read_sector 0 disk)) v → Listable v disk)
    → Returns (λ (v, shown). Geometry (load_bpb (ata_read_sector 0 disk)) v) (fat16_init disk)
unfolding fat16_init load_bpb
fat16_init_lem disk all ne listable =
    Returns-bind (geometry_lem (load_bpb (ata_read_sector 0 disk)) ne) λ v g.
      Returns-bind
        (int_text_lem bpb.bytes_per_sector (omega (arith, word 11)) (omega (arith, word 11)))
        λ size d.
          Returns-bind
            (int_text_lem v.root_dir_start (omega (arith, root v g)) (omega (arith, root v g)))
            λ start d'. Returns-bind (fat16_ls-Ends v disk all (listable v g)) λ files u. returns g
  where
    buf : Ram
    buf = ata_read_sector 0 disk

    bpb : Bpb
    bpb = load_bpb buf

    word : (a : ℕ) → load16 buf a < 65536
    word a = load16-lt buf a (read_bytes 0 disk all)

    root : (v : Volume) → Geometry bpb v → v.root_dir_start < 16777216 * 2
    root v g =
        product (word 14) (read_bytes 0 disk all 16) (word 22)
          (g.root ∙ ap (λ n. n + bpb.fat_count * bpb.sectors_per_fat) g.tables)
