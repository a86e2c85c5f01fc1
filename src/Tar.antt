-- ===== src/Tar.antt =====
-- src/fs.c and include/fs.h: the tar archive that GRUB leaves in memory. The header at an address has
-- its name at offset 0 and its size, in octal digits, at offset 124. The result of `tar_ls` and
-- `tar_cat` is the text that they hand to `print`, in order. The walk over the headers and the strings
-- runs on fuel.
pub mod Octal
pub mod Archive
mod Tests
use cindy_os.Base.{
  ℕ, zero, suc, ◌+◌, ◌-◌, ◌*◌, ◌%◌, leb, ◌==◌, ◌&&◌, if◌then◌else◌, List, [], ◌∷◌, ◌++◌, u32, add32,
  text, Run, ok, out_of_fuel, ◌>>=◌,
}
use cindy_os.Base.Ram.{Ram}
use cindy_os.CString.{strcmp, printed}
use cindy_os.Screen.Numbers.{int_text}

-- `initrd_address = tar_address;`
unfoldable pub init_fs : ℕ → ℕ
init_fs tar_address = tar_address

-- The loop of `parse_octal`: `count` characters from `str` on, with the value so far.
unfoldable pub octal_from : ℕ → ℕ → Ram → ℕ → ℕ
octal_from zero size m str = size
octal_from (suc count) size m str =
    octal_from count
      (if leb b'0' (m str) && leb (m str) b'7' then add32 (u32 (size * 8)) (m str - b'0') else size)
      m (str + 1)

unfoldable pub parse_octal : Ram → ℕ → ℕ → ℕ
parse_octal m str max_len = octal_from max_len 0 m str

-- What `print` shows of the string at an address.
unfoldable pub string_at : ℕ → Ram → ℕ → Run (List ℕ)
string_at zero m a = out_of_fuel
string_at (suc fuel) m a =
    let rest : Run (List ℕ) = string_at fuel m (a + 1) >>= λ cs. ok (m a ∷ cs) in
    if m a == 0 then ok [] else rest

-- The header after the one at `current_addr`, for a file of `file_size` bytes.
unfoldable pub next_header : ℕ → ℕ → ℕ
next_header current_addr file_size =
    let padded_size =
      (if file_size % 512 == 0 then file_size else add32 file_size (512 - file_size % 512)) in
    add32 (add32 current_addr 512) padded_size

-- The loop of `tar_ls` from a header on.
unfoldable pub ls_from : ℕ → Ram → ℕ → Run (List ℕ)
ls_from zero m current_addr = out_of_fuel
ls_from (suc fuel) m current_addr =
    let file_size = parse_octal m (current_addr + 124) 11 in
    let round : Run (List ℕ) = (do
      name ← string_at fuel m current_addr
      digits ← int_text file_size
      rest ← ls_from fuel m (next_header current_addr file_size)
      ok (name ++ (text " (" ++ (digits ++ (text " bytes)  " ++ rest))))) in
    if m current_addr == 0 then ok (text "\n") else round

unfoldable pub tar_ls : ℕ → ℕ → Ram → Run (List ℕ)
tar_ls fuel initrd_address m = if initrd_address == 0 then ok [] else ls_from fuel m initrd_address

-- The characters of the file, each printed as a string of its own; a 0 prints nothing.
unfoldable pub cat_bytes : ℕ → Ram → ℕ → List ℕ
cat_bytes zero m a = []
cat_bytes (suc count) m a = printed (m a ∷ []) ++ cat_bytes count m (a + 1)

-- The loop of `tar_cat` from a header on.
unfoldable pub cat_from : ℕ → Ram → ℕ → ℕ → Run (List ℕ)
cat_from zero m filename current_addr = out_of_fuel
cat_from (suc fuel) m filename current_addr =
    let file_size = parse_octal m (current_addr + 124) 11 in
    let later = cat_from fuel m filename (next_header current_addr file_size) in
    let round : Run (List ℕ) = (do
      order ← strcmp fuel m current_addr filename
      if order == 0 then ok (cat_bytes file_size m (current_addr + 512) ++ text "\n") else later) in
    if m current_addr == 0 then ok (text "File not found.\n") else round

unfoldable pub tar_cat : ℕ → ℕ → ℕ → Ram → Run (List ℕ)
tar_cat fuel initrd_address filename m =
    if initrd_address == 0 then ok [] else cat_from fuel m filename initrd_address
