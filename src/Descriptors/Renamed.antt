-- ===== src/Descriptors/Renamed.antt =====
-- A path that is renamed in the tables of the client: rename_capio_path of
-- capio/posix/utils/filesystem.hpp.
use capio.Base.{ℕ, ◌≡◌, ◌≢◌, ap, none, some, [], false, string_key, nat_key, ◌∙◌, arith, beq_self}
use Prim.Native.String.{String}
use capio.Base.Map.{lookup, erase, lookup-erase_self, lookup-erase_ne}
use capio.Descriptors.{
  Descriptors, put, change_set, delete_capio_fd, some_entry, exists_capio_path, get_capio_fd_path,
  rename_capio_path, assign_all,
}
use capio.Descriptors.Consistent.{IsConsistent, names, listed, put-old}

-- Renaming a path to one that is in the tables with no open descriptor: the old path is gone, but a
-- descriptor of it keeps it as its path, and deleting that descriptor throws.
pub rename_capio_path_taken :
    (oldpath newpath : String) (fd : ℕ) (d : Descriptors)
    → IsConsistent d
    → oldpath ≢ newpath
    → lookup newpath d.paths ≡ some []
    → get_capio_fd_path fd d ≡ some oldpath
    → (d' : Descriptors) × (rename_capio_path oldpath newpath d ≡ some (tt, d'))
      × (exists_capio_path oldpath d' ≡ false)
      × (get_capio_fd_path fd d' ≡ some oldpath)
      × (delete_capio_fd fd d' ≡ none)
unfolding rename_capio_path exists_capio_path get_capio_fd_path assign_all delete_capio_fd
    change_set
rename_capio_path_taken oldpath newpath fd d v ne taken has =
    let (fds, p) =
      listed fd (lookup oldpath d.paths)
        (v.agree fd oldpath ∙ ap (names oldpath) has ∙ beq_self oldpath) in
    let t : lookup newpath (erase oldpath d.paths) ≡ some [] =
      lookup-erase_ne oldpath newpath d.paths ne ∙ taken in
    let g : lookup oldpath (erase oldpath d.paths) ≡ none = lookup-erase_self oldpath d.paths in
    let k : put newpath fds (erase oldpath d.paths) ≡ erase oldpath d.paths =
      put-old newpath fds (erase oldpath d.paths) [] t in
    (
      record d { paths = erase oldpath d.paths },
      ground (arith, p, k, t),
      ap some_entry g,
      has,
      ground (arith, has, g),
    )
