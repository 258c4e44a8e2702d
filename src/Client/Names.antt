-- ===== src/Client/Names.antt =====
-- renameat2_handler, capio_faccessat, chdir_handler and getcwd_handler of capio/posix/handlers/rename.hpp,
-- access.hpp, chdir.hpp and getcwd.hpp.
use capio.Base.{ℕ, suc, none, some, [], if◌then◌else◌, ltb, length}
use capio.Base.Int.{ℤ, pos, eqb_ℤ, ltb_ℤ}
use capio.Base.State.{St, ◌>>=◌, ◌>>◌, pure, gets}
use capio.Descriptors.{rename_capio_path}
use capio.Paths.{FilePath, is_absolute, join_path, is_prefix, is_forbidden_path}
use capio.Client.Asking.{rename_request, access_request}
use capio.Client.{
  Client, Kernel, Outcome, handled, delegated, on_tables, fail, skip, minus, einval, enonet, erange,
}
use capio.Client.Paths.{
  at_fdcwd, is_capio_path, capio_posix_realpath, capio_absolute, get_dir_path, path_at,
  unless_empty, as_string,
}
use capio.Client.Removing.{normal}

abbrev pub absolute_at : Kernel → ℤ → FilePath → Client → FilePath
absolute_at k dirfd path c =
    if is_absolute path then path else capio_absolute k (join_path (get_dir_path k dirfd c) path) c

unfoldable pub rename_capio_file : ℕ → FilePath → FilePath → St Client Outcome
rename_capio_file tid old_path_abs new_path_abs = do
  on_tables (rename_capio_path (as_string old_path_abs) (as_string new_path_abs))
  res ← rename_request tid (as_string old_path_abs) (as_string new_path_abs)
  errno ← gets (λ c. c.errno)
  pure (handled (if ltb_ℤ res (pos 0) then minus errno else res))

-- std::filesystem::copy of a file that is not CAPIO's onto a path that is; `copy_file` is what it does.
unfoldable pub rename_onto :
    (FilePath → FilePath → St Client (Unit {0})) → Kernel → FilePath → FilePath → St Client Outcome
rename_onto copy_file k old_path_abs new_path_abs =
    if is_capio_path k new_path_abs
    then (do
      copy_file old_path_abs new_path_abs
      errno ← gets (λ c. c.errno)
      pure (handled (minus errno)))
    else pure delegated

unfoldable pub rename_paths :
    (FilePath → FilePath → St Client (Unit {0}))
    → Kernel
    → ℕ
    → FilePath
    → FilePath
    → St Client Outcome
rename_paths copy_file k tid old_path_abs new_path_abs c =
    if is_prefix old_path_abs new_path_abs
    then some (handled (minus einval), record c { errno = einval })
    else if is_capio_path k old_path_abs
    then rename_capio_file tid old_path_abs new_path_abs c
    else rename_onto copy_file k old_path_abs new_path_abs c

unfoldable pub renameat2_handler :
    (FilePath → FilePath → St Client (Unit {0}))
    → Kernel
    → ℕ
    → ℤ
    → FilePath
    → ℤ
    → FilePath
    → St Client Outcome
renameat2_handler copy_file k tid old_dir_fd old_path new_dir_fd new_path c =
    rename_paths copy_file k tid (absolute_at k old_dir_fd old_path c)
      (absolute_at k new_dir_fd new_path c) c

unfoldable pub access_path : Kernel → ℕ → FilePath → St Client ℤ
access_path k tid path =
    if is_capio_path k path then access_request tid (as_string path) else pure skip

-- The path of an access, or the result where there is none.
unfoldable pub capio_faccessat : Kernel → ℕ → ℤ → FilePath → St Client ℤ
capio_faccessat k tid dirfd pathname c =
    if is_forbidden_path pathname
    then pure skip c
    else if is_absolute pathname
    then access_path k tid pathname c
    else if eqb_ℤ dirfd at_fdcwd
    then elim (unless_empty (capio_posix_realpath k pathname c)) [
      | none ↦ fail enonet c
      | some path ↦ access_path k tid path c
    ]
    else elim (normal (path_at k dirfd pathname c)) [
      | none ↦ pure skip c
      | some path ↦ access_path k tid path c
    ]

unfoldable pub change_directory : Kernel → FilePath → St Client Outcome
change_directory k path c =
    if is_capio_path k path
    then some (handled (pos 0), record c { current_dir = path; errno = 0 })
    else pure delegated c

unfoldable pub chdir_handler : Kernel → FilePath → St Client Outcome
chdir_handler k pathname c =
    if is_forbidden_path pathname
    then pure delegated c
    else if is_absolute pathname
    then change_directory k pathname c
    else elim (unless_empty (capio_posix_realpath k pathname c)) [
      | none ↦ pure (handled (minus c.errno)) c
      | some path ↦ change_directory k path c
    ]

-- With the path that is written into a buffer of `size` bytes; the characters are bytes.
unfoldable pub getcwd_handler : Kernel → ℕ → St Client (Outcome × FilePath)
getcwd_handler k size c =
    if is_capio_path k c.current_dir
    then if ltb size (suc (length c.current_dir))
      then pure (handled (minus erange), []) c
      else pure (handled (pos (suc (length c.current_dir))), c.current_dir) c
    else pure (delegated, []) c
