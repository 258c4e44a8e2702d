-- ===== src/Client/Removing.antt =====
-- The directories and files that are made and removed: capio_mkdirat and capio_rmdir of
-- capio/posix/handlers/mkdir.hpp, capio_unlink_abs and capio_unlinkat of unlink.hpp.
pub mod Unknown
use capio.Base.{
  ℕ, ◌≡◌, Option, none, some, List, [], ◌∷◌, if◌then◌else◌, Bool, true, false, not, nat_beq,
}
use Prim.Native.Nat.{bit_and}
use capio.Base.Int.{ℤ, pos, negsuc, eqb_ℤ}
use capio.Base.State.{St, ◌>>=◌, ◌>>◌, pure, exit, gets, modify, from_option, when}
use capio.Descriptors.{exists_capio_path, add_capio_path, delete_capio_path}
use capio.Paths.{FilePath, is_absolute, lexically_normal, is_forbidden_path}
use capio.Requests.{Request, mkdir, rmdir, unlink}
use capio.Client.Asking.{mkdir_request, rmdir_request, unlink_request}
use capio.Client.{Client, Kernel, on_tables, ask, fail, skip, at_removedir, enoent, eexist}
use capio.Client.Paths.{
  at_fdcwd, is_capio_dir, is_capio_path, capio_posix_realpath, path_at, unless_empty, as_string,
}

abbrev pub normal : Option FilePath → Option FilePath
normal none = none
normal (some p) = some (lexically_normal p)

-- The path that a call names; an absolute one is taken as it is.
unfoldable pub named_path : Kernel → ℤ → FilePath → Client → Option FilePath
named_path k dirfd pathname c =
    if is_absolute pathname
    then some pathname
    else if eqb_ℤ dirfd at_fdcwd
    then unless_empty (capio_posix_realpath k pathname c)
    else normal (path_at k dirfd pathname c)

unfoldable pub make_directory : ℕ → FilePath → St Client ℤ
make_directory tid path = do
  res ← mkdir_request tid (as_string path)
  if eqb_ℤ res (pos 1)
      then pure (negsuc 0)
      else (do on_tables (modify (add_capio_path (as_string path))); pure res)

unfoldable pub mkdir_path : Kernel → ℕ → FilePath → St Client ℤ
mkdir_path k tid path c =
    if is_capio_path k path
    then if exists_capio_path (as_string path) c.tables
      then fail eexist c
      else make_directory tid path c
    else pure skip c

unfoldable pub capio_mkdirat : Kernel → ℕ → ℤ → FilePath → St Client ℤ
capio_mkdirat k tid dirfd pathname c =
    if is_forbidden_path pathname then pure skip c else elim (named_path k dirfd pathname c) [
      | none ↦ pure skip c
      | some path ↦ mkdir_path k tid path c
    ]

unfoldable pub remove_directory : ℕ → FilePath → St Client ℤ
remove_directory tid path = do
  res ← rmdir_request tid (as_string path)
  if eqb_ℤ res skip
      then pure res
      else if eqb_ℤ res (pos 2)
      then fail enoent
      else (do on_tables (delete_capio_path (as_string path)); pure (pos 0))

unfoldable pub rmdir_path : Kernel → ℕ → FilePath → St Client ℤ
rmdir_path k tid path c =
    if is_capio_path k path
    then if exists_capio_path (as_string path) c.tables
      then remove_directory tid path c
      else fail enoent c
    else pure skip c

unfoldable pub capio_rmdir : Kernel → ℕ → FilePath → St Client ℤ
capio_rmdir k tid pathname c =
    if is_forbidden_path pathname then pure skip c else elim (named_path k at_fdcwd pathname c) [
      | none ↦ pure skip c
      | some path ↦ rmdir_path k tid path c
    ]

-- The answer to the removal of a directory, as unlinkat returns it.
abbrev pub as_unlinked : ℤ → ℤ
as_unlinked res = if eqb_ℤ res (pos 2) then negsuc 0 else if eqb_ℤ res skip then skip else pos 0

unfoldable pub removal : ℕ → FilePath → Bool → St Client ℤ
removal tid abs_path true = do res ← rmdir_request tid (as_string abs_path); pure (as_unlinked res)
removal tid abs_path false = unlink_request tid (as_string abs_path)

unfoldable pub after_removal : FilePath → ℤ → St Client ℤ
after_removal abs_path res =
    if eqb_ℤ res (negsuc 0)
    then fail enoent
    else (do on_tables (delete_capio_path (as_string abs_path)); pure res)

unfoldable pub capio_unlink_abs : Kernel → ℕ → FilePath → Bool → St Client ℤ
capio_unlink_abs k tid abs_path is_dir =
    if is_capio_path k abs_path
    then if is_capio_dir k abs_path
      then exit
      else (do res ← removal tid abs_path is_dir; after_removal abs_path res)
    else pure skip

unfoldable pub capio_unlinkat : Kernel → ℕ → ℤ → FilePath → ℕ → St Client ℤ
capio_unlinkat k tid dirfd pathname flags c =
    if is_forbidden_path pathname then pure skip c else elim (named_path k dirfd pathname c) [
      | none ↦ pure skip c
      | some path ↦ capio_unlink_abs k tid path (not (nat_beq (bit_and flags at_removedir) 0)) c
    ]
