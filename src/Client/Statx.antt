-- ===== src/Client/Statx.antt =====
-- capio_statx of capio/posix/handlers/statx.hpp. The user, the group and the times, which are always the
-- same, are left out.
use capio.Base.{ℕ, Option, none, some, if◌then◌else◌, Bool, ◌&&◌}
use capio.Base.Int.{ℤ, pos, negsuc, eqb_ℤ}
use capio.Base.State.{St, ◌>>=◌, ◌>>◌, pure}
use capio.Requests.Text.{chars}
use capio.Paths.{FilePath, is_absolute, is_empty, is_forbidden_path}
use capio.Client.{
  Client, Kernel, Outcome, fail, natural, skip, flush_writes, has, at_empty_path, enoent, enotdir,
}
use capio.Client.Asking.{stat_request}
use capio.Client.Paths.{
  at_fdcwd, is_directory, is_capio_path, capio_posix_realpath, path_at, path_of_fd, unless_empty,
  as_string,
}
use capio.Client.Removing.{normal}
use capio.Client.Stats.{blocks_of, to_bool}
use capio.Client.Handlers.{returned_with}

-- struct statx: stx_mask is STATX_BASIC_STATS | STATX_BTIME, whatever was asked for.
pub record Statxbuf : Type 0 where
  pub stx_is_dir : Bool
  pub stx_ino : ℕ
  pub stx_size : ℕ
  pub stx_blocks : ℕ
  pub stx_mask : ℕ

unfoldable pub fill_statxbuf : ℕ → Bool → ℕ → Statxbuf
fill_statxbuf file_size is_dir inode =
    let size = if is_dir then 4096 else file_size in
    record {
      stx_is_dir = is_dir;
      stx_ino = inode;
      stx_size = size;
      stx_blocks = blocks_of size;
      stx_mask = 0xfff;
    }

-- Where a call finds its path: there, or nowhere, with the result of the call.
pub data Found : Type 0 where
  found_path : FilePath → Found
  error : ℕ → Found
  skipped : Found

unfoldable pub capio_only : Kernel → FilePath → Found
capio_only k path = if is_capio_path k path then found_path path else skipped

unfoldable pub found_at : Kernel → Option FilePath → Found → Found
found_at k none otherwise = otherwise
found_at k (some path) otherwise = capio_only k path

-- A descriptor is in the tables exactly if it has a path there.
unfoldable pub statx_path : Kernel → ℤ → FilePath → ℕ → Client → Found
statx_path k dirfd pathname flags c =
    if is_empty pathname && has flags at_empty_path
    then if eqb_ℤ dirfd at_fdcwd
      then found_path c.current_dir
      else elim (path_of_fd dirfd c) [ none ↦ skipped | some path ↦ found_path (chars path) ]
    else if is_absolute pathname
    then capio_only k pathname
    else if eqb_ℤ dirfd at_fdcwd
    then found_at k (unless_empty (capio_posix_realpath k pathname c)) (error enoent)
    else if is_directory k dirfd
    then found_at k (normal (path_at k dirfd pathname c)) skipped
    else error enotdir

unfoldable pub statx_at : Kernel → ℕ → FilePath → St Client (ℤ × Option Statxbuf)
statx_at k tid path = do
  flush_writes tid
  (file_size, is_dir) ← stat_request tid (as_string path)
  if eqb_ℤ file_size (negsuc 0)
      then (do res ← fail enoent; pure (res, none))
      else if eqb_ℤ file_size skip
      then pure (skip, none)
      else (do
        size ← natural file_size
        pure (pos 0, some (fill_statxbuf size (to_bool is_dir) (k.hash (as_string path)))))

unfoldable pub statx_found : Kernel → ℕ → Found → St Client (ℤ × Option Statxbuf)
statx_found k tid (found_path path) = statx_at k tid path
statx_found k tid (error e) = do res ← fail e; pure (res, none)
statx_found k tid skipped = pure (skip, none)

unfoldable pub capio_statx : Kernel → ℕ → ℤ → FilePath → ℕ → St Client (ℤ × Option Statxbuf)
capio_statx k tid dirfd pathname flags c =
    if is_forbidden_path pathname
    then pure (skip, none) c
    else statx_found k tid (statx_path k dirfd pathname flags c) c

unfoldable pub statx_handler : Kernel → ℕ → ℤ → FilePath → ℕ → St Client (Outcome × Option Statxbuf)
statx_handler k tid dirfd pathname flags = returned_with (capio_statx k tid dirfd pathname flags)
