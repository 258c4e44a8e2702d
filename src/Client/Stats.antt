-- ===== src/Client/Stats.antt =====
-- The stat of files: capio/posix/handlers/stat.hpp. The user, the group and the times, which are
-- always the same, are left out.
use capio.Base.{ℕ, ◌+◌, ◌/◌, ◌%◌, Option, none, some, if◌then◌else◌, Bool, not, nat_beq, ltb, ◌&&◌}
use capio.Base.Int.{ℤ, pos, negsuc, eqb_ℤ}
use capio.Base.State.{St, ◌>>=◌, ◌>>◌, pure, gets, from_option}
use capio.Descriptors.{exists_capio_fd, get_capio_fd_path}
use capio.Paths.{FilePath, is_absolute, is_empty, is_forbidden_path}
use capio.Client.Asking.{fstat_request, stat_request}
use capio.Client.{
  Client, Kernel, fail, natural, skip, flush_writes, has, at_empty_path, enoent, enotdir,
}
use capio.Client.Paths.{
  at_fdcwd, is_directory, is_capio_path, capio_posix_realpath, path_at, unless_empty, as_string,
}
use capio.Client.Removing.{normal}

-- struct stat: the size in blocks is in units of 512 bytes. `is_dir` is the type in the mode.
pub record Statbuf : Type 0 where
  pub is_dir : Bool
  pub st_ino : ℕ
  pub st_size : ℕ
  pub st_blocks : ℕ

unfoldable pub get_nblocks : ℕ → ℕ
get_nblocks file_size =
    if nat_beq (file_size % 4096) 0 then file_size / 512 else file_size / 512 + 8

unfoldable pub blocks_of : ℕ → ℕ
blocks_of file_size = if ltb file_size 4096 then 8 else get_nblocks file_size

-- The size of a directory is 4096.
unfoldable pub fill_statbuf : ℕ → Bool → ℕ → Statbuf
fill_statbuf file_size is_dir inode =
    let size = if is_dir then 4096 else file_size in
    record { is_dir = is_dir; st_ino = inode; st_size = size; st_blocks = blocks_of size }

abbrev pub to_bool : ℤ → Bool
to_bool d = not (eqb_ℤ d (pos 0))

unfoldable pub filled : ℤ → ℤ → ℕ → St Client (ℤ × Option Statbuf)
filled file_size is_dir inode = do
  size ← natural file_size
  pure (pos 0, some (fill_statbuf size (to_bool is_dir) inode))

abbrev pub no_stat : St Client ℤ → St Client (ℤ × Option Statbuf)
no_stat op = do res ← op; pure (res, none)

unfoldable pub capio_fstat : Kernel → ℕ → ℕ → St Client (ℤ × Option Statbuf)
capio_fstat k tid fd c =
    if exists_capio_fd fd c.tables
    then (do
      flush_writes tid
      (file_size, is_dir) ← fstat_request tid fd
      path ← gets (λ c. get_capio_fd_path fd c.tables)
      if eqb_ℤ file_size (negsuc 0)
          then no_stat (fail enoent)
          else (do path ← from_option path; filled file_size is_dir (k.hash path)))
        c
    else pure (skip, none) c

-- The request of a path, and what its answer is for the caller.
unfoldable pub stat_path : Kernel → ℕ → FilePath → St Client (ℤ × Option Statbuf)
stat_path k tid path = do
  flush_writes tid
  (file_size, is_dir) ← stat_request tid (as_string path)
  if eqb_ℤ file_size (negsuc 0)
      then no_stat (fail enoent)
      else if eqb_ℤ file_size skip
      then pure (skip, none)
      else filled file_size is_dir (k.hash (as_string path))

unfoldable pub capio_lstat : Kernel → ℕ → FilePath → St Client (ℤ × Option Statbuf)
capio_lstat k tid pathname =
    if is_forbidden_path pathname
    then pure (skip, none)
    else if is_capio_path k pathname
    then stat_path k tid pathname
    else pure (skip, none)

unfoldable pub capio_lstat_wrapper : Kernel → ℕ → FilePath → St Client (ℤ × Option Statbuf)
capio_lstat_wrapper k tid pathname c =
    if is_forbidden_path pathname
    then pure (skip, none) c
    else elim (unless_empty (capio_posix_realpath k pathname c)) [
      | none ↦ no_stat (fail enoent) c
      | some absolute_path ↦ capio_lstat k tid absolute_path c
    ]

abbrev pub stat_fd : Kernel → ℕ → ℤ → St Client (ℤ × Option Statbuf)
stat_fd k tid (pos fd) = capio_fstat k tid fd
stat_fd k tid (negsuc n) = pure (skip, none)

-- A descriptor with no path is left to the kernel, a descriptor that is no directory is an error.
unfoldable pub stat_in_directory : Kernel → ℕ → ℤ → FilePath → St Client (ℤ × Option Statbuf)
stat_in_directory k tid dirfd path c =
    if is_directory k dirfd
    then elim (normal (path_at k dirfd path c)) [
      | none ↦ pure (skip, none) c
      | some path ↦ capio_lstat k tid path c
    ]
    else no_stat (fail enotdir) c

unfoldable pub capio_fstatat : Kernel → ℕ → ℤ → FilePath → ℕ → St Client (ℤ × Option Statbuf)
capio_fstatat k tid dirfd pathname flags c =
    if is_forbidden_path pathname
    then pure (skip, none) c
    else if is_empty pathname && has flags at_empty_path
    then if eqb_ℤ dirfd at_fdcwd then capio_lstat k tid c.current_dir c else stat_fd k tid dirfd c
    else if is_absolute pathname
    then capio_lstat k tid pathname c
    else if eqb_ℤ dirfd at_fdcwd
    then capio_lstat_wrapper k tid pathname c
    else stat_in_directory k tid dirfd pathname c
