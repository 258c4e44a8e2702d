-- ===== src/Client/Opening.antt =====
-- capio_openat of capio/posix/handlers/open.hpp. `lseek_to_end` is the C library's lseek to the end of
-- the descriptor, which the handler calls for a file that is opened for appending.
use capio.Base.{ℕ, ◌-◌, Option, none, some, if◌then◌else◌, nat_key}
use Prim.Native.Nat.{bit_and, bit_or}
use capio.Base.Int.{ℤ, pos, negsuc, eqb_ℤ}
use capio.Base.State.{St, ◌>>=◌, ◌>>◌, pure, exit, when}
use capio.Descriptors.{add_capio_fd}
use capio.Paths.{FilePath, is_absolute, capio_normal_path, is_forbidden_path}
use capio.Client.Asking.{create_request, create_exclusive_request, open_request}
use capio.Client.{
  Client, Kernel, on_tables, fail, skip, has, o_creat, o_excl, o_append, o_directory, o_cloexec,
  o_largefile, enoent, eexist,
}
use capio.Client.Paths.{
  at_fdcwd, is_capio_path, capio_posix_realpath, path_at, unless_empty, as_string,
}

-- CAPIO_DEFAULT_FILE_INITIAL_SIZE
abbrev pub initial_size : ℤ
initial_size = pos 4294967296

unfoldable pub actual_flags : ℕ → ℕ
actual_flags flags =
    let without = flags - bit_and flags o_cloexec in
    if has flags o_directory then bit_or without o_largefile else without

-- The request, and the error that an answer of 1 stands for.
unfoldable pub opening_request : ℕ → ℕ → FilePath → ℕ → St Client ℤ × ℕ
opening_request tid fd path flags =
    if has flags o_excl
    then (create_exclusive_request tid fd (as_string path), eexist)
    else if has flags o_creat
    then (create_request tid fd (as_string path), enoent)
    else (open_request tid fd (as_string path), enoent)

unfoldable pub add_opened : (ℕ → St Client (Unit {0})) → ℕ → FilePath → ℕ → St Client ℤ
add_opened lseek_to_end fd path flags = do
  on_tables (
      add_capio_fd (as_string path) fd (pos 0) initial_size (actual_flags flags)
        (has flags o_cloexec))
  when (has flags o_append) (lseek_to_end fd)
  pure (pos fd)

unfoldable pub ask_to_open : (ℕ → St Client (Unit {0})) → ℕ → ℕ → FilePath → ℕ → St Client ℤ
ask_to_open lseek_to_end tid fd path flags = do
  return_code ← (opening_request tid fd path flags).0
  if eqb_ℤ return_code (pos 1)
      then fail (opening_request tid fd path flags).1
      else add_opened lseek_to_end fd path flags

-- Where the kernel cannot open /dev/null, the program ends.
unfoldable pub open_capio_path :
    (ℕ → St Client (Unit {0})) → Kernel → ℕ → FilePath → ℕ → St Client ℤ
open_capio_path lseek_to_end k tid path flags =
    if is_capio_path k path
    then elim k.dev_null [ negsuc _ ↦ exit | pos fd ↦ ask_to_open lseek_to_end tid fd path flags ]
    else pure skip

-- The path that is add_opened, before it is made normal.
unfoldable pub path_to_open : Kernel → ℤ → FilePath → Client → Option FilePath
path_to_open k dirfd pathname c =
    if is_absolute pathname
    then some pathname
    else if eqb_ℤ dirfd at_fdcwd
    then unless_empty (capio_posix_realpath k pathname c)
    else path_at k dirfd pathname c

unfoldable pub capio_openat :
    (ℕ → St Client (Unit {0})) → Kernel → ℕ → ℤ → FilePath → ℕ → St Client ℤ
capio_openat lseek_to_end k tid dirfd pathname flags c =
    if is_forbidden_path pathname then pure skip c else elim (path_to_open k dirfd pathname c) [
      | none ↦ pure skip c
      | some path ↦ open_capio_path lseek_to_end k tid (capio_normal_path path) flags c
    ]
