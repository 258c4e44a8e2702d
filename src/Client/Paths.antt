-- ===== src/Client/Paths.antt =====
-- The paths that a system call names: is_directory, is_capio_dir, is_capio_path, capio_posix_realpath,
-- capio_absolute and get_dir_path of capio/posix/utils/filesystem.hpp. An empty path is one that was not
-- found.
use capio.Base.{Option, none, some, [], ◌∷◌, if◌then◌else◌, Bool, true, nat_key}
use Prim.Native.String.{String}
use text.Mathlib.TextBridge.{of_list}
use capio.Base.Int.{ℤ, pos, negsuc, eqb_ℤ}
use capio.Base.Map.{lookup}
use capio.Requests.Text.{chars}
use capio.Paths.{FilePath, is_absolute, is_prefix, equal_paths, capio_normal_path, join_path}
use capio.Client.{Client, Kernel}

-- AT_FDCWD
abbrev pub at_fdcwd : ℤ
at_fdcwd = negsuc 99

-- Where fstat fails, the -1 that is returned is the Boolean true.
unfoldable pub is_directory : Kernel → ℤ → Bool
is_directory k dirfd = elim (k.fstat_is_dir dirfd) [ none ↦ true | some b ↦ b ]

unfoldable pub is_capio_dir : Kernel → FilePath → Bool
is_capio_dir k path_to_check = equal_paths k.capio_dir path_to_check

unfoldable pub is_capio_path : Kernel → FilePath → Bool
is_capio_path k path_to_check = is_prefix k.capio_dir path_to_check

abbrev pub if_capio_path : Kernel → FilePath → FilePath
if_capio_path k new_path = if is_capio_path k new_path then new_path else []

unfoldable pub capio_posix_realpath : Kernel → FilePath → Client → FilePath
capio_posix_realpath k pathname c = elim (k.real_path pathname) [
  | some posix_real_path ↦ posix_real_path
  | none ↦
      if is_absolute pathname
      then capio_normal_path pathname
      else if_capio_path k (capio_normal_path (join_path c.current_dir pathname))
]

unfoldable pub capio_absolute : Kernel → FilePath → Client → FilePath
capio_absolute k path c =
    if is_absolute path then capio_normal_path path else capio_posix_realpath k path c

abbrev pub path_of_fd : ℤ → Client → Option String
path_of_fd (pos fd) c = lookup fd c.tables.descriptors
path_of_fd (negsuc n) c = none

abbrev pub or_empty : Option FilePath → FilePath
or_empty none = []
or_empty (some p) = p

unfoldable pub get_dir_path : Kernel → ℤ → Client → FilePath
get_dir_path k dirfd c =
    if eqb_ℤ dirfd at_fdcwd
    then c.current_dir
    else elim (path_of_fd dirfd c) [ some path ↦ chars path | none ↦ or_empty (k.link_of_fd dirfd) ]

abbrev pub unless_empty : FilePath → Option FilePath
unless_empty [] = none
unless_empty (ch ∷ path) = some (ch ∷ path)

-- A relative path in the directory of a descriptor; `none` where the call is left to the kernel.
unfoldable pub path_at : Kernel → ℤ → FilePath → Client → Option FilePath
path_at k dirfd path c =
    if is_directory k dirfd
    then elim (unless_empty (get_dir_path k dirfd c)) [
      | none ↦ none
      | some dir_path ↦ some (join_path dir_path path)
    ]
    else none

abbrev pub as_string : FilePath → String
as_string path = of_list path
