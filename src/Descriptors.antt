-- ===== src/Descriptors.antt =====
-- The client's tables of descriptors, capio/posix/utils/filesystem.hpp: the path of each descriptor,
-- the descriptors of each path, and the offset, size, flags and close-on-exec of each. `dup` shares
-- the offset, so the offsets live in cells of their own. `at` throws where there is no entry, and
-- then there is no result. Descriptors are natural numbers. The functions that ask the kernel for
-- paths are not modelled here.
pub mod Consistent
pub mod Duplicated
pub mod Renamed
use capio.Base.{
  ℕ, zero, suc, ◌+◌, ◌≡◌, Option, none, some, List, [], ◌∷◌, nat_beq, if◌then◌else◌, Bool, true,
  false, ◌||◌, ◌==◌, Key, string_key, nat_key,
}
use Prim.Native.String.{String}
use capio.Base.Int.{ℤ}
use capio.Base.Map.{Map, lookup, insert, erase}
use capio.Base.State.{St, ◌>>=◌, ◌>>◌, pure, exit, gets, modify, from_option, when}

-- An entry of `files`.
pub record OpenFile : Type 0 where
  pub offset : ℕ
  pub size : ℤ
  pub flags : ℕ
  pub is_cloexec : Bool

-- capio_files_descriptors, capio_files_paths and files, and the cells that the offsets point to.
pub record Descriptors : Type 0 where
  pub descriptors : Map ℕ String
  pub paths : Map String (List ℕ)
  pub files : Map ℕ OpenFile
  pub offsets : Map ℕ ℤ
  pub next_offset : ℕ

-- `insert` and `emplace` of a map leave an entry that is there as it is.
unfoldable pub put {ℓ κ} : {K : Type ℓ} {V : Type κ} ⦃e : Key K⦄ → K → V → Map K V → Map K V
put k v m = elim (lookup k m) [ none ↦ insert k v m | some w ↦ m ]

-- A set of descriptors.
abbrev pub holds : ℕ → List ℕ → Bool
holds fd [] = false
holds fd (x ∷ xs) = nat_beq x fd || holds fd xs

unfoldable pub add_to_set : ℕ → List ℕ → List ℕ
add_to_set fd xs = if holds fd xs then xs else fd ∷ xs

unfoldable pub remove_from_set : ℕ → List ℕ → List ℕ
remove_from_set fd [] = []
remove_from_set fd (x ∷ xs) =
    let rest = remove_from_set fd xs in if nat_beq x fd then rest else x ∷ rest

unfoldable pub add_capio_path : String → Descriptors → Descriptors
add_capio_path path d = record d { paths = put path [] d.paths }

-- `capio_files_paths->at(path)`, changed in place.
unfoldable pub change_set : String → (List ℕ → List ℕ) → St Descriptors (Unit {0})
change_set path change d = elim (lookup path d.paths) [
  | none ↦ none
  | some fds ↦ some (tt, record d { paths = insert path (change fds) d.paths })
]

unfoldable pub add_capio_fd : String → ℕ → ℤ → ℤ → ℕ → Bool → St Descriptors (Unit {0})
add_capio_fd path fd offset init_size flags is_cloexec = do
  modify (add_capio_path path)
  change_set path (add_to_set fd)
  modify (λ d. record d {
    descriptors = put fd path d.descriptors;
    files =
        put fd
          (record {
            offset = d.next_offset;
            size = init_size;
            flags = flags;
            is_cloexec = is_cloexec;
          })
          d.files;
    offsets = insert d.next_offset offset d.offsets;
    next_offset = suc d.next_offset;
  })

unfoldable pub delete_capio_fd : ℕ → St Descriptors (Unit {0})
delete_capio_fd fd = do
  path ← gets (λ d. lookup fd d.descriptors)
  path ← from_option path
  change_set path (remove_from_set fd)
  modify (λ d. record d { descriptors = erase fd d.descriptors; files = erase fd d.files })

-- The loop of delete_capio_path, over the descriptors that the path has at its start: each is taken
-- before it is erased.
unfoldable pub delete_fds : List ℕ → St Descriptors (Unit {0})
delete_fds [] = pure tt
delete_fds (fd ∷ fds) = do delete_capio_fd fd; delete_fds fds

unfoldable pub delete_capio_path : String → St Descriptors (Unit {0})
delete_capio_path path = do
  fds ← gets (λ d. lookup path d.paths)
  fds ← from_option fds
  delete_fds fds
  modify (λ d. record d { paths = erase path d.paths })

-- The change of one field of `files->at(fd)`.
unfoldable pub change_file : ℕ → (OpenFile → OpenFile) → St Descriptors (Unit {0})
change_file fd change d = elim (lookup fd d.files) [
  | none ↦ none
  | some f ↦ some (tt, record d { files = insert fd (change f) d.files })
]

unfoldable pub set_capio_fd_cloexec : ℕ → Bool → St Descriptors (Unit {0})
set_capio_fd_cloexec fd is_cloexec = change_file fd (λ f. record f { is_cloexec = is_cloexec })

unfoldable pub set_capio_fd_flags : ℕ → ℕ → St Descriptors (Unit {0})
set_capio_fd_flags fd flags = change_file fd (λ f. record f { flags = flags })

unfoldable pub dup_capio_fd : ℕ → ℕ → Bool → St Descriptors (Unit {0})
dup_capio_fd oldfd newfd is_cloexec = do
  path ← gets (λ d. lookup oldfd d.descriptors)
  path ← from_option path
  change_set path (add_to_set newfd)
  file ← gets (λ d. lookup oldfd d.files)
  file ← from_option file
  modify (λ d. record d { files = put newfd file d.files })
  set_capio_fd_cloexec newfd is_cloexec
  modify (λ d. record d { descriptors = put newfd path d.descriptors })

abbrev pub some_entry {ℓ} : {A : Type ℓ} → Option A → Bool
some_entry none = false
some_entry (some a) = true

unfoldable pub exists_capio_fd : ℕ → Descriptors → Bool
exists_capio_fd fd d = some_entry (lookup fd d.files)

unfoldable pub exists_capio_path : String → Descriptors → Bool
exists_capio_path path d = some_entry (lookup path d.paths)

unfoldable pub get_capio_fd_path : ℕ → Descriptors → Option String
get_capio_fd_path fd d = lookup fd d.descriptors

unfoldable pub get_capio_fd_flags : ℕ → St Descriptors ℕ
get_capio_fd_flags fd = do
  file ← gets (λ d. lookup fd d.files)
  file ← from_option file
  pure file.flags

unfoldable pub get_capio_fd_cloexec : ℕ → St Descriptors Bool
get_capio_fd_cloexec fd = do
  file ← gets (λ d. lookup fd d.files)
  file ← from_option file
  pure file.is_cloexec

unfoldable pub get_capio_fd_offset : ℕ → St Descriptors ℤ
get_capio_fd_offset fd = do
  file ← gets (λ d. lookup fd d.files)
  file ← from_option file
  offset ← gets (λ d. lookup file.offset d.offsets)
  from_option offset

unfoldable pub set_capio_fd_offset : ℕ → ℤ → St Descriptors (Unit {0})
set_capio_fd_offset fd offset = do
  file ← gets (λ d. lookup fd d.files)
  file ← from_option file
  modify (λ d. record d { offsets = insert file.offset offset d.offsets })

unfoldable pub get_capio_fds : Descriptors → List ℕ
get_capio_fds d = keys d.files
  where
    keys : Map ℕ OpenFile → List ℕ
    keys [] = []
    keys ((fd, f) ∷ m) = fd ∷ keys m

-- `assign` to the path of each descriptor of a list.
unfoldable pub assign_all : String → List ℕ → St Descriptors (Unit {0})
assign_all path [] = pure tt
assign_all path (fd ∷ fds) = do
  old ← gets (λ d. lookup fd d.descriptors)
  old ← from_option old
  modify (λ d. record d { descriptors = insert fd path d.descriptors })
  assign_all path fds

-- The node goes to the new path, unless that is there; then it is destroyed. A path that is not there
-- has no node: the fault.
unfoldable pub rename_capio_path : String → String → St Descriptors (Unit {0})
rename_capio_path oldpath newpath = do
  node ← gets (λ d. lookup oldpath d.paths)
  node ← from_option node
  modify (λ d. record d { paths = put newpath node (erase oldpath d.paths) })
  fds ← gets (λ d. lookup newpath d.paths)
  fds ← from_option fds
  assign_all newpath fds
