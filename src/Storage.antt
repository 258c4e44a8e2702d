-- ===== src/Storage.antt =====
-- StorageManager, capio/server/src/storage_manager.cpp and
-- capio/server/include/storage/manager.hpp: the files of the server by path, and for each thread its
-- open descriptors. CapioFile objects and the shared file offsets live in stores of their own, by
-- numbers that stand for their addresses: `dup` shares an offset, and `rename` moves an object to
-- another path and leaves the pointers to it valid.
pub mod Fds
pub mod Rename
pub mod Remove
use capio.Base.{
  ℕ, zero, suc, ◌+◌, ◌-◌, ◌≤◌, ◌<◌, Option, none, some, List, [], ◌∷◌, ◌++◌, map, Key, ◌==◌,
  nat_beq, if◌then◌else◌, Bool, true, false, ◌&&◌, ◌||◌, not, ◌↔◌, ◌≡◌, get_elem?, arith,
  string_key, nat_key, leb, length,
}
use Prim.Native.String.{String}
use capio.Base.Int.{ℤ, pos}
use capio.Base.Map.{Map, lookup, insert, erase}
use capio.Base.State.{St, ◌>>=◌, ◌>>◌, pure, exit, gets, modify, from_option, when}
use capio.File.{CapioFile, empty_file, new_file, open_file, add_fd, remove_fd}

-- A thread and one of its descriptors.
abbrev pub Fd : Type 0
Fd = ℕ × ℕ

unfoldable pub pair_beq : Fd → Fd → Bool
pair_beq (a, b) (c, d) = nat_beq a c && nat_beq b d

pub pair_beq_iff : (x y : Fd) → (pair_beq x y ≡ true) ↔ (x ≡ y)
unfolding pair_beq
pair_beq_iff (a, b) (c, d) = ground arith

instance unfoldable pub fd_key : Key Fd
unfolding pair_beq
fd_key = record { test = pair_beq; decides = pair_beq_iff }

-- An entry of `_opened_fd_map`; `none` is a null pointer.
pub record OpenedFd : Type 0 where
  pub path : String
  pub pointer : Option ℕ
  pub offset : Option ℕ

-- `_opened_fd_map[tid][fd]` is the entry of the pair; that the code also makes an empty inner map
-- for a thread shows nowhere.
pub record StorageManager : Type 0 where
  pub storage : Map String ℕ
  pub objects : Map ℕ CapioFile
  pub opened : Map Fd OpenedFd
  pub offsets : Map ℕ ℤ
  pub next_object : ℕ
  pub next_offset : ℕ

abbrev pub empty_fd : OpenedFd
empty_fd = record { path = ""; pointer = none; offset = none }

-- An object that is gone is not read: a dangling pointer faults.
unfoldable pub object : ℕ → St StorageManager CapioFile
object id m = from_option (lookup id m.objects) m

unfoldable pub set_object : ℕ → CapioFile → St StorageManager (Unit {0})
set_object id f m = some (tt, record m { objects = insert id f m.objects })

unfoldable pub update_object : ℕ → (CapioFile → CapioFile) → St StorageManager (Unit {0})
unfolding object set_object
update_object id change = do f ← object id; set_object id (change f)

unfoldable pub new_object : String → CapioFile → StorageManager → StorageManager
new_object path f m = record m {
  storage = insert path m.next_object m.storage;
  objects = insert m.next_object f m.objects;
  next_object = suc m.next_object;
}

-- `_storage[path]` makes the object where there is none.
unfoldable pub at_path : String → St StorageManager ℕ
unfolding new_object
at_path path m = elim (lookup path m.storage) [
  | some id ↦ some (id, m)
  | none ↦ some (m.next_object, new_object path empty_file m)
]

-- `_opened_fd_map[tid][fd]` makes an entry where there is none.
unfoldable pub at_fd : Fd → St StorageManager OpenedFd
at_fd fd m = elim (lookup fd m.opened) [
  | some entry ↦ some (entry, m)
  | none ↦ some (empty_fd, record m { opened = insert fd empty_fd m.opened })
]

unfoldable pub try_get : String → StorageManager → Option ℕ
try_get path m = lookup path m.storage

-- get, by path: ERR_EXIT if there is no such file.
unfoldable pub get : String → St StorageManager ℕ
get path m = from_option (lookup path m.storage) m

-- get, by descriptor: ERR_EXIT if it is not open.
unfoldable pub get_fd : Fd → St StorageManager ℕ
get_fd fd m = elim (lookup fd m.opened) [ none ↦ none | some entry ↦ from_option entry.pointer m ]

unfoldable pub get_path : Fd → St StorageManager String
get_path fd = do entry ← at_fd fd; pure entry.path

unfoldable pub fds_of : ℕ → List (Fd × OpenedFd) → List ℕ
fds_of tid [] = []
fds_of tid (((t, fd), entry) ∷ xs) =
    let rest = fds_of tid xs in if nat_beq t tid then fd ∷ rest else rest

-- getFileDescriptors(tid)
unfoldable pub get_file_descriptors : ℕ → StorageManager → List ℕ
unfolding fds_of
get_file_descriptors tid m = fds_of tid m.opened

unfoldable pub set_file_offset : Fd → ℤ → St StorageManager (Unit {0})
set_file_offset fd offset = do
  entry ← at_fd fd
  cell ← from_option entry.offset
  modify (λ m. record m { offsets = insert cell offset m.offsets })

unfoldable pub get_file_offset : Fd → St StorageManager ℤ
get_file_offset fd = do
  entry ← at_fd fd
  cell ← from_option entry.offset
  m ← gets (λ m. lookup cell m.offsets)
  from_option m

-- Each descriptor of the old path gets the new one.
unfoldable pub rename_opened : String → String → Map Fd OpenedFd → Map Fd OpenedFd
rename_opened oldpath newpath [] = []
rename_opened oldpath newpath ((fd, entry) ∷ m) =
    (fd, if entry.path == oldpath then record entry { path = newpath } else entry)
    ∷ rename_opened oldpath newpath m

-- `insert` of a map's node does nothing where the key is there, and then the node and its object are
-- destroyed.
unfoldable pub move_node : String → ℕ → StorageManager → StorageManager
move_node newpath id m = elim (lookup newpath m.storage) [
  | none ↦ record m { storage = insert newpath id m.storage }
  | some other ↦ record m { objects = erase id m.objects }
]

-- `key()` of the node of a path that is not there has no meaning: the fault.
unfoldable pub rename : String → String → St StorageManager (Unit {0})
rename oldpath newpath m = elim (lookup oldpath m.storage) [
  | none ↦ none
  | some id ↦ some (
    tt,
    move_node newpath id (record m {
      opened = rename_opened oldpath newpath m.opened;
      storage = erase oldpath m.storage;
    }),
  )
]

-- What add asks the CAPIO-CL engine of a path.
pub record FileConfig : Type 0 where
  pub directory_file_count : ℕ
  pub permanent : Bool
  pub commit_close_count : ℕ

-- CAPIO_DEFAULT_DIR_INITIAL_SIZE
abbrev pub default_dir_initial_size : ℕ
default_dir_initial_size = 1073741824

-- add: `try_emplace` leaves a file that is there as it is.
unfoldable pub add : FileConfig → String → Bool → ℕ → St StorageManager ℕ
add config path is_dir init_size m = elim (lookup path m.storage) [
  | some id ↦ some (id, m)
  | none ↦
      let size =
        if leb config.directory_file_count 1 then init_size else default_dir_initial_size in
      some (
        m.next_object,
        new_object path
            (new_file is_dir config.directory_file_count config.permanent size
              config.commit_close_count)
            m,
      )
]

unfoldable pub set_entry : Fd → OpenedFd → St StorageManager (Unit {0})
set_entry fd entry m = some (tt, record m { opened = insert fd entry m.opened })

-- dup: the new descriptor shares path, file and offset with the old one.
unfoldable pub dup : ℕ → ℕ → ℕ → St StorageManager (Unit {0})
dup tid old_fd new_fd = do
  entry ← at_fd (tid, old_fd)
  set_entry (tid, new_fd) entry
  id ← from_option entry.pointer
  update_object id open_file
  update_object id (add_fd tid new_fd)

-- _addNewFdToMap: the descriptor gets an offset of its own.
unfoldable pub add_new_fd_to_map : Fd → String → ℤ → St StorageManager (Unit {0})
add_new_fd_to_map fd path offset = do
  id ← at_path path
  cell ← gets (λ m. m.next_offset)
  modify (λ m. record m {
    offsets = insert cell offset m.offsets;
    next_offset = suc cell;
    opened = insert fd (record { path = path; pointer = some id; offset = some cell }) m.opened;
  })

-- _addNewFdToStorage
unfoldable pub add_new_fd_to_storage : Fd → String → Bool → St StorageManager (Unit {0})
add_new_fd_to_storage (tid, fd) path register_open = do
  id ← at_path path
  when register_open (update_object id open_file)
  update_object id (add_fd tid fd)

-- addFileToTid
unfoldable pub add_file_to_tid : Fd → String → ℤ → St StorageManager (Unit {0})
add_file_to_tid fd path offset = do
  add_new_fd_to_storage fd path true
  add_new_fd_to_map fd path offset

-- The loop of clone over the parent's descriptors.
unfoldable pub clone_fds : ℕ → ℕ → List ℕ → St StorageManager (Unit {0})
clone_fds parent_tid child_tid [] = pure tt
clone_fds parent_tid child_tid (fd ∷ fds) = do
  entry ← at_fd (parent_tid, fd)
  offset ← get_file_offset (parent_tid, fd)
  add_new_fd_to_storage (child_tid, fd) entry.path false
  add_new_fd_to_map (child_tid, fd) entry.path offset
  clone_fds parent_tid child_tid fds

unfoldable pub clone : ℕ → ℕ → St StorageManager (Unit {0})
clone parent_tid child_tid m = clone_fds parent_tid child_tid (get_file_descriptors parent_tid m) m

-- _removeFromTid
unfoldable pub remove_from_tid : Fd → St StorageManager (Unit {0})
remove_from_tid (tid, fd) = do
  entry ← at_fd (tid, fd)
  when (not (entry.path == "")) (do
    id ← from_option entry.pointer
    update_object id (remove_fd tid fd)
    modify (λ m. record m { opened = erase (tid, fd) m.opened }))

-- The loop of remove goes by index up to the length that the list of descriptors had at the start,
-- over the list as it is; an index past its end faults.
unfoldable pub remove_fds : ℕ → ℕ → ℕ → St StorageManager (Unit {0})
remove_fds id i zero = pure tt
remove_fds id i (suc n) = do
  f ← object id
  fd ← from_option (get_elem? f.threads_fd i)
  remove_from_tid fd
  remove_fds id (i + 1) n

unfoldable pub remove : String → St StorageManager (Unit {0})
remove path = do
  id ← get path
  f ← object id
  remove_fds id 0 (length f.threads_fd)
  modify (λ m. record m { storage = erase path m.storage; objects = erase id m.objects })
