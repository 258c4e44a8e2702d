-- ===== src/Server/Publish.antt =====
-- Writing, and what makes a file known: write_handler (capio/server/include/handlers/write.hpp),
-- register_written_data and copy_file_range_data (capio/server/include/utils/common.hpp), the
-- directories of capio/server/src/storage_manager.cpp, and write_file_location of
-- capio/server/include/utils/location.hpp. The failures of the calls on the file of the locations
-- are not modelled.
pub mod Writes
use capio.Base.{
  ℕ, ◌+◌, ◌≤◌, ◌≡◌, Option, none, some, List, [], ◌∷◌, ◌++◌, nat_beq, leb, if◌then◌else◌, Bool,
  true, false, ◌&&◌, ◌||◌, not, ◌==◌, string_key, nat_key, length,
}
use Prim.Native.String.{String}
use capio.Base.Int.{ℤ, pos, negsuc, ◌+ℤ◌, ◌-ℤ◌, eqb_ℤ, min_ℤ}
use capio.Base.Map.{lookup}
use capio.Base.State.{St, ◌>>=◌, ◌>>◌, pure, exit, gets, modify, from_option, when}
use capio.Sectors.{get_file_size}
use capio.File.{
  CapioFile, create_buffer, read_from_queue, add_sector, copy_from_file, register_first_write,
  increment_directory_file_count, set_committed,
}
use capio.File.Data.{expand_if_needed}
use capio.File.Write.{write_file}
use capio.Storage.{
  get, get_path, get_file_offset, set_file_offset, object, update_object, add,
  default_dir_initial_size,
}
use capio.Clients.{emplace, reply_to_client, receive_data, register_produced_file}
use capio.Server.{
  Env, Server, Location, CopyFileRange, on_storage, on_clients, not_found, sector_end,
}
use capio.Server.Handlers.{try_update}

-- `emplace` leaves a location that is there as it is.
unfoldable pub add_file_location : String → Location → Server → Server
add_file_location path l s = record s { locations = emplace path l s.locations }

-- The size of the file of the locations: each line is a path, a space, a node and a newline.
unfoldable pub published_size : Env → List (String × String) → ℕ
published_size env [] = 0
published_size env ((path, node) ∷ ls) =
    env.byte_length path + 1 + env.byte_length node + 1 + published_size env ls

unfoldable pub write_file_location : Env → String → Server → Server
write_file_location env path s =
    let l : Location = record {
      node = env.node_name;
      own_name = true;
      offset = pos (published_size env s.published);
    } in
    add_file_location path l (record s { published = s.published ++ ((path, env.node_name) ∷ []) })

-- ManagerDirEntryType
pub data EntryType : Type 0 where
  regular_entry dot_entry dot_dot_entry : EntryType

unfoldable pub entry_name : Env → EntryType → String → String
entry_name env regular_entry path = env.file_name path
entry_name env dot_entry path = "."
entry_name env dot_dot_entry path = ".."

-- The entry goes behind those that the directory has; its type is that of the directory.
unfoldable pub append_entry : Env → String → EntryType → CapioFile → Option CapioFile
append_entry env file_path type f =
    let file_size = get_file_size f.sectors in
    let name = entry_name env type file_path in
    let size = length (env.dirent file_path name 0 f.directory) in
    elim (write_file env.system file_size (env.dirent file_path name (file_size + size) f.directory)
      f) [ none ↦ none | some g ↦ some (increment_directory_file_count 1 g) ]

-- addDirectoryEntry
unfoldable pub add_directory_entry : Env → ℕ → String → String → EntryType → St Server (Unit {0})
add_directory_entry env tid file_path dir type = do
  id ← on_storage (get dir)
  try_update id (append_entry env file_path type)
  on_clients (modify (register_produced_file tid dir))
  f ← on_storage (object id)
  when (nat_beq f.n_files f.n_files_expected && env.commits_on_n_files file_path)
      (on_storage (update_object id (set_committed true)))

-- updateDirectory
unfoldable pub update_directory : Env → ℕ → String → St Server (Unit {0})
update_directory env tid file_path = do
  id ← on_storage (get (env.parent_dir file_path))
  f ← on_storage (object id)
  when f.first_write (do
    on_storage (update_object id register_first_write)
    modify (write_file_location env (env.parent_dir file_path)))
  add_directory_entry env tid file_path (env.parent_dir file_path) regular_entry

-- addDirectory, once the directory is found to have no location.
unfoldable pub new_directory : Env → ℕ → String → St Server (Unit {0})
new_directory env tid path = do
  id ← on_storage (add (env.file_config path) path true default_dir_initial_size)
  f ← on_storage (object id)
  when f.first_write (do
    on_storage (update_object id register_first_write)
    if path == env.capio_dir
        then modify (
            add_file_location path
              (record { node = env.node_name; own_name = true; offset = negsuc 0 }))
        else do modify (write_file_location env path); update_directory env tid path
    add_directory_entry env tid path path dot_entry
    add_directory_entry env tid (env.parent_dir path) path dot_dot_entry)

unfoldable pub add_directory : Env → ℕ → String → St Server ℕ
add_directory env tid path s = elim (lookup path s.locations) [
  | none ↦ (do new_directory env tid path; pure 0) s
  | some l ↦ some (1, s)
]

unfoldable pub register_written_data : Env → ℕ → String → ℕ → ℕ → ℕ → St Server (Unit {0})
register_written_data env tid path id offset end_of_write = do
  on_clients (modify (register_produced_file tid path))
  on_storage (update_object id (add_sector offset end_of_write))
  f ← on_storage (object id)
  when f.first_write (do
    on_storage (update_object id register_first_write)
    modify (write_file_location env path)
    update_directory env tid path)

-- createBuffer(path, true), expandBuffer as needed, and the data of the queue.
unfoldable pub put_data : Env → ℕ → List ℕ → CapioFile → Option CapioFile
put_data env offset bytes f = elim (create_buffer env.system true f) [
  | none ↦ none
  | some g ↦ elim (expand_if_needed env.system (offset + length bytes) g) [
    | none ↦ none
    | some h ↦ read_from_queue offset bytes h
  ]
]

-- A write before the start of the block faults.
unfoldable pub write_at : Env → ℕ → ℕ → String → ℕ → List ℕ → ℤ → St Server (Unit {0})
write_at env tid fd path id bytes (negsuc o) = exit
write_at env tid fd path id bytes (pos o) = do
  try_update id (put_data env o bytes)
  register_written_data env tid path id o (o + length bytes)
  on_storage (set_file_offset (tid, fd) (pos (o + length bytes)))

unfoldable pub write_handler : Env → ℕ → ℕ → ℕ → St Server (Unit {0})
write_handler env tid fd count = do
  offset ← on_storage (get_file_offset (tid, fd))
  path ← on_storage (get_path (tid, fd))
  id ← on_storage (get path)
  bytes ← on_clients (receive_data tid count)
  write_at env tid fd path id bytes offset

unfoldable pub copy_data : Env → CopyFileRange → ℕ → CapioFile → CapioFile → Option CapioFile
copy_data env copy n src f = elim (create_buffer env.system true f) [
  | none ↦ none
  | some g ↦ elim (expand_if_needed env.system (copy.offset_out + n) g) [
    | none ↦ none
    | some h ↦
        copy_from_file (if copy.path_in == copy.path_out then h.buffer else src.buffer)
          copy.offset_in copy.offset_out n h
  ]
]

unfoldable pub copy_some : Env → CopyFileRange → CapioFile → ℕ → St Server (Unit {0})
copy_some env copy src n = when (not (nat_beq n 0)) (do
  id ← on_storage (get copy.path_out)
  try_update id (copy_data env copy n src)
  register_written_data env copy.tid copy.path_out id copy.offset_out (copy.offset_out + n))

-- The copy of some bytes, or of none.
unfoldable pub copy_bytes : Env → CopyFileRange → CapioFile → ℤ → St Server (Unit {0})
copy_bytes env copy src (negsuc n) = on_clients (reply_to_client copy.tid (negsuc n))
copy_bytes env copy src (pos n) = do
  copy_some env copy src n
  on_clients (reply_to_client copy.tid (pos n))

unfoldable pub copy_file_range_data : Env → CopyFileRange → St Server (Unit {0})
copy_file_range_data env copy = do
  id ← on_storage (get copy.path_in)
  src ← on_storage (object id)
  let end = sector_end (pos copy.offset_in) src
  copy_bytes env copy src
      (if eqb_ℤ end not_found then pos 0 else min_ℤ (pos copy.count) (end -ℤ pos copy.offset_in))
