-- ===== src/Server.antt =====
-- The state of the server that its handlers share (the globals of capio/server/capio_server.cpp and
-- files_location of capio/server/include/utils/location.hpp), and what they all do to it. The
-- CAPIO-CL engine, the configuration and the system are the environment.
pub mod Read
pub mod Handlers
pub mod Publish
pub mod Locations
pub mod Open
pub mod Stat
pub mod Files
pub mod Transfers
pub mod Dispatch
pub mod Keeps
pub mod Safety
use capio.Base.{
  ℕ, ◌+◌, ◌≤◌, ◌≡◌, Option, none, some, List, [], ◌∷◌, ◌++◌, nat_beq, leb, if◌then◌else◌, Bool,
  true, false, ◌&&◌, ◌||◌, not, ◌==◌, string_key, nat_key,
}
use Prim.Native.String.{String}
use capio.Base.Int.{ℤ, pos, negsuc}
use capio.Base.Map.{Map, lookup, insert, erase}
use capio.Base.State.{St, ◌>>=◌, ◌>>◌, pure, exit, gets, modify, from_option, when}
use capio.Buffer.{System}
use capio.Sectors.{get_sector_end}
use capio.File.{CapioFile, create_buffer}
use capio.Storage.{Fd, FileConfig, StorageManager, object, set_object}
use capio.Clients.{ClientManager, reply_to_client, reply_with_data}

-- What the handlers ask of CapioCLEngine, of RuntimeConfiguration, of the backend and of the system.
pub record Env : Type 0 where
  -- isProducer(path, app_name)
  pub is_producer_of : String → String → Bool
  pub is_firable : String → Bool
  -- getCommitRule(path) is ON_CLOSE, ON_TERMINATION, or ON_N_FILES.
  pub commits_on_close : String → Bool
  pub commits_on_termination : String → Bool
  pub commits_on_n_files : String → Bool
  pub is_excluded : String → Bool
  pub file_config : String → FileConfig
  pub node_name : String
  pub capio_dir : String
  pub file_initial_size : ℕ
  pub system : System
  -- The bytes of a path in the file of the locations.
  pub byte_length : String → ℕ
  -- get_parent_dir_path and std::filesystem::path::filename
  pub parent_dir : String → String
  pub file_name : String → String
  -- The nodes, and for each the lines of its file of locations as they are when the file is read: a
  -- path, and whether the line has been marked as deleted; and what lseek says the position in the
  -- file then is.
  pub nodes : List String
  pub location_lines : String → List (Bool × String)
  pub location_position : String → ℤ
  -- The bytes of a linux_dirent64: the path that d_ino is the hash of, d_name, d_off, and whether
  -- d_type is DT_DIR.
  pub dirent : String → String → ℕ → Bool → List ℕ
  -- sizeof(linux_dirent64), and the bytes that send_dirent_to_client makes of those of an entry, with
  -- another d_off.
  pub dirent_size : ℕ
  pub copy_dirent : List ℕ → ℕ → List ℕ

-- An entry of files_location. `own_name` says that the node's name is the very string that the
-- backend returns, and not a copy of it.
pub record Location : Type 0 where
  pub node : String
  pub own_name : Bool
  pub offset : ℤ

-- CSCopyFileRange_t
pub record CopyFileRange : Type 0 where
  pub tid : ℕ
  pub fd_in : ℕ
  pub fd_out : ℕ
  pub offset_in : ℕ
  pub offset_out : ℕ
  pub count : ℕ
  pub path_in : String
  pub path_out : String

-- A line of a file of locations that is marked as deleted: in the file of a node, at an offset; behind
-- the end of the file of another node, which is open to append; or in the file of this node, wherever
-- its position is.
pub data Mark : Type 0 where
  at_offset : String → ℤ → Mark
  at_end : String → Mark
  at_position : Mark

-- What a detached thread waits for before it goes on, with what it has captured.
pub data Waiting : Type 0 where
  -- waitForCommit or waitForData on an object, then handle_pending_read.
  for_commit : ℕ → ℕ → ℕ → ℤ → ℕ → Waiting
  for_data : ℕ → ℤ → ℕ → ℕ → ℤ → ℕ → Waiting
  -- wait_for_file
  for_file : String → ℕ → ℕ → ℕ → Waiting
  -- A read that the backend has been asked for.
  for_remote_read : ℕ → ℕ → ℕ → Waiting
  -- wait_for_file_creation, and wait_for_file_completion of a stat.
  for_creation : String → ℕ → ℕ → Waiting
  for_completion : ℕ → String → Waiting
  -- A stat that the backend has been asked for.
  for_remote_stat : ℕ → String → Waiting
  -- handle_local_copy_file_range, on an object, and copy_file_range_handler.
  copy_for_commit : ℕ → CopyFileRange → Waiting
  copy_for_data : ℕ → CopyFileRange → Waiting
  copy_for_file : CopyFileRange → Waiting
  -- handle_getdents and wait_for_dirent_data, on an object.
  dirents_for_file : String → ℕ → ℕ → ℕ → Waiting
  dirents_for_data : ℕ → ℕ → ℕ → ℕ → ℕ → Waiting
  -- A copy and a getdents that the backend has been asked for.
  for_remote_copy : CopyFileRange → Waiting
  for_remote_dirents : ℕ → ℕ → ℕ → Waiting
  -- registerClient, until the thread may go on.
  for_parent : ℕ → Waiting

pub record Server : Type 0 where
  pub storage : StorageManager
  pub clients : ClientManager
  pub locations : Map String Location
  -- The lines of the file of the locations of this node, a path and a node each.
  pub published : List (String × String)
  -- The marks in the files of the locations.
  pub marks : List Mark
  pub waiting : List Waiting

-- An operation on one of the managers.
unfoldable pub on_storage : {A : Type 0} → St StorageManager A → St Server A
on_storage op s = elim (op s.storage) [
  | none ↦ none
  | some (a, storage) ↦ some (a, record s { storage = storage })
]

unfoldable pub on_clients : {A : Type 0} → St ClientManager A → St Server A
on_clients op s = elim (op s.clients) [
  | none ↦ none
  | some (a, clients) ↦ some (a, record s { clients = clients })
]

-- Start a thread that waits.
unfoldable pub suspend : Waiting → St Server (Unit {0})
suspend w s = some (tt, record s { waiting = s.waiting ++ (w ∷ []) })

-- CAPIO_SECTOR_NOT_FOUND, and the answer of getSectorEnd as the number that the code has. No sector
-- starts before a negative offset.
abbrev pub not_found : ℤ
not_found = negsuc 0

abbrev pub as_offset : Option ℕ → ℤ
as_offset none = not_found
as_offset (some e) = pos e

abbrev pub sector_end : ℤ → CapioFile → ℤ
sector_end (pos o) f = as_offset (get_sector_end o f.sectors)
sector_end (negsuc o) f = not_found

-- createBuffer(path, false) on a file of the storage.
unfoldable pub ready_buffer : Env → ℕ → St StorageManager CapioFile
ready_buffer env id = do
  f ← object id
  f' ← from_option (create_buffer env.system false f)
  set_object id f'
  pure f'

-- replyToClient(tid, offset, buffer, count): a read before the block, past it, or of a negative
-- number of bytes faults.
unfoldable pub reply_block : ℕ → ℤ → CapioFile → ℤ → St ClientManager (Unit {0})
reply_block tid (pos o) f (pos n) c = elim f.buffer.block [
  | none ↦ none
  | some m ↦ if leb (o + n) f.buffer.size || nat_beq n 0 then reply_with_data tid o m n c else none
]
reply_block tid (pos o) f (negsuc n) c = none
reply_block tid (negsuc o) f n c = none
