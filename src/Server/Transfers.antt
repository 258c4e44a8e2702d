-- ===== src/Server/Transfers.antt =====
-- Copying between files and reading directories: capio/server/include/handlers/copy_file_range.hpp and
-- getdents.hpp, handle_remote_copy_file_range of capio/server/include/remote/handlers/copy_file_range.hpp,
-- and send_dirent_to_client of capio/server/include/utils/common.hpp.
use capio.Base.{
  ℕ, zero, suc, ◌+◌, ◌-◌, ◌*◌, ◌/◌, Option, none, some, List, [], ◌∷◌, ◌++◌, min, ltb, leb,
  if◌then◌else◌, Bool, true, false, ◌&&◌, ◌||◌, not, ◌==◌, string_key, nat_key,
}
use Prim.Native.String.{String}
use capio.Base.Int.{ℤ, pos, negsuc, ◌+ℤ◌, leb_ℤ, ltb_ℤ, eqb_ℤ}
use capio.Base.Map.{lookup}
use capio.Base.State.{St, ◌>>=◌, ◌>>◌, exit, gets}
use capio.Base.Mem.{Mem, load}
use capio.Sectors.{get_file_size}
use capio.File.{CapioFile, is_committed}
use capio.Storage.{object, get, get_path, get_fd, get_file_offset, set_file_offset}
use capio.Clients.{reply_to_client, reply_with_data, get_app_name, is_producer}
use capio.Server.{
  Env, Server, Location, CopyFileRange, copy_for_commit, copy_for_data, copy_for_file,
  dirents_for_file, dirents_for_data, for_remote_copy, for_remote_dirents, on_storage, on_clients,
  suspend, not_found, sector_end,
}
use capio.Server.Publish.{copy_file_range_data}
use capio.Server.Read.{serve}
use capio.Server.Locations.{get_file_location}

-- handle_local_copy_file_range, once the file and the end of the sector are known.
unfoldable pub local_copy : Env → CopyFileRange → ℕ → Bool → ℤ → St Server (Unit {0})
local_copy env copy id file_complete end_of_sector =
    if not file_complete && not (env.is_firable copy.path_in)
    then suspend (copy_for_commit id copy)
    else if not file_complete
        && (eqb_ℤ end_of_sector not_found
            || ltb_ℤ end_of_sector (pos (copy.offset_in + copy.count)))
    then suspend (copy_for_data id copy)
    else copy_file_range_data env copy

unfoldable pub handle_local_copy_file_range : Env → CopyFileRange → Bool → St Server (Unit {0})
handle_local_copy_file_range env copy is_prod = do
  id ← on_storage (get copy.path_in)
  f ← on_storage (object id)
  local_copy env copy id (is_committed f || is_prod) (sector_end (pos copy.offset_in) f)

-- Whether the copy of the input on this node has the data already.
abbrev pub data_here : CopyFileRange → ℤ → CapioFile → Bool
data_here copy end_of_sector f =
    (not (eqb_ℤ end_of_sector not_found) && leb_ℤ (pos (copy.offset_in + copy.count)) end_of_sector)
    || (is_committed f
        && eqb_ℤ (if eqb_ℤ end_of_sector not_found then pos 0 else end_of_sector)
            (pos f.real_file_size))

unfoldable pub handle_remote_copy_file_range : Env → CopyFileRange → St Server (Unit {0})
handle_remote_copy_file_range env copy = do
  id ← on_storage (get copy.path_in)
  f ← on_storage (object id)
  if data_here copy (sector_end (pos copy.offset_in) f) f
      then copy_file_range_data env copy
      else suspend (for_remote_copy copy)

unfoldable pub handle_copy_file_range : Env → CopyFileRange → Bool → St Server (Unit {0})
handle_copy_file_range env copy is_prod =
    if is_prod then handle_local_copy_file_range env copy is_prod else do
      l ← get_file_location copy.path_in
      if l.node == env.node_name
          then handle_local_copy_file_range env copy is_prod
          else handle_remote_copy_file_range env copy

abbrev pub is_absent : Option Location → Bool
is_absent none = true
is_absent (some l) = false

unfoldable pub copy_file_range_handler : Env → ℕ → ℕ → ℕ → ℕ → ℕ → ℕ → St Server (Unit {0})
copy_file_range_handler env tid fd_in fd_out offset_in offset_out count = do
  path_in ← on_storage (get_path (tid, fd_in))
  path_out ← on_storage (get_path (tid, fd_out))
  app_name ← gets (λ s. get_app_name tid s.clients)
  is_prod ← gets (λ s. env.is_producer_of path_in app_name || is_producer tid path_in s.clients)
  absent ← gets (λ s. is_absent (lookup path_in s.locations))
  let copy : CopyFileRange = record {
    tid = tid;
    fd_in = fd_in;
    fd_out = fd_out;
    offset_in = offset_in;
    offset_out = offset_out;
    count = count;
    path_in = path_in;
    path_out = path_out;
  }
  if not is_prod && absent
      then suspend (copy_for_file copy)
      else handle_copy_file_range env copy is_prod

-- The loop of send_dirent_to_client: `n` entries from the entry `i` on.
unfoldable pub dirents : Env → Mem → ℕ → ℕ → List ℕ
dirents env incoming i zero = []
dirents env incoming i (suc n) =
    env.copy_dirent (load incoming (i * env.dirent_size) env.dirent_size)
      ((i + 1) * env.dirent_size)
    ++ dirents env incoming (i + 1) n

abbrev pub byte_at : List ℕ → ℕ → ℕ
byte_at [] i = 0
byte_at (b ∷ bs) zero = b
byte_at (b ∷ bs) (suc i) = byte_at bs i

-- The entries, in a block of their own, to the client; past the end of the block of the file the loop
-- faults.
unfoldable pub send_entries : Env → ℕ → ℕ → CapioFile → ℕ → ℕ → ℕ → St Server (Unit {0})
send_entries env tid fd f offset first_entry last_entry s = elim f.buffer.block [
  | none ↦ none
  | some incoming ↦
      let actual_size = (last_entry - first_entry) * env.dirent_size in
      let entries = dirents env incoming first_entry (last_entry - first_entry) in
      (if leb (last_entry * env.dirent_size) f.buffer.size
          then (do
            on_clients (reply_with_data tid offset (λ x. byte_at entries (x - offset)) actual_size)
            on_storage (set_file_offset (tid, fd) (pos (offset + actual_size))))
          else exit)
        s
]

-- send_dirent_to_client, once the entries that are asked for are known.
unfoldable pub send_range : Env → ℕ → ℕ → ℕ → ℕ → ℕ → CapioFile → ℕ → ℕ → St Server (Unit {0})
send_range env tid fd id offset count f first_entry last_entry = do
  path ← on_storage (get_path (tid, fd))
  if ltb first_entry last_entry
      then send_entries env tid fd f offset first_entry last_entry
      else if not (is_committed f) && env.is_firable path
      then suspend (dirents_for_data id ((last_entry + 1) * env.dirent_size) tid fd count)
      else on_clients (reply_to_client tid (pos offset))

-- The entries before a negative offset are not known.
unfoldable pub send_dirent_to_client : Env → ℕ → ℕ → ℕ → ℤ → ℕ → St Server (Unit {0})
send_dirent_to_client env tid fd id (negsuc offset) count = exit
send_dirent_to_client env tid fd id (pos offset) count = do
  f ← on_storage (object id)
  send_range env tid fd id offset count f (offset / env.dirent_size)
      (min (offset + count) (get_file_size f.sectors) / env.dirent_size)

unfoldable pub wait_for_dirent_data : Env → ℕ → ℕ → ℕ → ℕ → St Server (Unit {0})
wait_for_dirent_data env tid fd count id = do
  current_size ← on_storage (get_file_offset (tid, fd))
  send_dirent_to_client env tid fd id current_size count

-- The branches of request_remote_getdents.
unfoldable pub remote_getdents : Env → ℕ → ℕ → ℕ → ℕ → ℤ → CapioFile → St Server (Unit {0})
remote_getdents env tid fd count id offset f =
    let end_of_read = offset +ℤ pos count in
    let end_of_sector = sector_end offset f in
    if is_committed f
      && (leb_ℤ end_of_read end_of_sector
          || eqb_ℤ (if eqb_ℤ end_of_sector not_found then pos 0 else end_of_sector)
              (pos f.real_file_size))
    then send_dirent_to_client env tid fd id offset count
    else if leb_ℤ end_of_read end_of_sector
    then serve env id tid fd offset (pos count)
    else suspend (for_remote_dirents tid fd count)

unfoldable pub request_remote_getdents : Env → ℕ → ℕ → ℕ → St Server (Unit {0})
request_remote_getdents env tid fd count = do
  id ← on_storage (get_fd (tid, fd))
  f ← on_storage (object id)
  offset ← on_storage (get_file_offset (tid, fd))
  remote_getdents env tid fd count id offset f

unfoldable pub local_getdents : Env → String → ℕ → ℕ → ℕ → St Server (Unit {0})
local_getdents env path tid fd count = do
  id ← on_storage (get path)
  offset ← on_storage (get_file_offset (tid, fd))
  send_dirent_to_client env tid fd id offset count

unfoldable pub getdents_at :
    Env → String → ℕ → ℕ → ℕ → Bool → Option Location → St Server (Unit {0})
getdents_at env path tid fd count is_prod none =
    if is_prod
    then local_getdents env path tid fd count
    else suspend (dirents_for_file path tid fd count)
getdents_at env path tid fd count is_prod (some l) =
    if is_prod || l.node == env.node_name || env.capio_dir == path
    then local_getdents env path tid fd count
    else request_remote_getdents env tid fd count

unfoldable pub handle_getdents : Env → ℕ → ℕ → ℕ → St Server (Unit {0})
handle_getdents env tid fd count = do
  app_name ← gets (λ s. get_app_name tid s.clients)
  path ← on_storage (get_path (tid, fd))
  location ← gets (λ s. lookup path s.locations)
  getdents_at env path tid fd count (env.is_producer_of path app_name) location

-- What the thread of handle_getdents does once the location is there: here the names are compared.
unfoldable pub getdents_found : Env → String → ℕ → ℕ → ℕ → St Server (Unit {0})
getdents_found env path tid fd count = do
  l ← get_file_location path
  if l.node == env.node_name
      then handle_getdents env tid fd count
      else request_remote_getdents env tid fd count
