-- ===== src/Server/Read.antt =====
-- The read handlers, capio/server/include/handlers/read.hpp.
pub mod Serve
pub mod Local
use capio.Base.{
  ℕ, ◌+◌, ◌≤◌, ◌≡◌, Option, none, some, List, [], ◌∷◌, nat_beq, leb, if◌then◌else◌, Bool, true,
  false, ◌&&◌, ◌||◌, not, ◌==◌, string_key, nat_key,
}
use Prim.Native.String.{String}
use capio.Base.Int.{ℤ, pos, negsuc, ◌+ℤ◌, ◌-ℤ◌, leb_ℤ, ltb_ℤ, eqb_ℤ, min_ℤ}
use capio.Base.Map.{lookup}
use capio.Base.State.{St, ◌>>=◌, ◌>>◌, pure, exit, gets, from_option, when}
use capio.File.{CapioFile, is_committed}
use capio.Storage.{get, get_path, get_file_offset, set_file_offset, object}
use capio.Clients.{reply_to_client, get_app_name, is_producer}
use capio.Server.{
  Env, Server, Location, Waiting, for_commit, for_data, for_file, for_remote_read, on_storage,
  on_clients, suspend, not_found, sector_end, ready_buffer, reply_block,
}

-- The last three calls of each read that is served.
unfoldable pub serve : Env → ℕ → ℕ → ℕ → ℤ → ℤ → St Server (Unit {0})
serve env id tid fd offset n = do
  f ← on_storage (ready_buffer env id)
  on_clients (reply_block tid offset f n)
  on_storage (set_file_offset (tid, fd) (offset +ℤ n))

-- How many bytes a read that has waited gets.
unfoldable pub pending_bytes : ℤ → ℤ → ℕ → ℤ
pending_bytes end_of_sector process_offset count =
    if ltb_ℤ (process_offset +ℤ pos count) end_of_sector
    then pos count
    else if eqb_ℤ end_of_sector not_found
    then pos 0
    else end_of_sector -ℤ process_offset

unfoldable pub handle_pending_read : Env → ℕ → ℕ → ℤ → ℕ → St Server (Unit {0})
handle_pending_read env tid fd process_offset count = do
  path ← on_storage (get_path (tid, fd))
  id ← on_storage (get path)
  f ← on_storage (object id)
  serve env id tid fd process_offset
      (pending_bytes (sector_end process_offset f) process_offset count)

-- The branches of handle_local_read, once the file and the offset are known.
unfoldable pub local_read : Env → ℕ → ℕ → ℕ → Bool → Bool → ℕ → ℤ → ℤ → St Server (Unit {0})
local_read env tid fd count file_complete firable id process_offset end_of_sector =
    if not (file_complete || firable)
    then suspend (for_commit id tid fd process_offset count)
    else if eqb_ℤ end_of_sector not_found && file_complete
    then on_clients (reply_to_client tid process_offset)
    else if (eqb_ℤ end_of_sector not_found || ltb_ℤ end_of_sector (process_offset +ℤ pos count))
        && not file_complete
    then suspend (for_data id (process_offset +ℤ pos count) tid fd process_offset count)
    else serve env id tid fd process_offset (min_ℤ (pos count) (end_of_sector -ℤ process_offset))

unfoldable pub handle_local_read : Env → ℕ → ℕ → ℕ → Bool → St Server (Unit {0})
handle_local_read env tid fd count is_prod = do
  path ← on_storage (get_path (tid, fd))
  id ← on_storage (get path)
  process_offset ← on_storage (get_file_offset (tid, fd))
  f ← on_storage (object id)
  local_read env tid fd count (is_committed f || is_prod) (env.is_firable path) id process_offset
      (sector_end process_offset f)

-- The branches of request_remote_read.
unfoldable pub remote_read : Env → ℕ → ℕ → ℕ → ℕ → ℤ → CapioFile → St Server (Unit {0})
remote_read env tid fd count id offset f =
    let end_of_read = offset +ℤ pos count in
    let end_of_sector = sector_end offset f in
    if is_committed f
      && (leb_ℤ end_of_read end_of_sector
          || eqb_ℤ (if eqb_ℤ end_of_sector not_found then pos 0 else end_of_sector)
              (pos f.real_file_size))
    then handle_local_read env tid fd count true
    else if leb_ℤ end_of_read end_of_sector
    then serve env id tid fd offset (pos count)
    else suspend (for_remote_read tid fd count)

unfoldable pub request_remote_read : Env → ℕ → ℕ → ℕ → St Server (Unit {0})
request_remote_read env tid fd count = do
  path ← on_storage (get_path (tid, fd))
  id ← on_storage (get path)
  f ← on_storage (object id)
  offset ← on_storage (get_file_offset (tid, fd))
  remote_read env tid fd count id offset f

-- What the thread of wait_for_file does once the location is there: it compares the addresses of the
-- names, not the names.
unfoldable pub wait_for_file : Env → String → ℕ → ℕ → ℕ → St Server (Unit {0})
wait_for_file env path tid fd count s = elim (lookup path s.locations) [
  | none ↦ none
  | some l ↦
      (if l.own_name
          then handle_local_read env tid fd count false
          else request_remote_read env tid fd count)
        s
]

unfoldable pub read_at : Env → String → ℕ → ℕ → ℕ → Bool → Option Location → St Server (Unit {0})
read_at env path tid fd count is_prod none =
    if is_prod
    then handle_local_read env tid fd count is_prod
    else suspend (for_file path tid fd count)
read_at env path tid fd count is_prod (some l) =
    if is_prod || l.node == env.node_name || env.capio_dir == path
    then handle_local_read env tid fd count is_prod
    else request_remote_read env tid fd count

unfoldable pub handle_read : Env → ℕ → ℕ → ℕ → St Server (Unit {0})
handle_read env tid fd count = do
  path ← on_storage (get_path (tid, fd))
  app_name ← gets (λ s. get_app_name tid s.clients)
  is_prod ← gets (λ s. env.is_producer_of path app_name || is_producer tid path s.clients)
  location ← gets (λ s. lookup path s.locations)
  read_at env path tid fd count is_prod location
