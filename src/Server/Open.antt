-- ===== src/Server/Open.antt =====
-- Opening and creating files: capio/server/include/handlers/open.hpp. A handler is modelled from the
-- arguments that it has read from the request on.
use capio.Base.{ℕ, none, some, if◌then◌else◌, Bool, true, false, ◌&&◌, not, string_key, nat_key}
use Prim.Native.String.{String}
use capio.Base.Int.{ℤ, pos}
use capio.Base.State.{St, ◌>>=◌, ◌>>◌, modify, when}
use capio.File.{register_first_write}
use capio.Storage.{object, update_object, try_get, add, add_file_to_tid}
use capio.Clients.{reply_to_client, register_produced_file}
use capio.Server.{Env, Server, for_creation, on_storage, on_clients, suspend}
use capio.Server.Handlers.{request_skip}
use capio.Server.Publish.{write_file_location, update_directory}
use capio.Server.Locations.{is_located}

-- tryGet, or else add: add returns a file that is there.
unfoldable pub get_or_add : Env → String → St Server ℕ
get_or_add env path = on_storage (add (env.file_config path) path false env.file_initial_size)

unfoldable pub update_file_metadata : Env → String → ℕ → ℕ → Bool → ℤ → St Server (Unit {0})
update_file_metadata env path tid fd is_creat offset = do
  id ← get_or_add env path
  on_storage (add_file_to_tid (tid, fd) path offset)
  f ← on_storage (object id)
  when (f.first_write && is_creat) (do
    on_clients (modify (register_produced_file tid path))
    on_storage (update_object id register_first_write)
    modify (write_file_location env path)
    update_directory env tid path)

-- What the thread of wait_for_file_creation does once load_file_location has found the file.
unfoldable pub wait_for_file_creation : Env → String → ℕ → ℕ → St Server (Unit {0})
wait_for_file_creation env path tid fd = do
  update_file_metadata env path tid fd false (pos 0)
  on_clients (reply_to_client tid (pos 0))

unfoldable pub handle_create : Env → ℕ → ℕ → String → St Server (Unit {0})
handle_create env tid fd path = do
  found ← is_located env path
  update_file_metadata env path tid fd (not found) (pos 0)
  on_clients (reply_to_client tid (pos 0))

unfoldable pub handle_create_exclusive : Env → ℕ → ℕ → String → St Server (Unit {0})
handle_create_exclusive env tid fd path s = elim (try_get path s.storage) [
  | some id ↦ on_clients (reply_to_client tid (pos 1)) s
  | none ↦
      (do
        on_clients (reply_to_client tid (pos 0))
        update_file_metadata env path tid fd true (pos 0))
        s
]

unfoldable pub handle_open : Env → ℕ → ℕ → String → St Server (Unit {0})
handle_open env tid fd path = do
  found ← is_located env path
  if found
      then (do
        update_file_metadata env path tid fd false (pos 0)
        on_clients (reply_to_client tid (pos 0)))
      else suspend (for_creation path tid fd)

-- The first lines of the handlers: a path that CAPIO-CL excludes is left to the system.
unfoldable pub unless_excluded : Env → ℕ → String → St Server (Unit {0}) → St Server (Unit {0})
unless_excluded env tid path handle =
    if env.is_excluded path then on_clients (reply_to_client tid request_skip) else handle

unfoldable pub create_handler : Env → ℕ → ℕ → String → St Server (Unit {0})
create_handler env tid fd path = unless_excluded env tid path (handle_create env tid fd path)

unfoldable pub create_exclusive_handler : Env → ℕ → ℕ → String → St Server (Unit {0})
create_exclusive_handler env tid fd path =
    unless_excluded env tid path (handle_create_exclusive env tid fd path)

unfoldable pub open_handler : Env → ℕ → ℕ → String → St Server (Unit {0})
open_handler env tid fd path = unless_excluded env tid path (handle_open env tid fd path)
