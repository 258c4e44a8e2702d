-- ===== src/Server/Stat.antt =====
-- The stat handlers, capio/server/include/handlers/stat.hpp.
pub mod Answered
pub mod Missing
use capio.Base.{
  ℕ, ◌+◌, ◌≡◌, Option, none, some, List, [], ◌∷◌, if◌then◌else◌, Bool, true, false, ◌&&◌, ◌||◌, not,
  ◌==◌, string_key, nat_key,
}
use Prim.Native.String.{String}
use capio.Base.Int.{ℤ, pos, negsuc}
use capio.Base.Map.{lookup}
use capio.Base.State.{St, ◌>>=◌, ◌>>◌, pure, gets, modify, from_option, when}
use capio.Sectors.{get_file_size}
use capio.File.{CapioFile, is_committed}
use capio.Storage.{object, get, get_path}
use capio.Clients.{reply_to_client, get_app_name}
use capio.Server.{
  Env, Server, Location, for_completion, for_remote_stat, on_storage, on_clients, suspend,
  ready_buffer,
}
use capio.Server.Locations.{get_file_location, is_located}
use capio.Server.Open.{get_or_add, unless_excluded}

-- The size, and then whether it is a directory.
unfoldable pub reply_size : ℕ → CapioFile → St Server (Unit {0})
reply_size tid f = do
  on_clients (reply_to_client tid (pos (get_file_size f.sectors)))
  on_clients (reply_to_client tid (pos (if f.directory then 1 else 0)))

-- What the thread of wait_for_file_completion does once load_file_location has found the file. It
-- compares the addresses of the names of the nodes.
unfoldable pub wait_for_file_completion : Env → ℕ → String → St Server (Unit {0})
wait_for_file_completion env tid path = do
  id ← on_storage (get path)
  f ← on_storage (object id)
  l ← get_file_location path
  if is_committed f || env.is_firable path || l.own_name
      then reply_size tid f
      else suspend (for_remote_stat tid path)

-- The stat of a file that has a location. Here the names themselves are compared.
unfoldable pub stat_located : Env → ℕ → String → St Server (Unit {0})
stat_located env tid path = do
  id ← get_or_add env path
  f ← on_storage (object id)
  l ← get_file_location path
  if is_committed f || l.node == env.node_name || env.is_firable path || env.capio_dir == path
      then reply_size tid f
      else do f' ← on_storage (ready_buffer env id); suspend (for_remote_stat tid path)

-- The stat of a file that no node has.
unfoldable pub stat_missing : Env → ℕ → String → St Server (Unit {0})
stat_missing env tid path = do
  app_name ← gets (λ s. get_app_name tid s.clients)
  if env.is_producer_of path app_name
      then (do
        on_clients (reply_to_client tid (negsuc 0))
        on_clients (reply_to_client tid (negsuc 0)))
      else suspend (for_completion tid path)

unfoldable pub reply_stat : Env → ℕ → String → St Server (Unit {0})
reply_stat env tid path = do
  found ← is_located env path
  if found then stat_located env tid path else stat_missing env tid path

unfoldable pub fstat_handler : Env → ℕ → ℕ → St Server (Unit {0})
fstat_handler env tid fd = do path ← on_storage (get_path (tid, fd)); reply_stat env tid path

unfoldable pub stat_handler : Env → ℕ → String → St Server (Unit {0})
stat_handler env tid path = unless_excluded env tid path (reply_stat env tid path)
