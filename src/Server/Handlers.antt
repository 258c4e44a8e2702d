-- ===== src/Server/Handlers.antt =====
-- The handlers that change descriptors and commits: capio/server/include/handlers/seek.hpp,
-- close.hpp, dup.hpp, clone.hpp, exig.hpp and access.hpp.
pub mod Commit
use capio.Base.{
  ℕ, ◌+◌, ◌≤◌, ◌≡◌, Option, none, some, List, [], ◌∷◌, nat_beq, leb, if◌then◌else◌, Bool, true,
  false, ◌&&◌, ◌||◌, not, ◌==◌, string_key, nat_key,
}
use Prim.Native.String.{String}
use capio.Base.Int.{ℤ, pos, negsuc}
use capio.Base.Map.{lookup}
use capio.Base.State.{St, ◌>>=◌, ◌>>◌, pure, gets, modify, from_option, when}
use capio.Sectors.{seek_data, seek_hole}
use capio.File.{CapioFile, close_file, closed, set_committed, dump}
use capio.Storage.{
  get, get_fd, get_path, get_file_descriptors, set_file_offset, object, set_object, update_object,
  dup, clone, remove_from_tid,
}
use capio.Clients.{reply_to_client, unlock_cloned_child, get_produced_files, remove_client}
use capio.Server.{Env, Server, Location, on_storage, on_clients, as_offset}

unfoldable pub handle_lseek : ℕ → ℕ → ℤ → St Server (Unit {0})
handle_lseek tid fd offset = do
  on_storage (set_file_offset (tid, fd) offset)
  on_clients (reply_to_client tid offset)

-- The answer, -1 too, becomes the offset of the descriptor. From a client, the offset is not
-- negative.
unfoldable pub handle_seek_data : ℕ → ℕ → ℕ → St Server (Unit {0})
handle_seek_data tid fd offset = do
  id ← on_storage (get_fd (tid, fd))
  f ← on_storage (object id)
  on_storage (set_file_offset (tid, fd) (as_offset (seek_data offset f.sectors)))
  on_clients (reply_to_client tid (as_offset (seek_data offset f.sectors)))

unfoldable pub handle_seek_hole : ℕ → ℕ → ℕ → St Server (Unit {0})
handle_seek_hole tid fd offset = do
  id ← on_storage (get_fd (tid, fd))
  f ← on_storage (object id)
  on_storage (set_file_offset (tid, fd) (as_offset (seek_hole offset f.sectors)))
  on_clients (reply_to_client tid (as_offset (seek_hole offset f.sectors)))

-- setCommitted and dump, as the handlers call them one after the other.
unfoldable pub commit_and_dump : Env → CapioFile → Option CapioFile
commit_and_dump env f = dump env.system (set_committed true f)

-- The file once it is closed: committed if the rule says so and the closes have all come.
unfoldable pub close_on : Env → String → CapioFile → Option CapioFile
close_on env path f =
    if env.commits_on_close path && closed (close_file f)
    then commit_and_dump env (close_file f)
    else some (close_file f)

-- A call that changes a file or ends the server.
unfoldable pub try_update : ℕ → (CapioFile → Option CapioFile) → St Server (Unit {0})
try_update id change = do
  f ← on_storage (object id)
  f' ← on_storage (from_option (change f))
  on_storage (set_object id f')

unfoldable pub handle_close : Env → ℕ → ℕ → St Server (Unit {0})
handle_close env tid fd = do
  path ← on_storage (get_path (tid, fd))
  when (not (path == "")) (do
    id ← on_storage (get_fd (tid, fd))
    try_update id (close_on env path)
    on_storage (remove_from_tid (tid, fd)))

unfoldable pub dup_handler : ℕ → ℕ → ℕ → St Server (Unit {0})
dup_handler tid old_fd new_fd =
    when (not (nat_beq old_fd new_fd)) (on_storage (dup tid old_fd new_fd))

unfoldable pub clone_handler : ℕ → ℕ → St Server (Unit {0})
clone_handler parent_tid child_tid = do
  on_storage (clone parent_tid child_tid)
  on_clients (modify (unlock_cloned_child child_tid))

-- What the end of a producer does to a file that is committed on termination: a directory is
-- committed only once it has its entries.
unfoldable pub terminate_file : Env → CapioFile → Option CapioFile
terminate_file env f =
    if f.directory
    then if leb f.n_files_expected f.n_files
      then some (close_file (set_committed true f))
      else some (close_file f)
    else elim (commit_and_dump env f) [ none ↦ none | some g ↦ some (close_file g) ]

unfoldable pub terminate_one : Env → String → St Server (Unit {0})
terminate_one env path =
    when (env.commits_on_termination path)
      (do id ← on_storage (get path); try_update id (terminate_file env))

-- The first loop of handle_exit_group, over the files that the thread has produced.
unfoldable pub terminate_files : Env → List String → St Server (Unit {0})
terminate_files env [] = pure tt
terminate_files env (path ∷ paths) = do terminate_one env path; terminate_files env paths

-- The second, over the descriptors that it has open.
unfoldable pub close_all : Env → ℕ → List ℕ → St Server (Unit {0})
close_all env tid [] = pure tt
close_all env tid (fd ∷ fds) = do handle_close env tid fd; close_all env tid fds

unfoldable pub handle_exit_group : Env → ℕ → St Server (Unit {0})
handle_exit_group env tid = do
  files ← on_clients (λ c. some (get_produced_files tid c))
  terminate_files env files
  fds ← on_storage (gets (get_file_descriptors tid))
  close_all env tid fds
  on_clients (modify (remove_client tid))

-- CAPIO_POSIX_SYSCALL_REQUEST_SKIP
abbrev pub request_skip : ℤ
request_skip = negsuc 1

unfoldable pub access_handler : Env → ℕ → String → St Server (Unit {0})
access_handler env tid path s =
    (if env.is_excluded path
        then on_clients (reply_to_client tid request_skip)
        else elim (lookup path s.locations) [
          | some l ↦ on_clients (reply_to_client tid (pos 0))
          | none ↦ on_clients (reply_to_client tid (negsuc 0))
        ])
      s
