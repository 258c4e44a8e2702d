-- ===== src/Server/Dispatch.antt =====
-- The loop of the server, capio_server of capio/server/capio_server.cpp: a request is read and handled;
-- and the threads that handlers have detached, which go on once what they wait for is there. The
-- handlers of capio/server/include/handlers/handshake.hpp and the seek to the end are here as well.
use capio.Base.{ℕ, ◌+◌, ◌≡◌, none, some, List, ◌∷◌, ◌++◌, Bool, true, false, string_key, nat_key}
use Prim.Native.String.{String}
use Prim.Native.Char.{Char}
use capio.Base.Int.{pos, negsuc}
use capio.Base.Map.{lookup}
use capio.Base.State.{St, ◌>>=◌, ◌>>◌, exit, modify, when}
use capio.File.{CapioFile, data_available, is_committed}
use capio.Storage.{get_path}
use capio.Clients.{default_app_name, register_client, resume_cloned, member}
use capio.Requests.{
  Request, access, clone, close, create, create_exclusive, dup, exit_group, fstat, getdents,
  handshake_named, handshake_anonymous, mkdir, open_file, read, rename, seek, seek_data, seek_end,
  seek_hole, stat, unlink, write, rmdir, copy_file_range, read_request,
}
use capio.Server.{
  Env, Server, Waiting, for_commit, for_data, for_file, for_remote_read, for_creation,
  for_completion, for_remote_stat, copy_for_commit, copy_for_data, copy_for_file, dirents_for_file,
  dirents_for_data, for_remote_copy, for_remote_dirents, for_parent, on_storage, on_clients,
  suspend,
}
use capio.Server.Read.{handle_read, handle_pending_read, wait_for_file}
use capio.Server.Handlers.{
  handle_lseek, handle_seek_data, handle_seek_hole, handle_close, dup_handler, clone_handler,
  handle_exit_group, access_handler,
}
use capio.Server.Publish.{write_handler, copy_file_range_data}
use capio.Server.Locations.{find_node, load_file_location}
use capio.Server.Open.{
  create_handler, create_exclusive_handler, open_handler, wait_for_file_creation,
}
use capio.Server.Stat.{reply_stat, fstat_handler, stat_handler, wait_for_file_completion}
use capio.Server.Files.{handle_rename, unlink_handler, rmdir_handler, mkdir_handler}
use capio.Server.Transfers.{
  copy_file_range_handler, handle_copy_file_range, handle_getdents, getdents_found,
  wait_for_dirent_data,
}

unfoldable pub handshake_anonymous_handler : ℕ → St Server (Unit {0})
handshake_anonymous_handler tid = on_clients (modify (register_client tid default_app_name))

-- With `wait`, a thread waits for the parent of the child and then answers.
unfoldable pub handshake_named_handler : ℕ → String → Bool → St Server (Unit {0})
handshake_named_handler tid app_name wait = do
  on_clients (modify (register_client tid app_name))
  when wait (suspend (for_parent tid))

-- It behaves as stat does.
unfoldable pub handle_seek_end : Env → ℕ → ℕ → St Server (Unit {0})
handle_seek_end env tid fd = do path ← on_storage (get_path (tid, fd)); reply_stat env tid path

-- The handler of each request, with its arguments.
unfoldable pub handle : Env → Request → St Server (Unit {0})
handle env (access tid path) = access_handler env tid path
handle env (clone parent_tid child_tid) = clone_handler parent_tid child_tid
handle env (close tid fd) = handle_close env tid fd
handle env (create tid fd path) = create_handler env tid fd path
handle env (create_exclusive tid fd path) = create_exclusive_handler env tid fd path
handle env (dup tid old_fd new_fd) = dup_handler tid old_fd new_fd
handle env (exit_group tid) = handle_exit_group env tid
handle env (fstat tid fd) = fstat_handler env tid fd
handle env (getdents is64bit tid fd count) = handle_getdents env tid fd count
handle env (handshake_named tid pid app_name wait) = handshake_named_handler tid app_name wait
handle env (handshake_anonymous tid pid) = handshake_anonymous_handler tid
handle env (mkdir tid path) = mkdir_handler env tid path
handle env (open_file tid fd path) = open_handler env tid fd path
handle env (read tid fd count) = handle_read env tid fd count
handle env (rename tid oldpath newpath) = handle_rename env tid oldpath newpath
handle env (seek tid fd offset) = handle_lseek tid fd (pos offset)
handle env (seek_data tid fd offset) = handle_seek_data tid fd offset
handle env (seek_end tid fd) = handle_seek_end env tid fd
handle env (seek_hole tid fd offset) = handle_seek_hole tid fd offset
handle env (stat tid path) = stat_handler env tid path
handle env (unlink tid path) = unlink_handler env tid path
handle env (write tid fd count) = write_handler env tid fd count
handle env (rmdir tid dir_to_remove) = rmdir_handler env tid dir_to_remove
handle env (copy_file_range tid fd_in fd_out offset_in offset_out count) =
    copy_file_range_handler env tid fd_in fd_out offset_in offset_out count

-- A round of the loop, with the text of the next request.
unfoldable pub capio_server : Env → List Char → St Server (Unit {0})
capio_server env req s = elim (read_request req) [ none ↦ none | some r ↦ handle env r s ]

abbrev pub on_object : ℕ → (CapioFile → Bool) → Server → Bool
on_object id test s = elim (lookup id s.storage.objects) [ none ↦ false | some f ↦ test f ]

abbrev pub is_there : Env → String → Bool
is_there env path = elim (find_node env path env.nodes) [ none ↦ false | some node ↦ true ]

-- Whether the wait of a detached thread is over. A request to another node is answered by a message.
unfoldable pub may_resume : Env → Waiting → Server → Bool
may_resume env (for_commit id tid fd offset count) s = on_object id is_committed s
may_resume env (for_data id (pos size) tid fd offset count) s = on_object id (data_available size) s
may_resume env (for_data id (negsuc size) tid fd offset count) s = true
may_resume env (for_file path tid fd count) s = is_there env path
may_resume env (for_creation path tid fd) s = is_there env path
may_resume env (for_completion tid path) s = is_there env path
may_resume env (copy_for_commit id copy) s = on_object id is_committed s
may_resume env (copy_for_data id copy) s =
    on_object id (data_available (copy.offset_in + copy.count)) s
may_resume env (copy_for_file copy) s = is_there env copy.path_in
may_resume env (dirents_for_file path tid fd count) s = is_there env path
may_resume env (dirents_for_data id size tid fd count) s = on_object id (data_available size) s
may_resume env (for_parent tid) s = member tid s.clients.thread_allowed_to_continue
may_resume env (for_remote_read tid fd count) s = false
may_resume env (for_remote_stat tid path) s = false
may_resume env (for_remote_copy copy) s = false
may_resume env (for_remote_dirents tid fd count) s = false

-- Once load_file_location has found the file.
unfoldable pub once_found : Env → String → St Server (Unit {0}) → St Server (Unit {0})
once_found env path next = do found ← load_file_location env path; next

-- What the thread then does.
unfoldable pub resume : Env → Waiting → St Server (Unit {0})
resume env (for_commit id tid fd offset count) = handle_pending_read env tid fd offset count
resume env (for_data id size tid fd offset count) = handle_pending_read env tid fd offset count
resume env (for_file path tid fd count) = once_found env path (wait_for_file env path tid fd count)
resume env (for_creation path tid fd) = once_found env path (wait_for_file_creation env path tid fd)
resume env (for_completion tid path) = once_found env path (wait_for_file_completion env tid path)
resume env (copy_for_commit id copy) = copy_file_range_data env copy
resume env (copy_for_data id copy) = copy_file_range_data env copy
resume env (copy_for_file copy) =
    once_found env copy.path_in (handle_copy_file_range env copy false)
resume env (dirents_for_file path tid fd count) =
    once_found env path (getdents_found env path tid fd count)
resume env (dirents_for_data id size tid fd count) = wait_for_dirent_data env tid fd count id
resume env (for_parent tid) = on_clients (resume_cloned tid)
resume env (for_remote_read tid fd count) = exit
resume env (for_remote_stat tid path) = exit
resume env (for_remote_copy copy) = exit
resume env (for_remote_dirents tid fd count) = exit

-- What the server does next: it handles a request, or one of the threads that wait goes on.
pub data Step (env : Env) : Server → Server → Type 0 where
  served :
      {s s' : Server} (req : List Char) → capio_server env req s ≡ some (tt, s') → Step env s s'
  resumed :
      {s s' : Server} (before after : List Waiting) (w : Waiting)
      → s.waiting ≡ before ++ (w ∷ after)
      → may_resume env w s ≡ true
      → resume env w (record s { waiting = before ++ after }) ≡ some (tt, s')
      → Step env s s'

pub data Reach (env : Env) (s : Server) : Server → Type 0 where
  here : Reach env s s
  next : {t u : Server} → Reach env s t → Step env t u → Reach env s u
