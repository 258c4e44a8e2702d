-- ===== src/Server/Safety/Reads.antt =====
-- Reads, seeks, closes and the end of a thread.
use capio.Base.{
  ℕ, Option, none, some, List, [], ◌∷◌, Bool, true, false, if◌then◌else◌, string_key, nat_key,
}
use Prim.Native.String.{String}
use capio.Base.Int.{ℤ, pos, negsuc}
use capio.Base.Map.{lookup}
use capio.Base.State.{St, exit}
use capio.Clients.{reply_to_client}
use capio.Server.{Env, Server, Location, on_clients}
use capio.Server.Keeps.{Keeps, Keeps-exit, Keeps-if, Keeps-elim, Keeps-bind, Ends}
use capio.Server.Safety.{Sound, keeps_rules, Sound-clients}
use capio.Server.Read.{
  serve, handle_pending_read, local_read, handle_local_read, remote_read, request_remote_read,
  wait_for_file, read_at, handle_read,
}
use capio.Server.Handlers.{
  handle_lseek, handle_seek_data, handle_seek_hole, try_update, handle_close, dup_handler,
  clone_handler, terminate_one, terminate_files, close_all, handle_exit_group, access_handler,
  request_skip,
}
use capio.File.{CapioFile}

module _ (env : Env) where
  pub serve-Sound : (id tid fd : ℕ) (o n : ℤ) → Keeps (Sound env) (serve env id tid fd o n)
  unfolding serve
  serve-Sound id tid fd o n = search keeps_rules depth 14

  pub handle_pending_read-Sound :
      (tid fd : ℕ) (o : ℤ) (count : ℕ) → Keeps (Sound env) (handle_pending_read env tid fd o count)
  unfolding handle_pending_read
  handle_pending_read-Sound tid fd o count = search (keeps_rules, serve-Sound) depth 14

  pub local_read-Sound :
      (tid fd count : ℕ) (b firable : Bool) (id : ℕ) (o e : ℤ)
      → Keeps (Sound env) (local_read env tid fd count b firable id o e)
  unfolding local_read
  local_read-Sound tid fd count b firable id o e = search (keeps_rules, serve-Sound) depth 14

  pub handle_local_read-Sound :
      (tid fd count : ℕ) (b : Bool) → Keeps (Sound env) (handle_local_read env tid fd count b)
  unfolding handle_local_read
  handle_local_read-Sound tid fd count b = search (keeps_rules, local_read-Sound) depth 14

  pub remote_read-Sound :
      (tid fd count id : ℕ) (o : ℤ) (f : CapioFile)
      → Keeps (Sound env) (remote_read env tid fd count id o f)
  unfolding remote_read
  remote_read-Sound tid fd count id o f =
      search (keeps_rules, serve-Sound, handle_local_read-Sound) depth 14

  pub request_remote_read-Sound :
      (tid fd count : ℕ) → Keeps (Sound env) (request_remote_read env tid fd count)
  unfolding request_remote_read
  request_remote_read-Sound tid fd count = search (keeps_rules, remote_read-Sound) depth 14

  pub wait_for_file-Sound :
      (path : String) (tid fd count : ℕ) → Keeps (Sound env) (wait_for_file env path tid fd count)
  unfolding wait_for_file
  wait_for_file-Sound path tid fd count =
      Keeps-elim (λ s. lookup path s.locations) exit
        (λ l.
          if l.own_name
          then handle_local_read env tid fd count false
          else request_remote_read env tid fd count)
        Keeps-exit (λ l. search (Keeps-if, handle_local_read-Sound, request_remote_read-Sound))

  pub read_at-Sound :
      (path : String) (tid fd count : ℕ) (b : Bool) (o : Option Location)
      → Keeps (Sound env) (read_at env path tid fd count b o)
  unfolding read_at
  read_at-Sound path tid fd count b none = search (keeps_rules, handle_local_read-Sound)
  read_at-Sound path tid fd count b (some l) =
      search (keeps_rules, handle_local_read-Sound, request_remote_read-Sound)

  pub handle_read-Sound : (tid fd count : ℕ) → Keeps (Sound env) (handle_read env tid fd count)
  unfolding handle_read
  handle_read-Sound tid fd count = search (keeps_rules, read_at-Sound) depth 14

  pub handle_lseek-Sound : (tid fd : ℕ) (o : ℤ) → Keeps (Sound env) (handle_lseek tid fd o)
  unfolding handle_lseek
  handle_lseek-Sound tid fd o = search keeps_rules depth 14

  pub handle_seek_data-Sound : (tid fd o : ℕ) → Keeps (Sound env) (handle_seek_data tid fd o)
  unfolding handle_seek_data
  handle_seek_data-Sound tid fd o = search keeps_rules depth 14

  pub handle_seek_hole-Sound : (tid fd o : ℕ) → Keeps (Sound env) (handle_seek_hole tid fd o)
  unfolding handle_seek_hole
  handle_seek_hole-Sound tid fd o = search keeps_rules depth 14

  pub try_update-Sound :
      (id : ℕ) (change : CapioFile → Option CapioFile) → Keeps (Sound env) (try_update id change)
  unfolding try_update
  try_update-Sound id change = search keeps_rules depth 14

  pub handle_close-Sound : (tid fd : ℕ) → Keeps (Sound env) (handle_close env tid fd)
  unfolding handle_close
  handle_close-Sound tid fd = search (keeps_rules, try_update-Sound) depth 14

  pub dup_handler-Sound :
      (tid old_fd new_fd : ℕ) → Keeps (Sound env) (dup_handler tid old_fd new_fd)
  unfolding dup_handler
  dup_handler-Sound tid old_fd new_fd = search keeps_rules depth 14

  pub clone_handler-Sound :
      (parent_tid child_tid : ℕ) → Keeps (Sound env) (clone_handler parent_tid child_tid)
  unfolding clone_handler
  clone_handler-Sound parent_tid child_tid = search keeps_rules depth 14

  terminate_one-Sound : (path : String) → Keeps (Sound env) (terminate_one env path)
  unfolding terminate_one
  terminate_one-Sound path = search (keeps_rules, try_update-Sound) depth 14

  terminate_files-Sound : (paths : List String) → Keeps (Sound env) (terminate_files env paths)
  unfolding terminate_files
  terminate_files-Sound [] = search keeps_rules
  terminate_files-Sound (path ∷ paths) =
      Keeps-bind (terminate_one env path) (λ _. terminate_files env paths)
        (terminate_one-Sound path) (λ _. terminate_files-Sound paths)

  close_all-Sound : (tid : ℕ) (fds : List ℕ) → Keeps (Sound env) (close_all env tid fds)
  unfolding close_all
  close_all-Sound tid [] = search keeps_rules
  close_all-Sound tid (fd ∷ fds) =
      Keeps-bind (handle_close env tid fd) (λ _. close_all env tid fds) (handle_close-Sound tid fd)
        (λ _. close_all-Sound tid fds)

  pub handle_exit_group-Sound : (tid : ℕ) → Keeps (Sound env) (handle_exit_group env tid)
  unfolding handle_exit_group
  handle_exit_group-Sound tid =
      search (keeps_rules, terminate_files-Sound, close_all-Sound) depth 14

  pub access_handler-Sound :
      (tid : ℕ) (path : String) → Keeps (Sound env) (access_handler env tid path)
  unfolding access_handler
  access_handler-Sound tid path = record {
    at = λ s h. go s h (env.is_excluded path) (lookup path s.locations);
  }
    where
      answer :
          (n : ℤ) (s : Server)
          → Sound env s
          → Ends (Sound env) (on_clients (reply_to_client tid n) s)
      answer n = (Sound-clients env (reply_to_client tid n)).at

      go :
          (s : Server)
          → Sound env s
          → (b : Bool) (o : Option Location)
          → Ends (Sound env) (
              (if b
                  then on_clients (reply_to_client tid request_skip)
                  else elim o as (λ _. St Server (Unit {0})) [
                    | some l ↦ on_clients (reply_to_client tid (pos 0))
                    | none ↦ on_clients (reply_to_client tid (negsuc 0))
                  ])
                s)
      go s h true o = answer request_skip s h
      go s h false none = answer (negsuc 0) s h
      go s h false (some l) = answer (pos 0) s h
