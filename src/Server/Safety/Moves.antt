-- ===== src/Server/Safety/Moves.antt =====
-- Copying and reading directories.
use capio.Base.{ℕ, Option, none, some, Bool, string_key, nat_key}
use Prim.Native.String.{String}
use capio.Base.Int.{ℤ, pos, negsuc}
use capio.Base.State.{exit}
use capio.Server.{Env, Location, CopyFileRange, on_storage, on_clients}
use capio.Server.Keeps.{Keeps, Keeps-exit, Keeps-if, Keeps-elim, Keeps-bind}
use capio.Server.Safety.{Sound, keeps_rules, Sound-storage, Sound-clients}
use capio.File.{CapioFile}
use capio.Storage.{object}
use capio.Server.Transfers.{
  local_copy, handle_local_copy_file_range, handle_remote_copy_file_range, handle_copy_file_range,
  copy_file_range_handler, send_entries, send_range, send_dirent_to_client, wait_for_dirent_data,
  remote_getdents, request_remote_getdents, local_getdents, getdents_at, handle_getdents,
  getdents_found,
}
use capio.Server.Safety.Reads.{serve-Sound}
use capio.Server.Safety.Writes.{copy_file_range_data-Sound}
use capio.Server.Safety.Places.{get_file_location-Sound}

module _ (env : Env) where
  pub local_copy-Sound :
      (copy : CopyFileRange) (id : ℕ) (b : Bool) (e : ℤ)
      → Keeps (Sound env) (local_copy env copy id b e)
  unfolding local_copy
  local_copy-Sound copy id b e = search (keeps_rules, copy_file_range_data-Sound) depth 14

  pub handle_local_copy_file_range-Sound :
      (copy : CopyFileRange) (b : Bool)
      → Keeps (Sound env) (handle_local_copy_file_range env copy b)
  unfolding handle_local_copy_file_range
  handle_local_copy_file_range-Sound copy b = search (keeps_rules, local_copy-Sound) depth 14

  pub handle_remote_copy_file_range-Sound :
      (copy : CopyFileRange) → Keeps (Sound env) (handle_remote_copy_file_range env copy)
  unfolding handle_remote_copy_file_range
  handle_remote_copy_file_range-Sound copy =
      search (keeps_rules, copy_file_range_data-Sound) depth 14

  pub handle_copy_file_range-Sound :
      (copy : CopyFileRange) (b : Bool) → Keeps (Sound env) (handle_copy_file_range env copy b)
  unfolding handle_copy_file_range
  handle_copy_file_range-Sound copy b =
      search
        (
          keeps_rules, handle_local_copy_file_range-Sound, handle_remote_copy_file_range-Sound,
          get_file_location-Sound,
        )
        depth 14

  pub copy_file_range_handler-Sound :
      (tid fd_in fd_out offset_in offset_out count : ℕ)
      → Keeps (Sound env) (copy_file_range_handler env tid fd_in fd_out offset_in offset_out count)
  unfolding copy_file_range_handler
  copy_file_range_handler-Sound tid fd_in fd_out offset_in offset_out count =
      search (keeps_rules, handle_copy_file_range-Sound) depth 20

  send_entries-Sound :
      (tid fd : ℕ) (f : CapioFile) (o m n : ℕ) → Keeps (Sound env) (send_entries env tid fd f o m n)
  unfolding send_entries
  send_entries-Sound tid fd f o m n =
      Keeps-elim (λ s. f.buffer.block) exit _ Keeps-exit
        (λ b.
          Keeps-if _ _ exit
            (Keeps-bind (on_clients _) _ (Sound-clients env _) (λ _. Sound-storage env _))
            Keeps-exit)

  send_range-Sound :
      (tid fd id o count : ℕ) (f : CapioFile) (m n : ℕ)
      → Keeps (Sound env) (send_range env tid fd id o count f m n)
  unfolding send_range
  send_range-Sound tid fd id o count f m n = search (keeps_rules, send_entries-Sound) depth 14

  pub send_dirent_to_client-Sound :
      (tid fd id : ℕ) (o : ℤ) (count : ℕ)
      → Keeps (Sound env) (send_dirent_to_client env tid fd id o count)
  unfolding send_dirent_to_client
  send_dirent_to_client-Sound tid fd id (negsuc o) count = Keeps-exit
  send_dirent_to_client-Sound tid fd id (pos o) count =
      Keeps-bind (on_storage (object id)) _ (Sound-storage env _)
        (λ f. send_range-Sound tid fd id o count f _ _)

  pub wait_for_dirent_data-Sound :
      (tid fd count id : ℕ) → Keeps (Sound env) (wait_for_dirent_data env tid fd count id)
  unfolding wait_for_dirent_data
  wait_for_dirent_data-Sound tid fd count id =
      search (keeps_rules, send_dirent_to_client-Sound) depth 14

  pub remote_getdents-Sound :
      (tid fd count id : ℕ) (o : ℤ) (f : CapioFile)
      → Keeps (Sound env) (remote_getdents env tid fd count id o f)
  unfolding remote_getdents
  remote_getdents-Sound tid fd count id o f =
      search (keeps_rules, send_dirent_to_client-Sound, serve-Sound) depth 14

  pub request_remote_getdents-Sound :
      (tid fd count : ℕ) → Keeps (Sound env) (request_remote_getdents env tid fd count)
  unfolding request_remote_getdents
  request_remote_getdents-Sound tid fd count = search (keeps_rules, remote_getdents-Sound) depth 14

  pub local_getdents-Sound :
      (path : String) (tid fd count : ℕ) → Keeps (Sound env) (local_getdents env path tid fd count)
  unfolding local_getdents
  local_getdents-Sound path tid fd count =
      search (keeps_rules, send_dirent_to_client-Sound) depth 14

  getdents_at-Sound :
      (path : String) (tid fd count : ℕ) (b : Bool) (o : Option Location)
      → Keeps (Sound env) (getdents_at env path tid fd count b o)
  unfolding getdents_at
  getdents_at-Sound path tid fd count b none = search (keeps_rules, local_getdents-Sound)
  getdents_at-Sound path tid fd count b (some l) =
      search (keeps_rules, local_getdents-Sound, request_remote_getdents-Sound)

  pub handle_getdents-Sound :
      (tid fd count : ℕ) → Keeps (Sound env) (handle_getdents env tid fd count)
  unfolding handle_getdents
  handle_getdents-Sound tid fd count = search (keeps_rules, getdents_at-Sound) depth 14

  pub getdents_found-Sound :
      (path : String) (tid fd count : ℕ) → Keeps (Sound env) (getdents_found env path tid fd count)
  unfolding getdents_found
  getdents_found-Sound path tid fd count =
      search
        (keeps_rules, get_file_location-Sound, handle_getdents-Sound, request_remote_getdents-Sound)
        depth 14
