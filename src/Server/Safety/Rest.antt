-- ===== src/Server/Safety/Rest.antt =====
-- Opening, stat, renaming and removing.
use capio.Base.{ℕ, Option, none, some, Bool, true, false, if◌then◌else◌, string_key, nat_key}
use Prim.Native.String.{String}
use capio.Base.Int.{ℤ, pos, negsuc}
use capio.Base.Map.{lookup}
use capio.Base.State.{St, modify}
use capio.Server.{Env, Server, Location, on_clients}
use capio.Server.Keeps.{Keeps, Keeps-if, Keeps-elim, Keeps-bind, Keeps-modify}
use capio.Server.Safety.{Sound, keeps_rules, Sound-clients}
use capio.File.{CapioFile}
use capio.Storage.{try_get}
use capio.Clients.{reply_to_client}
use capio.Server.Publish.{write_file_location}
use capio.Server.Locations.{erase_from_files_location, rename_file_location}
use capio.Server.Open.{
  get_or_add, update_file_metadata, wait_for_file_creation, handle_create, handle_create_exclusive,
  handle_open, unless_excluded, create_handler, create_exclusive_handler, open_handler,
}
use capio.Server.Stat.{
  reply_size, wait_for_file_completion, stat_located, stat_missing, reply_stat, fstat_handler,
  stat_handler,
}
use capio.Base.Int.{eqb_ℤ}
use capio.Server.Files.{
  add_mark, mark_line, line_offset, found_mark, known_mark, delete_from_files_location,
  write_if_unknown, rename_file, handle_rename, unlink_file, handle_unlink, unlink_handler,
  handle_rmdir, rmdir_handler, mkdir_handler,
}
use capio.Server.Safety.Writes.{update_directory-Sound, published-Sound, add_directory-Sound}
use capio.Server.Safety.Places.{
  write_file_location-Sound, get_file_location-Sound, is_located-Sound,
  erase_from_files_location-Sound, rename_file_location-Sound,
}

module _ (env : Env) where
  pub get_or_add-Sound : (path : String) → Keeps (Sound env) (get_or_add env path)
  unfolding get_or_add
  get_or_add-Sound path = search keeps_rules depth 14

  pub update_file_metadata-Sound :
      (path : String) (tid fd : ℕ) (b : Bool) (o : ℤ)
      → Keeps (Sound env) (update_file_metadata env path tid fd b o)
  unfolding update_file_metadata
  update_file_metadata-Sound path tid fd b o =
      search (keeps_rules, get_or_add-Sound, published-Sound, update_directory-Sound) depth 20

  pub wait_for_file_creation-Sound :
      (path : String) (tid fd : ℕ) → Keeps (Sound env) (wait_for_file_creation env path tid fd)
  unfolding wait_for_file_creation
  wait_for_file_creation-Sound path tid fd =
      search (keeps_rules, update_file_metadata-Sound) depth 14

  pub handle_create-Sound :
      (tid fd : ℕ) (path : String) → Keeps (Sound env) (handle_create env tid fd path)
  unfolding handle_create
  handle_create-Sound tid fd path =
      search (keeps_rules, update_file_metadata-Sound, is_located-Sound) depth 14

  handle_create_exclusive-Sound :
      (tid fd : ℕ) (path : String) → Keeps (Sound env) (handle_create_exclusive env tid fd path)
  unfolding handle_create_exclusive
  handle_create_exclusive-Sound tid fd path =
      Keeps-elim (λ s. try_get path s.storage) _ (λ id. on_clients (reply_to_client tid (pos 1)))
        (Keeps-bind (on_clients (reply_to_client tid (pos 0)))
          (λ _. update_file_metadata env path tid fd true (pos 0)) (Sound-clients env _)
          (λ _. update_file_metadata-Sound path tid fd true (pos 0)))
        (λ id. Sound-clients env _)

  pub handle_open-Sound :
      (tid fd : ℕ) (path : String) → Keeps (Sound env) (handle_open env tid fd path)
  unfolding handle_open
  handle_open-Sound tid fd path =
      search (keeps_rules, update_file_metadata-Sound, is_located-Sound) depth 14

  unless_excluded-Sound :
      (tid : ℕ) (path : String) (m : St Server (Unit {0}))
      → Keeps (Sound env) m
      → Keeps (Sound env) (unless_excluded env tid path m)
  unfolding unless_excluded
  unless_excluded-Sound tid path m k = Keeps-if (env.is_excluded path) _ m (Sound-clients env _) k

  pub create_handler-Sound :
      (tid fd : ℕ) (path : String) → Keeps (Sound env) (create_handler env tid fd path)
  unfolding create_handler
  create_handler-Sound tid fd path =
      search (keeps_rules, unless_excluded-Sound, handle_create-Sound) depth 14

  pub create_exclusive_handler-Sound :
      (tid fd : ℕ) (path : String) → Keeps (Sound env) (create_exclusive_handler env tid fd path)
  unfolding create_exclusive_handler
  create_exclusive_handler-Sound tid fd path =
      search (keeps_rules, unless_excluded-Sound, handle_create_exclusive-Sound) depth 14

  pub open_handler-Sound :
      (tid fd : ℕ) (path : String) → Keeps (Sound env) (open_handler env tid fd path)
  unfolding open_handler
  open_handler-Sound tid fd path =
      search (keeps_rules, unless_excluded-Sound, handle_open-Sound) depth 14

  pub reply_size-Sound : (tid : ℕ) (f : CapioFile) → Keeps (Sound env) (reply_size tid f)
  unfolding reply_size
  reply_size-Sound tid f = search keeps_rules depth 14

  pub wait_for_file_completion-Sound :
      (tid : ℕ) (path : String) → Keeps (Sound env) (wait_for_file_completion env tid path)
  unfolding wait_for_file_completion
  wait_for_file_completion-Sound tid path =
      search (keeps_rules, get_file_location-Sound, reply_size-Sound) depth 14

  pub stat_located-Sound : (tid : ℕ) (path : String) → Keeps (Sound env) (stat_located env tid path)
  unfolding stat_located
  stat_located-Sound tid path =
      search (keeps_rules, get_or_add-Sound, get_file_location-Sound, reply_size-Sound) depth 14

  pub stat_missing-Sound : (tid : ℕ) (path : String) → Keeps (Sound env) (stat_missing env tid path)
  unfolding stat_missing
  stat_missing-Sound tid path = search keeps_rules depth 14

  pub reply_stat-Sound : (tid : ℕ) (path : String) → Keeps (Sound env) (reply_stat env tid path)
  unfolding reply_stat
  reply_stat-Sound tid path =
      search (keeps_rules, is_located-Sound, stat_located-Sound, stat_missing-Sound) depth 14

  pub fstat_handler-Sound : (tid fd : ℕ) → Keeps (Sound env) (fstat_handler env tid fd)
  unfolding fstat_handler
  fstat_handler-Sound tid fd = search (keeps_rules, reply_stat-Sound) depth 14

  pub stat_handler-Sound : (tid : ℕ) (path : String) → Keeps (Sound env) (stat_handler env tid path)
  unfolding stat_handler
  stat_handler-Sound tid path =
      search (keeps_rules, unless_excluded-Sound, reply_stat-Sound) depth 14

  marked-Sound :
      (path : String) (l : Location) → Keeps (Sound env) (λ s. some (mark_line env path l s))
  unfolding mark_line add_mark
  marked-Sound path l = record {
    at = λ s h.
        go s h (eqb_ℤ l.offset (negsuc 0))
          (line_offset env path l.node 0 (env.location_lines l.node));
  }
    where
      go :
          (s : Server)
          → Sound env s
          → (b : Bool) (o : Option ℕ)
          → Sound env
              (if◌then◌else◌ {A = ℤ × Server} b
                (elim o as (λ _. ℤ × Server) [
                  | none ↦ (pos 2, s)
                  | some offset ↦ (pos 1, add_mark (found_mark env l.node offset) s)
                ])
                (pos 1, add_mark (known_mark env l.node l.offset) s)).1
      go s h true none = h
      go s h true (some o) = record { named = h.named; lines = h.lines }
      go s h false o = record { named = h.named; lines = h.lines }

  erased-Sound : (path : String) → Keeps (Sound env) (modify (erase_from_files_location path))
  erased-Sound path = Keeps-modify _ (erase_from_files_location-Sound env path)

  renamed-Sound :
      (oldpath newpath : String) → Keeps (Sound env) (modify (rename_file_location oldpath newpath))
  renamed-Sound oldpath newpath = Keeps-modify _ (rename_file_location-Sound env oldpath newpath)

  unknown-Sound : (path : String) → Keeps (Sound env) (modify (write_if_unknown env path))
  unfolding write_if_unknown
  unknown-Sound path = Keeps-modify _ (λ s h. go s h (lookup path s.locations))
    where
      go :
          (s : Server)
          → Sound env s
          → (o : Option Location)
          → Sound env (elim o [ none ↦ write_file_location env path s | some l ↦ s ])
      go s h none = write_file_location-Sound env path s h
      go s h (some l) = h

  pub delete_from_files_location-Sound :
      (path : String) → Keeps (Sound env) (delete_from_files_location env path)
  unfolding delete_from_files_location
  delete_from_files_location-Sound path =
      search (keeps_rules, get_file_location-Sound, marked-Sound, erased-Sound) depth 14

  rename_file-Sound :
      (tid : ℕ) (oldpath newpath : String) → Keeps (Sound env) (rename_file env tid oldpath newpath)
  unfolding rename_file
  rename_file-Sound tid oldpath newpath =
      search (keeps_rules, delete_from_files_location-Sound, unknown-Sound, renamed-Sound) depth 20

  pub handle_rename-Sound :
      (tid : ℕ) (oldpath newpath : String)
      → Keeps (Sound env) (handle_rename env tid oldpath newpath)
  unfolding handle_rename
  handle_rename-Sound tid oldpath newpath =
      Keeps-elim (λ s. try_get oldpath s.storage) (on_clients (reply_to_client tid (pos 1)))
        (λ id. rename_file env tid oldpath newpath) (Sound-clients env _)
        (λ id. rename_file-Sound tid oldpath newpath)

  pub unlink_file-Sound :
      (tid : ℕ) (path : String) (id : ℕ) → Keeps (Sound env) (unlink_file env tid path id)
  unfolding unlink_file
  unlink_file-Sound tid path id = search (keeps_rules, delete_from_files_location-Sound) depth 20

  handle_unlink-Sound : (tid : ℕ) (path : String) → Keeps (Sound env) (handle_unlink env tid path)
  unfolding handle_unlink
  handle_unlink-Sound tid path =
      Keeps-elim (λ s. try_get path s.storage) (on_clients (reply_to_client tid (negsuc 0)))
        (λ id. unlink_file env tid path id) (Sound-clients env _)
        (λ id. unlink_file-Sound tid path id)

  pub unlink_handler-Sound :
      (tid : ℕ) (path : String) → Keeps (Sound env) (unlink_handler env tid path)
  unfolding unlink_handler
  unlink_handler-Sound tid path =
      search (keeps_rules, unless_excluded-Sound, handle_unlink-Sound) depth 14

  pub handle_rmdir-Sound : (tid : ℕ) (path : String) → Keeps (Sound env) (handle_rmdir env tid path)
  unfolding handle_rmdir
  handle_rmdir-Sound tid path = search (keeps_rules, delete_from_files_location-Sound) depth 14

  pub rmdir_handler-Sound :
      (tid : ℕ) (path : String) → Keeps (Sound env) (rmdir_handler env tid path)
  unfolding rmdir_handler
  rmdir_handler-Sound tid path =
      search (keeps_rules, unless_excluded-Sound, handle_rmdir-Sound) depth 14

  pub mkdir_handler-Sound :
      (tid : ℕ) (path : String) → Keeps (Sound env) (mkdir_handler env tid path)
  unfolding mkdir_handler
  mkdir_handler-Sound tid path = search (keeps_rules, add_directory-Sound) depth 14
