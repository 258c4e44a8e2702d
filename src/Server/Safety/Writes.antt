-- ===== src/Server/Safety/Writes.antt =====
-- Writes, directories and copies.
use capio.Base.{ℕ, ◌+◌, refl, List, length, true, string_key, nat_key}
use Prim.Native.String.{String}
use capio.Base.Int.{ℤ, pos, negsuc}
use capio.Base.Map.{lookup}
use capio.Base.State.{◌>>◌, pure, modify}
use capio.Server.{Env, CopyFileRange}
use capio.Server.Keeps.{Keeps, Keeps-pure, Keeps-exit, Keeps-elim, Keeps-bind, Keeps-modify}
use capio.Server.Safety.{Sound, keeps_rules, Sound-storage, Sound-clients}
use capio.File.{CapioFile}
use capio.Server.Publish.{
  EntryType, add_file_location, write_file_location, add_directory_entry, update_directory,
  new_directory, add_directory, register_written_data, write_at, write_handler, put_data, copy_some,
  copy_bytes, copy_file_range_data,
}
use capio.Server.Handlers.{try_update}
use capio.Server.Safety.Reads.{try_update-Sound}
use capio.Server.Safety.Places.{add_file_location-Sound, write_file_location-Sound}

module _ (env : Env) where
  pub published-Sound : (path : String) → Keeps (Sound env) (modify (write_file_location env path))
  published-Sound path =
      Keeps-modify (write_file_location env path) (write_file_location-Sound env path)

  own-Sound :
      (path : String)
      → Keeps (Sound env) (
          modify (
            add_file_location path
              (record { node = env.node_name; own_name = true; offset = negsuc 0 })))
  own-Sound path = Keeps-modify _ (λ s h. add_file_location-Sound env path _ s (λ e. refl) h)

  pub add_directory_entry-Sound :
      (tid : ℕ) (file_path dir : String) (type : EntryType)
      → Keeps (Sound env) (add_directory_entry env tid file_path dir type)
  unfolding add_directory_entry
  add_directory_entry-Sound tid file_path dir type = search (keeps_rules, try_update-Sound) depth 14

  pub update_directory-Sound :
      (tid : ℕ) (file_path : String) → Keeps (Sound env) (update_directory env tid file_path)
  unfolding update_directory
  update_directory-Sound tid file_path =
      search (keeps_rules, published-Sound, add_directory_entry-Sound) depth 14

  pub new_directory-Sound :
      (tid : ℕ) (path : String) → Keeps (Sound env) (new_directory env tid path)
  unfolding new_directory
  new_directory-Sound tid path =
      search
        (keeps_rules, published-Sound, own-Sound, update_directory-Sound, add_directory_entry-Sound)
        depth 20

  pub add_directory-Sound :
      (tid : ℕ) (path : String) → Keeps (Sound env) (add_directory env tid path)
  unfolding add_directory
  add_directory-Sound tid path =
      Keeps-elim (λ s. lookup path s.locations) (new_directory env tid path >> pure 0) (λ l. pure 1)
        (Keeps-bind (new_directory env tid path) (λ _. pure 0) (new_directory-Sound tid path)
          (λ _. Keeps-pure 0))
        (λ l. Keeps-pure 1)

  pub register_written_data-Sound :
      (tid : ℕ) (path : String) (id o e : ℕ)
      → Keeps (Sound env) (register_written_data env tid path id o e)
  unfolding register_written_data
  register_written_data-Sound tid path id o e =
      search (keeps_rules, published-Sound, update_directory-Sound) depth 20

  pub write_at-Sound :
      (tid fd : ℕ) (path : String) (id : ℕ) (bytes : List ℕ) (o : ℤ)
      → Keeps (Sound env) (write_at env tid fd path id bytes o)
  unfolding write_at
  write_at-Sound tid fd path id bytes (negsuc o) = Keeps-exit
  write_at-Sound tid fd path id bytes (pos o) =
      Keeps-bind (try_update id (put_data env o bytes)) _
        (try_update-Sound env id (put_data env o bytes))
        (λ _.
          Keeps-bind (register_written_data env tid path id o (o + length bytes)) _
            (register_written_data-Sound tid path id o (o + length bytes))
            (λ _. Sound-storage env _))

  pub write_handler-Sound : (tid fd count : ℕ) → Keeps (Sound env) (write_handler env tid fd count)
  unfolding write_handler
  write_handler-Sound tid fd count = search (keeps_rules, write_at-Sound) depth 14

  pub copy_some-Sound :
      (copy : CopyFileRange) (src : CapioFile) (n : ℕ)
      → Keeps (Sound env) (copy_some env copy src n)
  unfolding copy_some
  copy_some-Sound copy src n =
      search (keeps_rules, try_update-Sound, register_written_data-Sound) depth 14

  copy_bytes-Sound :
      (copy : CopyFileRange) (src : CapioFile) (n : ℤ)
      → Keeps (Sound env) (copy_bytes env copy src n)
  unfolding copy_bytes
  copy_bytes-Sound copy src (negsuc n) = search keeps_rules
  copy_bytes-Sound copy src (pos n) =
      Keeps-bind (copy_some env copy src n) _ (copy_some-Sound copy src n)
        (λ _. Sound-clients env _)

  pub copy_file_range_data-Sound :
      (copy : CopyFileRange) → Keeps (Sound env) (copy_file_range_data env copy)
  unfolding copy_file_range_data
  copy_file_range_data-Sound copy = search (keeps_rules, copy_bytes-Sound) depth 14
