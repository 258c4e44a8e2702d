-- ===== src/Server/Files.antt =====
-- Renaming, unlinking and removing: capio/server/include/handlers/rename.hpp, unlink.hpp, rmdir.hpp and
-- mkdir.hpp, and delete_from_files_location of capio/server/include/utils/location.hpp.
use capio.Base.{
  ℕ, ◌+◌, Option, none, some, List, [], ◌∷◌, if◌then◌else◌, Bool, ◌&&◌, not, ◌==◌, string_key,
  nat_key,
}
use Prim.Native.String.{String}
use capio.Base.Int.{ℤ, pos, negsuc, eqb_ℤ}
use capio.Base.Map.{lookup}
use capio.Base.State.{St, ◌>>=◌, ◌>>◌, pure, modify, when}
use capio.File.{deletable}
use capio.Storage.{object, try_get, rename, remove}
use capio.Clients.{reply_to_client}
use capio.Server.{
  Env, Server, Location, Mark, at_offset, at_end, at_position, on_storage, on_clients,
}
use capio.Server.Publish.{write_file_location, add_directory}
use capio.Server.Locations.{get_file_location, erase_from_files_location, rename_file_location}
use capio.Server.Open.{unless_excluded}

-- The loop over the lines of a node's file: where the line of the path starts that is not marked.
unfoldable pub line_offset : Env → String → String → ℕ → List (Bool × String) → Option ℕ
line_offset env path node offset [] = none
line_offset env path node offset ((marked, p) ∷ ls) =
    let rest =
      line_offset env path node (offset + (env.byte_length p + 1 + env.byte_length node + 1)) ls in
    if not marked && p == path then some offset else rest

unfoldable pub add_mark : Mark → Server → Server
add_mark m s = record s { marks = m ∷ s.marks }

-- Where the byte goes that marks the line found by the loop: it is written to the file of this node.
abbrev pub found_mark : Env → String → ℕ → Mark
found_mark env node offset =
    if node == env.node_name then at_offset node (pos offset) else at_position

-- Where it goes if the offset is known: the file of another node is open to append.
abbrev pub known_mark : Env → String → ℤ → Mark
known_mark env node offset = if node == env.node_name then at_offset node offset else at_end node

-- delete_from_files_location: 1 if the line was found or its offset is known, and 2 otherwise.
unfoldable pub mark_line : Env → String → Location → Server → ℤ × Server
mark_line env path l s =
    if eqb_ℤ l.offset (negsuc 0)
    then elim (line_offset env path l.node 0 (env.location_lines l.node)) [
      | none ↦ (pos 2, s)
      | some offset ↦ (pos 1, add_mark (found_mark env l.node offset) s)
    ]
    else (pos 1, add_mark (known_mark env l.node l.offset) s)

unfoldable pub delete_from_files_location : Env → String → St Server ℤ
delete_from_files_location env path = do
  l ← get_file_location path
  result ← (λ s. some (mark_line env path l s))
  modify (erase_from_files_location path)
  pure result

unfoldable pub write_if_unknown : Env → String → Server → Server
write_if_unknown env path s = elim (lookup path s.locations) [
  | none ↦ write_file_location env path s
  | some l ↦ s
]

unfoldable pub rename_file : Env → ℕ → String → String → St Server (Unit {0})
rename_file env tid oldpath newpath = do
  on_storage (rename oldpath newpath)
  result ← delete_from_files_location env oldpath
  modify (write_if_unknown env newpath)
  modify (rename_file_location oldpath newpath)
  on_clients (reply_to_client tid (pos 0))

unfoldable pub handle_rename : Env → ℕ → String → String → St Server (Unit {0})
handle_rename env tid oldpath newpath s = elim (try_get oldpath s.storage) [
  | none ↦ on_clients (reply_to_client tid (pos 1)) s
  | some id ↦ rename_file env tid oldpath newpath s
]

-- The unlink of a file that is there: it stays as long as it is open.
unfoldable pub unlink_file : Env → ℕ → String → ℕ → St Server (Unit {0})
unlink_file env tid path id = do
  f ← on_storage (object id)
  when (deletable f)
      (do on_storage (remove path); result ← delete_from_files_location env path; pure tt)
  on_clients (reply_to_client tid (pos 0))

unfoldable pub handle_unlink : Env → ℕ → String → St Server (Unit {0})
handle_unlink env tid path s = elim (try_get path s.storage) [
  | none ↦ on_clients (reply_to_client tid (negsuc 0)) s
  | some id ↦ unlink_file env tid path id s
]

unfoldable pub unlink_handler : Env → ℕ → String → St Server (Unit {0})
unlink_handler env tid path = unless_excluded env tid path (handle_unlink env tid path)

unfoldable pub handle_rmdir : Env → ℕ → String → St Server (Unit {0})
handle_rmdir env tid path = do
  on_storage (remove path)
  result ← delete_from_files_location env path
  on_clients (reply_to_client tid result)

unfoldable pub rmdir_handler : Env → ℕ → String → St Server (Unit {0})
rmdir_handler env tid path = unless_excluded env tid path (handle_rmdir env tid path)

unfoldable pub mkdir_handler : Env → ℕ → String → St Server (Unit {0})
mkdir_handler env tid path = do
  result ← add_directory env tid path
  on_clients (reply_to_client tid (pos result))
