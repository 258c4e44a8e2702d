-- ===== src/Server/Locations.antt =====
-- The locations of files, capio/server/include/utils/location.hpp, but for their deletion.
pub mod Found
use capio.Base.{
  ℕ, ◌≡◌, Option, none, some, List, [], ◌∷◌, if◌then◌else◌, Bool, true, false, ◌&&◌, ◌||◌, not,
  ◌==◌, string_key,
}
use Prim.Native.String.{String}
use capio.Base.Map.{lookup, insert, erase}
use capio.Base.State.{St, ◌>>=◌, pure}
use capio.Server.{Env, Server, Location}
use capio.Server.Publish.{add_file_location}

unfoldable pub get_file_location_opt : String → Server → Option Location
get_file_location_opt path s = lookup path s.locations

-- ERR_EXIT where there is none.
unfoldable pub get_file_location : String → St Server Location
get_file_location path s = elim (lookup path s.locations) [ none ↦ none | some l ↦ some (l, s) ]

unfoldable pub erase_from_files_location : String → Server → Server
erase_from_files_location path s = record s { locations = erase path s.locations }

-- `insert` of the node does nothing where the new path has a location.
unfoldable pub rename_file_location : String → String → Server → Server
rename_file_location oldpath newpath s = elim (lookup oldpath s.locations) [
  | none ↦ s
  | some l ↦ add_file_location newpath l (erase_from_files_location oldpath s)
]

-- The loop over the lines of a file: does one that is not marked name the path?
unfoldable pub has_line : String → List (Bool × String) → Bool
has_line path [] = false
has_line path ((marked, p) ∷ ls) = (not marked && p == path) || has_line path ls

-- The loop over the nodes: the first whose file has the path.
unfoldable pub find_node : Env → String → List String → Option String
find_node env path [] = none
find_node env path (node ∷ nodes) =
    if has_line path (env.location_lines node) then some node else find_node env path nodes

-- load_file_location: the node's name is copied.
unfoldable pub load_file_location : Env → String → St Server Bool
load_file_location env path s = elim (find_node env path env.nodes) [
  | none ↦ some (false, s)
  | some node ↦ some (
    true,
    add_file_location path
        (record { node = node; own_name = false; offset = env.location_position node }) s,
  )
]

-- `get_file_location_opt(path) || load_file_location(path)`
unfoldable pub is_located : Env → String → St Server Bool
is_located env path s = elim (lookup path s.locations) [
  | some l ↦ some (true, s)
  | none ↦ load_file_location env path s
]
