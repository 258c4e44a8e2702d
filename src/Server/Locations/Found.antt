-- ===== src/Server/Locations/Found.antt =====
-- Looking for the location of a file.
use capio.Base.{◌≡◌, Option, none, some, List, [], ◌∷◌, Bool, true, false, ◌||◌, string_key}
use Prim.Native.String.{String}
use capio.Base.Map.{lookup}
use capio.Server.{Env, Server}
use capio.Server.Locations.{has_line, find_node, load_file_location, is_located}

-- Whether some node's file has a line of the path that is not marked.
abbrev pub on_disk : Env → String → List String → Bool
on_disk env path [] = false
on_disk env path (node ∷ nodes) = has_line path (env.location_lines node) || on_disk env path nodes

abbrev pub is_some {ℓ} : {A : Type ℓ} → Option A → Bool
is_some none = false
is_some (some x) = true

abbrev pub known : String → Server → Bool
known path s = is_some (lookup path s.locations)

-- A file that no node has is looked for in vain, and nothing changes.
pub not_located :
    (env : Env) (path : String) (s : Server)
    → lookup path s.locations ≡ none
    → find_node env path env.nodes ≡ none
    → is_located env path s ≡ some (false, s)
unfolding is_located load_file_location
not_located env path s h g = rw (is_located, h, load_file_location, g)
