-- ===== src/Server/Safety.antt =====
-- The locations in every state that the server reaches: the property, and that the managers have no part
-- in it. The modules below go through the handlers.
pub mod Places
pub mod Reads
pub mod Writes
pub mod Rest
pub mod Moves
pub mod Reached
use capio.Base.{
  ℕ, ◌≡◌, refl, Option, none, some, List, [], ◌∷◌, ◌++◌, Bool, true, false, if◌then◌else◌,
  string_key, nat_key,
}
use Prim.Native.String.{String}
use capio.Base.Map.{lookup, insert, erase}
use capio.Base.State.{St, ◌>>=◌, ◌>>◌, pure, exit, gets, modify, from_option, when}
use capio.Storage.{StorageManager}
use capio.Clients.{ClientManager}
use capio.Server.{Env, Server, Location, Waiting, on_storage, on_clients, suspend}
use capio.Server.Keeps.{
  Keeps, Keeps-pure, Keeps-exit, Keeps-gets, Keeps-if, Keeps-elim, Keeps-bind, Keeps-modify,
  Keeps-when, Keeps-on_storage, Keeps-on_clients, Keeps-suspend,
}

-- The lines of the file of this node.
abbrev pub AllLines : String → List (String × String) → Type 0
AllLines node [] = Unit {0}
AllLines node (line ∷ ls) = (line.1 ≡ node) × AllLines node ls

-- Where the name of a location is the string of the backend itself, the file is of this node; and so is
-- each line that this node has published.
pub record Sound (env : Env) (s : Server) : Type 0 where
  pub named :
      (path : String) (l : Location)
      → lookup path s.locations ≡ some l
      → l.own_name ≡ true
      → l.node ≡ env.node_name
  pub lines : AllLines env.node_name s.published

module _ (env : Env) where
  pub Sound-storage : {A : Type 0} (op : St StorageManager A) → Keeps (Sound env) (on_storage op)
  Sound-storage op =
      Keeps-on_storage (λ s m h. record { named = h.named; lines = h.lines })
        (λ s c h. record { named = h.named; lines = h.lines })
        (λ s w h. record { named = h.named; lines = h.lines }) op

  pub Sound-clients : {A : Type 0} (op : St ClientManager A) → Keeps (Sound env) (on_clients op)
  Sound-clients op =
      Keeps-on_clients (λ s m h. record { named = h.named; lines = h.lines })
        (λ s c h. record { named = h.named; lines = h.lines })
        (λ s w h. record { named = h.named; lines = h.lines }) op

  pub Sound-suspend : (w : Waiting) → Keeps (Sound env) (suspend w)
  Sound-suspend w =
      Keeps-suspend (λ s m h. record { named = h.named; lines = h.lines })
        (λ s c h. record { named = h.named; lines = h.lines })
        (λ s w h. record { named = h.named; lines = h.lines }) w

pub ruleset keeps_rules = (
  Keeps-pure, Keeps-exit, Keeps-gets, Keeps-if, Keeps-bind, Keeps-when, Sound-storage,
  Sound-clients, Sound-suspend,
)
