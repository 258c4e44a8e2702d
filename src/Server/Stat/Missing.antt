-- ===== src/Server/Stat/Missing.antt =====
-- Opening a file that no node has, and its stat.
use capio.Base.{ℕ, ◌≡◌, some, List, [], ◌∷◌, ◌++◌, if◌then◌else◌, Bool, string_key, nat_key}
use Prim.Native.String.{String}
use capio.Base.Int.{ℤ, negsuc}
use capio.Clients.{get_app_name}
use capio.Server.{Env, Server, for_creation, for_completion}
use capio.Server.Open.{handle_open}
use capio.Server.Stat.{reply_stat}
use capio.Server.Stat.Answered.{Told}

-- An open of the file waits until the file is created; a stat waits too, unless the application of the
-- thread is a producer of the file: then the thread is told -1 twice.
abbrev pub StatMissed : Env → ℕ → String → Server → List ℤ → Bool → Type 0
StatMissed env tid path s sent producer =
    if producer
    then ((s' : Server) × (reply_stat env tid path s ≡ some (tt, s'))
        × Told tid sent (negsuc 0) (negsuc 0) s s')
    else reply_stat env tid path s
      ≡ some (tt, record s { waiting = s.waiting ++ (for_completion tid path ∷ []) })

pub record Missed (env : Env) (tid fd : ℕ) (path : String) (s : Server) (sent : List ℤ)
    : Type 0 where
  pub opening :
      handle_open env tid fd path s
      ≡ some (tt, record s { waiting = s.waiting ++ (for_creation path tid fd ∷ []) })
  pub stat : StatMissed env tid path s sent (env.is_producer_of path (get_app_name tid s.clients))
