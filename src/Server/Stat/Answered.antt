-- ===== src/Server/Stat/Answered.antt =====
-- What stat answers for a file that is here.
use capio.Base.{
  ℕ, ◌≡◌, refl, ap, ◌∙◌, some, List, [], ◌∷◌, ◌++◌, if◌then◌else◌, string_key, nat_key,
}
use mathlib.Core.List.{append_assoc}
use Prim.Native.String.{String}
use capio.Base.Int.{ℤ, pos}
use capio.Base.Map.{lookup, insert, lookup-insert_self}
use capio.Base.State.{◌>>◌, >>-run}
use capio.Sectors.{get_file_size}
use capio.File.{CapioFile}
use capio.Clients.{reply_to_client}
use capio.Server.{Server, on_clients}

abbrev pub size_of : CapioFile → ℤ
size_of f = pos (get_file_size f.sectors)

abbrev pub directory_flag : CapioFile → ℤ
directory_flag f = pos (if f.directory then 1 else 0)

abbrev replied : ℕ → List ℤ → Server → Server
replied tid xs s = record s {
  clients = record (s.clients) { responses = insert tid xs s.clients.responses };
}

reply_run :
    (tid : ℕ) (x : ℤ) (sent : List ℤ) (s : Server)
    → lookup tid s.clients.responses ≡ some sent
    → on_clients (reply_to_client tid x) s ≡ some (tt, replied tid (sent ++ (x ∷ [])) s)
unfolding reply_to_client on_clients insert
reply_run tid x sent s h = rw (on_clients, h)

-- The thread has been told the two numbers, and neither the storage nor what waits has changed.
pub record Told (tid : ℕ) (sent : List ℤ) (x y : ℤ) (s s' : Server) : Type 0 where
  pub answer : lookup tid s'.clients.responses ≡ some (sent ++ (x ∷ y ∷ []))
  pub same_storage : s'.storage ≡ s.storage
  pub same_waiting : s'.waiting ≡ s.waiting

pub reply_twice :
    (tid : ℕ) (x y : ℤ) (sent : List ℤ) (s : Server)
    → lookup tid s.clients.responses ≡ some sent
    → (s' : Server) × ((on_clients (reply_to_client tid x) >> on_clients (reply_to_client tid y)) s
        ≡ some (tt, s'))
      × Told tid sent x y s s'
reply_twice tid x y sent s h =
    let once : Server = replied tid (sent ++ (x ∷ [])) s in
    let told : lookup tid once.clients.responses ≡ some (sent ++ (x ∷ [])) =
      lookup-insert_self tid (sent ++ (x ∷ [])) s.clients.responses in
    (
      replied tid ((sent ++ (x ∷ [])) ++ (y ∷ [])) once,
      >>-run (on_clients (reply_to_client tid x)) (on_clients (reply_to_client tid y)) s once
            (reply_run tid x sent s h)
          ∙ reply_run tid y (sent ++ (x ∷ [])) once told,
      record {
        answer =
            lookup-insert_self tid ((sent ++ (x ∷ [])) ++ (y ∷ [])) once.clients.responses
            ∙ ap some (append_assoc sent (x ∷ []) (y ∷ []));
        same_storage = refl;
        same_waiting = refl;
      },
    )
