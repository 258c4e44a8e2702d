-- ===== src/Server/Keeps.antt =====
-- What operations of the server keep, one rule for each way to build an operation.
use capio.Base.{Option, none, some, List, Bool, true, false, if◌then◌else◌}
use capio.Base.State.{St, ◌>>=◌, pure, exit, gets, modify, when}
use capio.Storage.{StorageManager}
use capio.Clients.{ClientManager}
use capio.Server.{Server, Waiting, on_storage, on_clients, suspend}

-- Of a result, if there is one.
abbrev pub Ends : {A : Type 0} → (Server → Type 0) → Option (A × Server) → Type 0
Ends P none = Unit {0}
Ends P (some (a, s)) = P s

pub record Keeps {A : Type 0} (P : Server → Type 0) (m : St Server A) : Type 0 where
  pub at : (s : Server) → P s → Ends P (m s)

module _ {P : Server → Type 0} {A : Type 0} where
  pub Keeps-pure : (a : A) → Keeps P (pure a)
  Keeps-pure a = record { at = λ s h. h }

  pub Keeps-exit : Keeps P (exit {A = A})
  Keeps-exit = record { at = λ s h. tt }

  pub Keeps-gets : (f : Server → A) → Keeps P (gets f)
  Keeps-gets f = record { at = λ s h. h }

  pub Keeps-if :
      (b : Bool) (m n : St Server A) → Keeps P m → Keeps P n → Keeps P (if b then m else n)
  Keeps-if true m n km kn = km
  Keeps-if false m n km kn = kn

  pub Keeps-elim :
      {X : Type 0} (o : Server → Option X) (m : St Server A) (k : X → St Server A)
      → Keeps P m
      → ((x : X) → Keeps P (k x))
      → Keeps P (λ s. elim (o s) as (λ _. Option (A × Server)) [ none ↦ m s | some x ↦ k x s ])
  Keeps-elim {X} o m k km kk = record { at = λ s h. go s h (o s) }
    where
      go :
          (s : Server)
          → P s
          → (x : Option X)
          → Ends P (elim x as (λ _. Option (A × Server)) [ none ↦ m s | some y ↦ k y s ])
      go s h none = km.at s h
      go s h (some x) = (kk x).at s h

module _ {P : Server → Type 0} {A B : Type 0} where
  pub Keeps-bind :
      (m : St Server A) (f : A → St Server B)
      → Keeps P m
      → ((a : A) → Keeps P (f a))
      → Keeps P (m >>= f)
  Keeps-bind m f km kf = record { at = λ s h. go (m s) (km.at s h) }
    where
      go :
          (r : Option (A × Server))
          → Ends P r
          → Ends P (elim r as (λ _. Option (B × Server)) [ none ↦ none | some (a, s') ↦ f a s' ])
      go none h = tt
      go (some (a, s')) h = (kf a).at s' h

module _ {P : Server → Type 0} where
  pub Keeps-modify : (f : Server → Server) → ((s : Server) → P s → P (f s)) → Keeps P (modify f)
  Keeps-modify f k = record { at = k }

  pub Keeps-when : (b : Bool) (m : St Server (Unit {0})) → Keeps P m → Keeps P (when b m)
  Keeps-when true m km = km
  Keeps-when false m km = Keeps-pure tt

  -- A property that does not speak of the managers, nor of what waits.
  module _ (storage : (s : Server) (m : StorageManager) → P s → P (record s { storage = m }))
      (clients : (s : Server) (c : ClientManager) → P s → P (record s { clients = c }))
      (waiting : (s : Server) (ws : List Waiting) → P s → P (record s { waiting = ws })) where
    pub Keeps-on_storage : {A : Type 0} (op : St StorageManager A) → Keeps P (on_storage op)
    unfolding on_storage
    Keeps-on_storage {A} op = record { at = λ s h. go s h (op s.storage) }
      where
        go :
            (s : Server)
            → P s
            → (r : Option (A × StorageManager))
            → Ends P (elim r as (λ _. Option (A × Server)) [
              | none ↦ none
              | some (a, m) ↦ some (a, record s { storage = m })
            ])
        go s h none = tt
        go s h (some (a, m)) = storage s m h

    pub Keeps-on_clients : {A : Type 0} (op : St ClientManager A) → Keeps P (on_clients op)
    unfolding on_clients
    Keeps-on_clients {A} op = record { at = λ s h. go s h (op s.clients) }
      where
        go :
            (s : Server)
            → P s
            → (r : Option (A × ClientManager))
            → Ends P (elim r as (λ _. Option (A × Server)) [
              | none ↦ none
              | some (a, c) ↦ some (a, record s { clients = c })
            ])
        go s h none = tt
        go s h (some (a, c)) = clients s c h

    pub Keeps-suspend : (w : Waiting) → Keeps P (suspend w)
    unfolding suspend
    Keeps-suspend w = record { at = λ s h. waiting s _ h }
