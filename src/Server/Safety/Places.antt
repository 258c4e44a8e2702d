-- ===== src/Server/Safety/Places.antt =====
-- The operations on the locations.
use capio.Base.{
  ◌≡◌, refl, subst, sym, ◌∙◌, Option, none, some, List, [], ◌∷◌, ◌++◌, Bool, true, false, ◌==◌,
  if◌then◌else◌, string_key, nat_key,
}
use Prim.Native.String.{String}
use mathlib.Core.Option.{some-injective}
use capio.Base.Map.{Map, lookup, insert, erase}
use capio.Base.State.{pure, exit}
use capio.Server.{Env, Server, Location}
use capio.Server.Keeps.{Keeps, Keeps-pure, Keeps-exit, Keeps-elim}
use capio.Server.Safety.{Sound, AllLines}
use capio.Base.Map.{lookup-insert, lookup-erase}
use capio.Clients.{emplace}
use capio.Server.Publish.{add_file_location, write_file_location}
use capio.Server.Locations.{
  get_file_location, erase_from_files_location, rename_file_location, find_node, load_file_location,
  is_located,
}

-- A location that may be added: the name is a copy, or that of this node.
abbrev pub MayAdd : Env → Location → Type 0
MayAdd env l = l.own_name ≡ true → l.node ≡ env.node_name

abbrev AllNamed : Env → Map String Location → Type 0
AllNamed env m = (path : String) (l : Location) → lookup path m ≡ some l → MayAdd env l

AllNamed-insert :
    (env : Env) (path : String) (l : Location) (m : Map String Location)
    → MayAdd env l
    → AllNamed env m
    → AllNamed env (insert path l m)
AllNamed-insert env path l m may h q k e = go (path == q) (sym (lookup-insert path q l m) ∙ e)
  where
    go : (b : Bool) → (if b then some l else lookup q m) ≡ some k → MayAdd env k
    go true e = subst (λ x. MayAdd env x) (some-injective l k e) may
    go false e = h q k e

AllNamed-erase :
    (env : Env) (path : String) (m : Map String Location)
    → AllNamed env m
    → AllNamed env (erase path m)
AllNamed-erase env path m h q k e = go (path == q) (sym (lookup-erase path q m) ∙ e)
  where
    go : (b : Bool) → (if b then none else lookup q m) ≡ some k → MayAdd env k
    go true e = cc
    go false e = h q k e

module _ (env : Env) where
  pub add_file_location-Sound :
      (path : String) (l : Location) (s : Server)
      → MayAdd env l
      → Sound env s
      → Sound env (add_file_location path l s)
  unfolding add_file_location emplace
  add_file_location-Sound path l s may h = go (lookup path s.locations)
    where
      go :
          (o : Option Location)
          → Sound env (record s {
            locations = elim o [ none ↦ insert path l s.locations | some w ↦ s.locations ];
          })
      go none = record {
        named = AllNamed-insert env path l s.locations may h.named;
        lines = h.lines;
      }
      go (some w) = record { named = h.named; lines = h.lines }

  AllLines-append :
      (ls : List (String × String)) (path : String)
      → AllLines env.node_name ls
      → AllLines env.node_name (ls ++ ((path, env.node_name) ∷ []))
  AllLines-append [] path h = (refl, tt)
  AllLines-append (l ∷ ls) path h = (h.0, AllLines-append ls path h.1)

  pub write_file_location-Sound :
      (path : String) (s : Server) → Sound env s → Sound env (write_file_location env path s)
  unfolding write_file_location
  write_file_location-Sound path s h =
      add_file_location-Sound path _ _ (λ e. refl)
        (record { named = h.named; lines = AllLines-append s.published path h.lines })

  pub erase_from_files_location-Sound :
      (path : String) (s : Server) → Sound env s → Sound env (erase_from_files_location path s)
  unfolding erase_from_files_location
  erase_from_files_location-Sound path s h = record {
    named = AllNamed-erase env path s.locations h.named;
    lines = h.lines;
  }

  pub rename_file_location-Sound :
      (oldpath newpath : String) (s : Server)
      → Sound env s
      → Sound env (rename_file_location oldpath newpath s)
  unfolding rename_file_location
  rename_file_location-Sound oldpath newpath s h = go (lookup oldpath s.locations) refl
    where
      go :
          (o : Option Location)
          → lookup oldpath s.locations ≡ o
          → Sound env (elim o [
            | none ↦ s
            | some l ↦ add_file_location newpath l (erase_from_files_location oldpath s)
          ])
      go none e = h
      go (some l) e =
          add_file_location-Sound newpath l _ (h.named oldpath l e)
            (erase_from_files_location-Sound oldpath s h)

  pub get_file_location-Sound : (path : String) → Keeps (Sound env) (get_file_location path)
  unfolding get_file_location
  get_file_location-Sound path =
      Keeps-elim (λ s. lookup path s.locations) exit (λ l. pure l) Keeps-exit (λ l. Keeps-pure l)

  pub load_file_location-Sound : (path : String) → Keeps (Sound env) (load_file_location env path)
  unfolding load_file_location
  load_file_location-Sound path =
      Keeps-elim (λ s. find_node env path env.nodes) (pure false)
        (λ node s. some (
          true,
          add_file_location path
              (record { node = node; own_name = false; offset = env.location_position node }) s,
        ))
        (Keeps-pure false)
        (λ node. record { at = λ s h. add_file_location-Sound path _ s (λ e. cc) h })

  pub is_located-Sound : (path : String) → Keeps (Sound env) (is_located env path)
  unfolding is_located
  is_located-Sound path =
      Keeps-elim (λ s. lookup path s.locations) (load_file_location env path) (λ l. pure true)
        (load_file_location-Sound path) (λ l. Keeps-pure true)
