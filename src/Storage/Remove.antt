-- ===== src/Storage/Remove.antt =====
-- remove: a file with one open descriptor, and one with two.
use capio.Base.{
  ℕ, suc, ◌≡◌, ap, none, some, List, [], ◌∷◌, ◌==◌, false, arith, ◌∙◌, string_key, nat_key,
  get_elem?, length,
}
use Prim.Native.String.{String}
use capio.Base.Map.{lookup, insert, erase, lookup-insert_self, lookup-erase_self}
use capio.Base.State.{St, ◌>>=◌, ◌>>◌, modify, from_option, >>-run, >>=-run}
use capio.File.{CapioFile, remove_fd, remove_first}
use capio.Storage.{
  Fd, fd_key, OpenedFd, StorageManager, object, update_object, at_fd, get, try_get, remove_from_tid,
  remove_fds, remove,
}

>>-none : {S B : Type 0} (m : St S (Unit {0})) (k : St S B) (s : S) → m s ≡ none → (m >> k) s ≡ none
>>-none m k s e = rw (e, ◌>>=◌)

module _ (path : String) (id tid fd : ℕ) (entry : OpenedFd) (f : CapioFile) (rest : List Fd)
    (m : StorageManager) (named : try_get path m ≡ some id) (stored : lookup id m.objects ≡ some f)
    (fds : f.threads_fd ≡ (tid, fd) ∷ rest) (is_open : lookup (tid, fd) m.opened ≡ some entry)
    (has_path : (entry.path == "") ≡ false) (points : entry.pointer ≡ some id) where
  abbrev closed_one : StorageManager
  closed_one = record m {
    objects = insert id (remove_fd tid fd f) m.objects;
    opened = erase (tid, fd) m.opened;
  }

  remove_from_tid_run : remove_from_tid (tid, fd) m ≡ some (tt, closed_one)
  unfolding remove_from_tid at_fd update_object
  remove_from_tid_run = ground (arith, is_open, has_path, points, stored)

  rest_lem : (remove_fd tid fd f).threads_fd ≡ rest
  unfolding remove_fd remove_first
  rest_lem = ap (remove_first tid fd) fds ∙ (ground arith)

  object_run : object id m ≡ some (f, m)
  unfolding object
  object_run = ground (arith, stored)

  first_fd : from_option (get_elem? f.threads_fd 0) m ≡ some ((tid, fd), m)
  first_fd = ap (λ xs. from_option (get_elem? xs 0) m) fds

  first_run : (n : ℕ) → remove_fds id 0 (suc n) m ≡ remove_fds id 1 n closed_one
  unfolding remove_fds
  first_run n =
      >>=-run (object id) _ m m f object_run
      ∙ >>=-run (from_option (get_elem? f.threads_fd 0)) _ m m (tid, fd) first_fd
      ∙ >>-run (remove_from_tid (tid, fd)) (remove_fds id 1 n) m closed_one remove_from_tid_run

  get_run : get path m ≡ some (id, m)
  unfolding get try_get
  get_run = ap (λ o. from_option o m) named

  abbrev forget : St StorageManager (Unit {0})
  forget = modify (λ m. record m { storage = erase path m.storage; objects = erase id m.objects })

  remove_start : remove path m ≡ (remove_fds id 0 (suc (length rest)) >> forget) m
  unfolding remove
  remove_start =
      >>=-run (get path) _ m m id get_run
      ∙ >>=-run (object id) _ m m f object_run
      ∙ ap (λ xs. (remove_fds id 0 (length xs) >> forget) m) fds

  -- A file with one open descriptor is removed: its path, the file and the descriptor are gone.
  pub remove_one :
      rest ≡ []
      → (m' : StorageManager) × (remove path m ≡ some (tt, m'))
        × (try_get path m' ≡ none)
        × (lookup id m'.objects ≡ none)
        × (lookup (tid, fd) m'.opened ≡ none)
  unfolding try_get remove_fds
  remove_one h = (
    record closed_one {
      storage = erase path m.storage;
      objects = erase id (insert id (remove_fd tid fd f) m.objects);
    },
    remove_start
        ∙ ap (λ xs. (remove_fds id 0 (suc (length xs)) >> forget) m) h
        ∙ >>-run (remove_fds id 0 1) forget m closed_one (first_run 0),
    lookup-erase_self path m.storage,
    lookup-erase_self id (insert id (remove_fd tid fd f) m.objects),
    lookup-erase_self (tid, fd) m.opened,
  )

  second_run : (y : Fd) → rest ≡ y ∷ [] → remove_fds id 1 1 closed_one ≡ none
  unfolding remove_fds object
  second_run y h = ground (arith, lookup-insert_self id (remove_fd tid fd f) m.objects, rest_lem, h)

  -- Removing a file with two open descriptors faults: the loop over its descriptors goes past their
  -- end, since each is taken out of the list that it goes over.
  pub remove_two : (y : Fd) → rest ≡ y ∷ [] → remove path m ≡ none
  remove_two y h =
      remove_start
      ∙ ap (λ xs. (remove_fds id 0 (suc (length xs)) >> forget) m) h
      ∙ >>-none (remove_fds id 0 2) forget m (first_run 1 ∙ second_run y h)
