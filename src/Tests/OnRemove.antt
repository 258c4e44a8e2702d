-- ===== src/Tests/OnRemove.antt =====
-- A file with one open descriptor, and one with two.
use capio.Base.{◌≡◌, refl, List, [], ◌∷◌, none, some, false, ◌==◌, string_key, nat_key}
use capio.Base.Int.{pos}
use capio.Base.Map.{lookup}
use capio.File.{CapioFile, empty_file}
use capio.Storage.{Fd, fd_key, pair_beq, OpenedFd, StorageManager, remove, try_get}
use capio.Storage.Remove.{remove_one, remove_two}

abbrev entry : OpenedFd
entry = record { path = "/a"; pointer = some 0; offset = some 0 }

abbrev file : List Fd → CapioFile
file fds = record empty_file { threads_fd = fds }

abbrev storage : List Fd → StorageManager
storage fds = record {
  storage = ("/a", 0) ∷ [];
  objects = (0, file fds) ∷ [];
  opened = ((1, 3), entry) ∷ ((1, 4), entry) ∷ [];
  offsets = (0, pos 0) ∷ [];
  next_object = 1;
  next_offset = 1;
}

named : (fds : List Fd) → try_get "/a" (storage fds) ≡ some 0
unfolding try_get lookup
named fds = refl

stored : (fds : List Fd) → lookup 0 (storage fds).objects ≡ some (file fds)
unfolding lookup
stored fds = refl

is_open : (fds : List Fd) → lookup (1, 3) (storage fds).opened ≡ some entry
unfolding lookup fd_key pair_beq
is_open fds = refl

has_path : (entry.path == "") ≡ false
has_path = refl

remove_one_example :
    (m' : StorageManager) × (remove "/a" (storage ((1, 3) ∷ [])) ≡ some (tt, m'))
    × (try_get "/a" m' ≡ none)
    × (lookup 0 m'.objects ≡ none)
    × (lookup (1, 3) m'.opened ≡ none)
remove_one_example =
    remove_one "/a" 0 1 3 entry (file ((1, 3) ∷ [])) [] (storage ((1, 3) ∷ []))
      (named ((1, 3) ∷ [])) (stored ((1, 3) ∷ [])) refl (is_open ((1, 3) ∷ [])) has_path refl refl

remove_two_example : remove "/a" (storage ((1, 3) ∷ (1, 4) ∷ [])) ≡ none
remove_two_example =
    remove_two "/a" 0 1 3 entry (file ((1, 3) ∷ (1, 4) ∷ [])) ((1, 4) ∷ [])
      (storage ((1, 3) ∷ (1, 4) ∷ [])) (named ((1, 3) ∷ (1, 4) ∷ []))
      (stored ((1, 3) ∷ (1, 4) ∷ [])) refl (is_open ((1, 3) ∷ (1, 4) ∷ [])) has_path refl (1, 4)
      refl
