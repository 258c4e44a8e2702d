-- ===== src/Tests/OnClient.antt =====
-- The writes of a client, and its tables with one descriptor.
use capio.Base.{
  ℕ, List, ◌≡◌, ◌≢◌, refl, [], ◌∷◌, none, some, true, false, string_key, nat_key, ◌==◌, Bool-cases,
  inl, inr, ap, ◌∙◌, sym, subst,
}
use Prim.Native.String.{String}
use mathlib.Core.Option.{some-injective}
use capio.Base.Int.{pos}
use capio.Base.Map.{lookup, insert}
use capio.Storage.{fd_key}
use capio.Caches.{flush, new_write_cache}
use capio.Caches.Received.{receive, writes_received}
use capio.Caches.Written.{writes, all_tagged}
use capio.Descriptors.{
  Descriptors, add_capio_path, change_set, put, add_to_set, add_capio_fd, delete_capio_fd,
  exists_capio_fd, exists_capio_path, get_capio_fd_path, get_capio_fd_offset, rename_capio_path,
}
use capio.Descriptors.Consistent.{IsConsistent, add_capio_fd_lem, delete_capio_fd_lem}
use capio.Descriptors.Renamed.{rename_capio_path_taken}

-- Two writes of two descriptors, the second longer than a line.
abbrev two_writes : List (ℕ × List ℕ)
two_writes = (3, 1 ∷ 2 ∷ []) ∷ (4, 3 ∷ 4 ∷ 5 ∷ 6 ∷ 7 ∷ []) ∷ []

writes_received_example :
    receive 4
      (flush (writes two_writes (new_write_cache 4))).requests
      (flush (writes two_writes (new_write_cache 4))).elements
    ≡ some (all_tagged two_writes, [])
writes_received_example = writes_received 4 two_writes

-- The path `/b` is registered and has no descriptor; then descriptor 3 is opened on `/a`.
abbrev no_fds : Descriptors
no_fds = record {
  descriptors = [];
  paths = ("/b", []) ∷ [];
  files = [];
  offsets = [];
  next_offset = 0;
}

no_fds-IsConsistent : IsConsistent no_fds
unfolding lookup
no_fds-IsConsistent = record {
  agree = λ fd path. elim (Bool-cases ("/b" == path)) [
    | inl t ↦ rw (lookup, t)
    | inr f ↦ rw (lookup, f)
  ];
  same_fds = λ fd. refl;
}

no_three : get_capio_fd_path 3 no_fds ≡ none
unfolding get_capio_fd_path lookup
no_three = refl

abbrev pub tables : Descriptors
tables = record {
  descriptors = (3, "/a") ∷ [];
  paths = ("/b", []) ∷ ("/a", 3 ∷ []) ∷ [];
  files = (3, record { offset = 0; size = pos 8; flags = 0; is_cloexec = false }) ∷ [];
  offsets = (0, pos 5) ∷ [];
  next_offset = 1;
}

add_run : add_capio_fd "/a" 3 (pos 5) (pos 8) 0 false no_fds ≡ some (tt, tables)
unfolding add_capio_fd add_capio_path change_set put lookup insert add_to_set
add_run = refl

add_capio_fd_lem_example :
    (d' : Descriptors) × (add_capio_fd "/a" 3 (pos 5) (pos 8) 0 false no_fds ≡ some (tt, d'))
    × IsConsistent d'
    × (get_capio_fd_path 3 d' ≡ some "/a")
    × (get_capio_fd_offset 3 d' ≡ some (pos 5, d'))
add_capio_fd_lem_example =
    add_capio_fd_lem "/a" 3 (pos 5) (pos 8) 0 false no_fds no_fds-IsConsistent no_three

pub tables-IsConsistent : IsConsistent tables
tables-IsConsistent =
    let (d, e, v, _, _) =
      add_capio_fd_lem "/a" 3 (pos 5) (pos 8) 0 false no_fds no_fds-IsConsistent no_three in
    subst IsConsistent
      (ap (λ (x : Unit {0} × Descriptors). x.1)
        (some-injective (tt, d) (tt, tables) (sym e ∙ add_run)))
      v

has_three : get_capio_fd_path 3 tables ≡ some "/a"
unfolding get_capio_fd_path lookup
has_three = refl

exists_three : exists_capio_fd 3 tables ≡ true
unfolding exists_capio_fd lookup
exists_three = refl

delete_capio_fd_lem_example :
    (d' : Descriptors) × (delete_capio_fd 3 tables ≡ some (tt, d'))
    × IsConsistent d'
    × (exists_capio_fd 3 d' ≡ false)
    × (get_capio_fd_path 3 d' ≡ none)
delete_capio_fd_lem_example = delete_capio_fd_lem 3 tables tables-IsConsistent exists_three

b_free : lookup "/b" tables.paths ≡ some []
unfolding lookup
b_free = refl

abbrev slash_a : String
slash_a = "/a"

abbrev slash_b : String
slash_b = "/b"

a-ne-b : slash_a ≢ slash_b
a-ne-b e = cc ((string_key.decides slash_a slash_b).1 e)

rename_capio_path_taken_example :
    (d' : Descriptors) × (rename_capio_path "/a" "/b" tables ≡ some (tt, d'))
    × (exists_capio_path "/a" d' ≡ false)
    × (get_capio_fd_path 3 d' ≡ some "/a")
    × (delete_capio_fd 3 d' ≡ none)
rename_capio_path_taken_example =
    rename_capio_path_taken "/a" "/b" 3 tables tables-IsConsistent a-ne-b b_free has_three
