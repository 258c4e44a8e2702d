-- ===== src/Tests/OnStorage.antt =====
-- Two files, with a descriptor each, of thread 1; and the clients that opened them.
use capio.Base.{
  if◌then◌else◌, ◌==◌, ◌≡◌, ◌≢◌, refl, [], ◌∷◌, none, some, arith, string_key, nat_key,
}
use Prim.Native.String.{String}
use mathlib.Core.Option
use capio.Base.Int.{pos}
use capio.Base.Map.{lookup}
use capio.Base.State.{◌>>◌}
use capio.File.{empty_file}
use capio.Storage.{
  Fd, fd_key, pair_beq, OpenedFd, StorageManager, dup, set_file_offset, get_file_offset, rename,
  try_get,
}
use capio.Storage.Fds.{HasOffset, dup_shares, dup_result, with_offset, fresh_fd}
use capio.Storage.Rename.{retarget, rename_lem, rename_onto_file}
use capio.Clients.{ClientManager, is_producer, remove_client, lists, get_app_name}
use capio.Clients.Produced.{remove_client_forgets}

abbrev entry_a : OpenedFd
entry_a = record { path = "/a"; pointer = some 0; offset = some 0 }

abbrev entry_b : OpenedFd
entry_b = record { path = "/b"; pointer = some 1; offset = some 1 }

abbrev storage : StorageManager
storage = record {
  storage = ("/a", 0) ∷ ("/b", 1) ∷ [];
  objects = (0, empty_file) ∷ (1, empty_file) ∷ [];
  opened = ((1, 3), entry_a) ∷ ((1, 4), entry_b) ∷ [];
  offsets = (0, pos 10) ∷ (1, pos 20) ∷ [];
  next_object = 2;
  next_offset = 2;
}

open_a : lookup (1, 3) storage.opened ≡ some entry_a
unfolding lookup fd_key pair_beq
open_a = refl

cell_a : lookup 0 storage.offsets ≡ some (pos 10)
unfolding lookup
cell_a = refl

abbrev a-HasOffset : HasOffset (1, 3) 0 (pos 10) storage
a-HasOffset = record { entry = entry_a; is_open = open_a; at_cell = refl; holds = cell_a }

object_a : lookup 0 storage.objects ≡ some empty_file
unfolding lookup
object_a = refl

abbrev duplicated : StorageManager
duplicated =
    dup_result 1 3 7 0 0 (pos 10) empty_file storage a-HasOffset refl object_a
      (λ e. absurd (omega arith))

dup_shares_example :
    ((do dup 1 3 7; set_file_offset (1, 7) (pos 30); get_file_offset (1, 3)) storage
      ≡ some (pos 30, with_offset 0 (pos 30) duplicated))
    × ((do dup 1 3 7; set_file_offset (1, 3) (pos 30); get_file_offset (1, 7)) storage
        ≡ some (pos 30, with_offset 0 (pos 30) duplicated))
dup_shares_example =
    dup_shares 1 3 7 0 0 (pos 10) empty_file storage a-HasOffset refl object_a
      (λ e. absurd (omega arith)) (pos 30)

path_b : lookup "/b" storage.storage ≡ some 1
unfolding lookup
path_b = refl

abbrev opened_b : StorageManager
opened_b = fresh_fd (1, 5) "/b" (pos 0) 1 storage path_b

path_a : try_get "/a" storage ≡ some 0
unfolding lookup try_get
path_a = refl

other_b : try_get "/b" storage ≡ some 1
unfolding lookup try_get
other_b = refl

none_c : try_get "/c" storage ≡ none
unfolding lookup try_get
none_c = refl

abbrev slash_a : String
slash_a = "/a"

abbrev slash_b : String
slash_b = "/b"

abbrev slash_c : String
slash_c = "/c"

a_b : slash_a ≢ slash_b
a_b e = cc ((string_key.decides slash_a slash_b).1 e)

a_c : slash_a ≢ slash_c
a_c e = cc ((string_key.decides slash_a slash_c).1 e)

rename_lem_example :
    (m' : StorageManager) × (rename "/a" "/c" storage ≡ some (tt, m'))
    × ((p : String)
        → try_get p m'
          ≡ (if slash_c == p then some 0 else if slash_a == p then none else try_get p storage))
    × ((fd : Fd) → lookup fd m'.opened ≡ Option.map (retarget "/a" "/c") (lookup fd storage.opened))
    × (m'.objects ≡ storage.objects)
    × (m'.offsets ≡ storage.offsets)
rename_lem_example = rename_lem "/a" "/c" 0 storage path_a a_c none_c

rename_onto_file_example :
    (m' : StorageManager) × (rename "/a" "/b" storage ≡ some (tt, m'))
    × (try_get "/b" m' ≡ some 1)
    × (try_get "/a" m' ≡ none)
    × (lookup 0 m'.objects ≡ none)
    × (lookup (1, 3) m'.opened ≡ some (record entry_a { path = "/b" }))
rename_onto_file_example =
    rename_onto_file "/a" "/b" 0 storage path_a a_b 1 (1, 3) entry_a other_b a-HasOffset.is_open
      refl refl

-- Threads 1 and 2 of one application; thread 1 has produced `/a`.
abbrev clients : ClientManager
clients = record {
  data_buffers = [];
  app_names = (1, "writer") ∷ (2, "writer") ∷ [];
  files_created_by_producer = (1, "/a" ∷ []) ∷ (2, []) ∷ [];
  files_created_by_app_name = ("writer", "/a" ∷ []) ∷ [];
  responses = [];
  thread_allowed_to_continue = [];
}

same_app : get_app_name 2 clients ≡ get_app_name 1 clients
unfolding get_app_name lookup
same_app = refl

produced : lookup 1 clients.files_created_by_producer ≡ some ("/a" ∷ [])
unfolding lookup
produced = refl

produced_app : lookup (get_app_name 1 clients) clients.files_created_by_app_name ≡ some ("/a" ∷ [])
unfolding lookup get_app_name
produced_app = refl

remove_client_forgets_example :
    is_producer 2 "/a" (remove_client 1 clients) ≡ lists 2 "/a" clients.files_created_by_producer
remove_client_forgets_example =
    remove_client_forgets 1 2 "/a" clients (λ e. absurd (omega arith)) same_app
