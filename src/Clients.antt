-- ===== src/Clients.antt =====
-- ClientManager, capio/server/src/client_manager.cpp: the threads of the clients, the names of their
-- applications, the files that they produced, and the channels to them. A channel is the bytes (or
-- the numbers) that went into it and were not taken out; its blocking is that of Queue. The thread
-- that registerClient starts to wait for the parent of a clone is `resume_cloned`.
pub mod Produced
use capio.Base.{
  ℕ, ◌+◌, ◌≤◌, ◌≡◌, Option, none, some, List, [], ◌∷◌, ◌++◌, Key, ◌==◌, nat_beq, if◌then◌else◌,
  Bool, true, false, ◌||◌, string_key, nat_key, take, drop, length, leb,
}
use Prim.Native.String.{String}
use capio.Base.Int.{ℤ, pos, ◌+ℤ◌}
use capio.Base.Map.{Map, lookup, insert, erase}
use capio.Base.Mem.{Mem, load}
use capio.Base.State.{St, ◌>>=◌, ◌>>◌, pure, exit, gets, modify, from_option, when}

-- ClientDataBuffers: the bytes under way in each direction.
pub record DataBuffers : Type 0 where
  pub client_to_server : List ℕ
  pub server_to_client : List ℕ

pub record ClientManager : Type 0 where
  pub data_buffers : Map ℕ DataBuffers
  pub app_names : Map ℕ String
  pub files_created_by_producer : Map ℕ (List String)
  pub files_created_by_app_name : Map String (List String)
  pub responses : Map ℕ (List ℤ)
  pub thread_allowed_to_continue : List ℕ

-- CAPIO_DEFAULT_APP_NAME
abbrev pub default_app_name : String
default_app_name = "default_app"

-- `emplace` and `try_emplace` leave an entry that is there as it is.
unfoldable pub emplace {ℓ κ} : {K : Type ℓ} {V : Type κ} ⦃e : Key K⦄ → K → V → Map K V → Map K V
emplace k v m = elim (lookup k m) [ none ↦ insert k v m | some w ↦ m ]

abbrev pub contains : String → List String → Bool
contains p [] = false
contains p (x ∷ xs) = x == p || contains p xs

-- `std::unordered_set::insert` and `erase`
unfoldable pub set_insert : String → List String → List String
set_insert p xs = if contains p xs then xs else p ∷ xs

unfoldable pub set_erase : String → List String → List String
set_erase p [] = []
set_erase p (x ∷ xs) = let rest = set_erase p xs in if x == p then rest else x ∷ rest

unfoldable pub register_client : ℕ → String → ClientManager → ClientManager
register_client tid app_name c = record c {
  data_buffers =
      emplace tid (record { client_to_server = []; server_to_client = [] }) c.data_buffers;
  app_names = emplace tid app_name c.app_names;
  files_created_by_producer = emplace tid [] c.files_created_by_producer;
  files_created_by_app_name = emplace app_name [] c.files_created_by_app_name;
  responses = emplace tid [] c.responses;
}

unfoldable pub unlock_cloned_child : ℕ → ClientManager → ClientManager
unlock_cloned_child tid c = record c {
  thread_allowed_to_continue = c.thread_allowed_to_continue ++ (tid ∷ []);
}

unfoldable pub get_app_name : ℕ → ClientManager → String
get_app_name tid c = elim (lookup tid c.app_names) [ some name ↦ name | none ↦ default_app_name ]

unfoldable pub remove_client : ℕ → ClientManager → ClientManager
remove_client tid c = record c {
  data_buffers = erase tid c.data_buffers;
  files_created_by_producer = erase tid c.files_created_by_producer;
  files_created_by_app_name = erase (get_app_name tid c) c.files_created_by_app_name;
  responses = erase tid c.responses;
}

-- replyToClient(tid, offset): `at` throws where the thread has no channel.
unfoldable pub reply_to_client : ℕ → ℤ → St ClientManager (Unit {0})
reply_to_client tid offset c = elim (lookup tid c.responses) [
  | none ↦ none
  | some sent ↦ some (tt, record c { responses = insert tid (sent ++ (offset ∷ [])) c.responses })
]

-- replyToClient(tid, offset, buf, count): the end of the read, and its bytes.
unfoldable pub reply_with_data : ℕ → ℕ → Mem → ℕ → St ClientManager (Unit {0})
reply_with_data tid offset buf count c = elim (lookup tid c.data_buffers) [
  | none ↦ none
  | some out ↦
      (do
        reply_to_client tid (pos (offset + count))
        modify (λ c. record c {
          data_buffers =
              insert tid
                (record out { server_to_client = out.server_to_client ++ load buf offset count })
                c.data_buffers;
        }))
        c
]

-- What the server takes out of the client's data: the bytes of a write; fewer are a block.
unfoldable pub receive_data : ℕ → ℕ → St ClientManager (List ℕ)
receive_data tid count c = elim (lookup tid c.data_buffers) [
  | none ↦ none
  | some in_buf ↦
      if leb count (length in_buf.client_to_server)
      then some (
        take count in_buf.client_to_server,
        record c {
          data_buffers =
              insert tid (record in_buf { client_to_server = drop count in_buf.client_to_server })
                c.data_buffers;
        },
      )
      else none
]

abbrev add_to {ℓ} :
    {K : Type ℓ} ⦃e : Key K⦄ → K → String → Map K (List String) → Map K (List String)
add_to k path m = elim (lookup k m) [ none ↦ m | some files ↦ insert k (set_insert path files) m ]

abbrev drop_from {ℓ} :
    {K : Type ℓ} ⦃e : Key K⦄ → K → String → Map K (List String) → Map K (List String)
drop_from k path m = elim (lookup k m) [ none ↦ m | some files ↦ insert k (set_erase path files) m ]

-- registerProducedFile: nothing for a thread that is not registered.
unfoldable pub register_produced_file : ℕ → String → ClientManager → ClientManager
register_produced_file tid path c = elim (lookup tid c.files_created_by_producer) [
  | none ↦ c
  | some files ↦ record c {
    files_created_by_producer = insert tid (set_insert path files) c.files_created_by_producer;
    files_created_by_app_name = add_to (get_app_name tid c) path c.files_created_by_app_name;
  }
]

unfoldable pub remove_produced_file : ℕ → String → ClientManager → ClientManager
remove_produced_file tid path c = record c {
  files_created_by_producer = drop_from tid path c.files_created_by_producer;
  files_created_by_app_name = drop_from (get_app_name tid c) path c.files_created_by_app_name;
}

abbrev pub lists {ℓ} : {K : Type ℓ} ⦃e : Key K⦄ → K → String → Map K (List String) → Bool
lists k path m = elim (lookup k m) [ none ↦ false | some files ↦ contains path files ]

unfoldable pub is_producer : ℕ → String → ClientManager → Bool
is_producer tid path c =
    lists tid path c.files_created_by_producer
    || lists (get_app_name tid c) path c.files_created_by_app_name

-- getProducedFiles makes an entry where there is none.
unfoldable pub get_produced_files : ℕ → ClientManager → List String × ClientManager
get_produced_files tid c = elim (lookup tid c.files_created_by_producer) [
  | none ↦ ([], record c { files_created_by_producer = insert tid [] c.files_created_by_producer })
  | some files ↦ (files, c)
]

abbrev pub member : ℕ → List ℕ → Bool
member t [] = false
member t (x ∷ xs) = nat_beq x t || member t xs

drop_first : ℕ → List ℕ → List ℕ
drop_first t [] = []
drop_first t (x ∷ xs) = if nat_beq x t then xs else x ∷ drop_first t xs

-- The waiting thread of a cloned child: it goes on once the child is unlocked.
unfoldable pub resume_cloned : ℕ → St ClientManager (Unit {0})
unfolding drop_first
resume_cloned tid c =
    if member tid c.thread_allowed_to_continue
    then (do
      reply_to_client tid (pos 1)
      modify (λ c. record c {
        thread_allowed_to_continue = drop_first tid c.thread_allowed_to_continue;
      }))
        c
    else none
