-- ===== src/Caches.antt =====
-- The client's caches between its calls and the data queues, capio/posix/utils/cache.hpp. The queue
-- of the data is the list of the elements that were put into it (Queue.Fifo says that it is one), and
-- an element that was reserved is named by its place in the list, since it is filled in place. The
-- queue of the requests is their list. The answers of the server and the elements that it sends are
-- arguments of the reads.
pub mod Line
pub mod Written
pub mod Received
use capio.Base.{
  ℕ, zero, suc, ◌+◌, ◌-◌, ◌*◌, ◌/◌, ◌%◌, ◌≤◌, ◌≡◌, Option, none, some, List, [], ◌∷◌, ◌++◌, nat_beq,
  leb, ltb, if◌then◌else◌, Bool, true, false, ◌||◌, length, take, drop,
}
use capio.Base.State.{St, ◌>>=◌, ◌>>◌, pure, exit, gets, modify, from_option, when}

-- A request, as the server gets it: write_request(fd, count), with the descriptor -1 as `none`.
pub record Request : Type 0 where
  pub fd : Option ℕ
  pub count : ℕ

-- `cache` is the place of the reserved element, and `none` the null pointer.
pub record WriteCache : Type 0 where
  pub cache : Option ℕ
  pub fd : Option ℕ
  pub max_line_size : ℕ
  pub actual_size : ℕ
  pub elements : List (List ℕ)
  pub requests : List Request

unfoldable pub new_write_cache : ℕ → WriteCache
new_write_cache line_size = record {
  cache = none;
  fd = none;
  max_line_size = line_size;
  actual_size = 0;
  elements = [];
  requests = [];
}

-- memcpy into an element, behind its first `size` bytes.
unfoldable pub fill : ℕ → ℕ → List ℕ → List (List ℕ) → List (List ℕ)
fill i size bytes [] = []
fill zero size bytes (e ∷ es) = (take size e ++ bytes) ∷ es
fill (suc i) size bytes (e ∷ es) = e ∷ fill i size bytes es

-- How the queue cuts bytes into elements: whole ones, and the rest.
unfoldable pub whole_elements : ℕ → ℕ → List ℕ → List (List ℕ)
whole_elements size zero bytes = []
whole_elements size (suc n) bytes = take size bytes ∷ whole_elements size n (drop size bytes)

unfoldable pub split : ℕ → List ℕ → List (List ℕ)
split size bytes =
    let n = length bytes / size in
    whole_elements size n bytes
    ++ (if nat_beq (length bytes % size) 0 then [] else drop (n * size) bytes ∷ [])

unfoldable pub flush : WriteCache → WriteCache
flush c = if nat_beq c.actual_size 0 then c else record c {
  requests = c.requests ++ (record { fd = c.fd; count = c.actual_size } ∷ []);
  cache = none;
  actual_size = 0;
}

-- `_queue.reserve()` where there is no line yet.
unfoldable pub reserve_line : WriteCache → WriteCache
reserve_line c = elim c.cache [
  | some i ↦ c
  | none ↦ record c { cache = some (length c.elements); elements = c.elements ++ ([] ∷ []) }
]

-- The bytes go behind those of the line.
unfoldable pub append_line : List ℕ → WriteCache → WriteCache
append_line bytes c = elim c.cache [
  | none ↦ c
  | some i ↦ record c {
    elements = fill i c.actual_size bytes c.elements;
    actual_size = c.actual_size + length bytes;
  }
]

unfoldable pub flush_full : WriteCache → WriteCache
flush_full c = if nat_beq c.actual_size c.max_line_size then flush c else c

-- _write
unfoldable pub write_line : List ℕ → WriteCache → WriteCache
write_line bytes c =
    if nat_beq (length bytes) 0 then c else flush_full (append_line bytes (reserve_line c))

-- A change of the descriptor.
unfoldable pub change_fd : ℕ → WriteCache → WriteCache
change_fd fd c = elim c.fd [
  | none ↦ record (flush c) { fd = some fd }
  | some g ↦ if nat_beq g fd then c else record (flush c) { fd = some fd }
]

-- A block that is larger than a line goes into the queue past the cache.
unfoldable pub write_past : List ℕ → WriteCache → WriteCache
write_past bytes c = record c {
  requests = c.requests ++ (record { fd = c.fd; count = length bytes } ∷ []);
  elements = c.elements ++ split c.max_line_size bytes;
}

unfoldable pub write_flushed : List ℕ → WriteCache → WriteCache
write_flushed bytes c =
    if ltb c.max_line_size (length bytes - c.actual_size)
    then write_past bytes c
    else write_line bytes c

-- write, but for the offset of the descriptor, which goes on by the count.
unfoldable pub write_on : List ℕ → WriteCache → WriteCache
write_on bytes c =
    if leb (length bytes) (c.max_line_size - c.actual_size)
    then write_line bytes c
    else write_flushed bytes (flush c)

unfoldable pub write : ℕ → List ℕ → WriteCache → WriteCache
write fd bytes c = write_on bytes (change_fd fd c)
