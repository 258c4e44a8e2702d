-- ===== src/Client.antt =====
-- The client, which intercepts the system calls of a thread: its state (the globals of
-- capio/posix/utils/filesystem.hpp and cache.hpp and the queues of requests.hpp), the requests that it
-- sends and the answers that it waits for, and what the kernel and the library of paths tell it.
pub mod Asking
pub mod Reading
pub mod Paths
pub mod Data
pub mod Seek
pub mod Fds
pub mod Locks
pub mod Opening
pub mod Removing
pub mod Names
pub mod Stats
pub mod Statx
pub mod Copying
pub mod Handlers
use capio.Base.{
  ℕ, zero, suc, ◌+◌, ◌-◌, ◌≡◌, Option, none, some, List, [], ◌∷◌, ◌++◌, map, nat_beq, ltb, leb,
  if◌then◌else◌, Bool, true, false, not, nat_key, length,
}
use Prim.Native.Nat.{bit_and, bit_or}
use Prim.Native.String.{String}
use capio.Base.Int.{ℤ, pos, negsuc, ltb_ℤ, eqb_ℤ, ◌+ℤ◌}
use capio.Base.Map.{Map}
use capio.Base.State.{St, ◌>>=◌, ◌>>◌, pure, exit, gets, modify, from_option, when}
use capio.Caches
use capio.Caches.{WriteCache}
use capio.Descriptors.{Descriptors, get_capio_fd_offset, set_capio_fd_offset}
use capio.Requests.{Request, write}
use capio.Paths.{FilePath}

-- ReadCache. `lines` are the elements of the queue of the data that the server has sent, `cached` the
-- element that `_cache` points to, and -1 as the descriptor is `none`.
pub record ReadCache : Type 0 where
  pub cached : List ℕ
  pub last_fd : Option ℕ
  pub max_line_size : ℕ
  pub actual_size : ℕ
  pub cache_offset : ℕ
  pub lines : List (List ℕ)

-- `hints` are capio_rw_hints, `answers` are the answers of the server that the client has not yet read,
-- `kernel_answers` those of the kernel to the reads and writes of a copy, with the bytes that are read,
-- and `sent` the requests that it has sent.
pub record Client : Type 0 where
  pub tables : Descriptors
  pub current_dir : FilePath
  pub write_cache : WriteCache
  pub read_cache : ReadCache
  pub hints : Map String ℕ
  pub sent : List Request
  pub answers : List ℤ
  pub kernel_answers : List (ℤ × List ℕ)
  pub errno : ℕ

-- What the kernel answers: to the opening of /dev/null, to dup2, dup3 and F_DUPFD, with the errors as
-- negative numbers; realpath; readlink of a descriptor in /proc/self/fd; whether fstat of a descriptor
-- says that it is a directory, `none` where fstat fails; F_GETFD of a descriptor that is not CAPIO's,
-- and the requests of fcntl that are passed on. `hash` is std::hash of a path.
pub record Kernel : Type 0 where
  pub dev_null : ℤ
  pub dup_to : ℕ → ℤ → ℤ
  pub dupfd : ℕ → ℤ → Bool → ℤ
  pub errno : ℕ
  pub real_path : FilePath → Option FilePath
  pub link_of_fd : ℤ → Option FilePath
  pub fstat_is_dir : ℤ → Option Bool
  pub is_open : ℤ → Bool
  pub fcntl : ℕ → ℕ → ℤ → ℤ
  pub capio_dir : FilePath
  pub hash : String → ℕ

-- An operation on the tables.
unfoldable pub on_tables : {A : Type 0} → St Descriptors A → St Client A
on_tables op c = elim (op c.tables) [
  | none ↦ none
  | some (a, tables) ↦ some (a, record c { tables = tables })
]

unfoldable pub send : Request → Client → Client
send r c = record c { sent = c.sent ++ (r ∷ []) }

-- The next answer; a client that gets none is not heard of again.
unfoldable pub next_answer : St Client ℤ
next_answer c = elim c.answers [ [] ↦ none | a ∷ rest ↦ some (a, record c { answers = rest }) ]

-- A request and its answer.
unfoldable pub ask : Request → St Client ℤ
ask r = do modify (send r); next_answer

unfoldable pub fail : ℕ → St Client ℤ
fail e c = some (negsuc 0, record c { errno = e })

-- CAPIO_POSIX_SYSCALL_REQUEST_SKIP
abbrev pub skip : ℤ
skip = negsuc 1

abbrev pub minus : ℕ → ℤ
minus zero = pos 0
minus (suc n) = negsuc n

-- -errno, as a handler returns it without a change of errno.
abbrev pub error_result : ℕ → St Client ℤ
error_result e c = some (minus e, c)

-- What a handler tells the interceptor: the result of the call, or that the kernel is to handle it.
pub data Outcome : Type 0 where
  handled : ℤ → Outcome
  delegated : Outcome

unfoldable pub posix_return_value : ℤ → St Client Outcome
posix_return_value res c =
    if eqb_ℤ res skip
    then some (delegated, c)
    else if ltb_ℤ res (pos 0)
    then some (handled (minus c.errno), c)
    else some (handled res, c)

-- A number that a request can carry.
unfoldable pub natural : ℤ → St Client ℕ
natural (pos n) = pure n
natural (negsuc n) = exit

-- The requests that the write cache has made, in the order of all requests.
abbrev pub as_requests : ℕ → List Caches.Request → List Request
as_requests tid [] = []
as_requests tid (r ∷ rs) = elim (r.fd) [
  | none ↦ as_requests tid rs
  | some fd ↦ write tid fd r.count ∷ as_requests tid rs
]

unfoldable pub on_write_cache : ℕ → (WriteCache → WriteCache) → Client → Client
on_write_cache tid op c = record c {
  write_cache = record (op c.write_cache) { requests = [] };
  sent = c.sent ++ as_requests tid (op c.write_cache).requests;
}

-- write_cache->flush()
unfoldable pub flush_writes : ℕ → St Client (Unit {0})
flush_writes tid = modify (on_write_cache tid Caches.flush)

-- Flags and errors of Linux
abbrev pub has : ℕ → ℕ → Bool
has flags flag = nat_beq (bit_and flags flag) flag

abbrev pub o_creat : ℕ
o_creat = 0x40

abbrev pub o_excl : ℕ
o_excl = 0x80

abbrev pub o_append : ℕ
o_append = 0x400

abbrev pub o_directory : ℕ
o_directory = 0x10000

abbrev pub o_cloexec : ℕ
o_cloexec = 0x80000

abbrev pub o_largefile : ℕ
o_largefile = 0x8000

abbrev pub at_removedir : ℕ
at_removedir = 0x200

abbrev pub at_empty_path : ℕ
at_empty_path = 0x1000

abbrev pub enoent : ℕ
enoent = 2

abbrev pub ebadf : ℕ
ebadf = 9

abbrev pub eagain : ℕ
eagain = 11

abbrev pub efault : ℕ
efault = 14

abbrev pub eexist : ℕ
eexist = 17

abbrev pub enotdir : ℕ
enotdir = 20

abbrev pub einval : ℕ
einval = 22

abbrev pub enotty : ℕ
enotty = 25

abbrev pub erange : ℕ
erange = 34

abbrev pub enonet : ℕ
enonet = 64

-- SSIZE_MAX
abbrev pub ssize_max : ℕ
ssize_max = 0x7fffffffffffffff
