-- ===== src/Client/Reading.antt =====
-- The client's read cache, ReadCache of capio/posix/utils/cache.hpp. An answer of the server that is
-- before the offset at which it was asked is no result.
pub mod Slices
pub mod Sequential
pub mod Delivered
pub mod Overdrawn
use capio.Base.{
  ℕ, zero, suc, ◌+◌, ◌-◌, ◌*◌, ◌/◌, ◌%◌, ◌≡◌, Option, none, some, List, [], ◌∷◌, ◌++◌, nat_beq, ltb,
  leb, if◌then◌else◌, Bool, true, false, not, ◌&&◌, ◌||◌, ◌==◌, string_key, nat_key, length, take,
  drop,
}
use capio.Base.Int.{ℤ, pos, negsuc, ◌+ℤ◌}
use capio.Base.State.{St, ◌>>=◌, ◌>>◌, pure, exit, gets, modify, from_option, when}
use Prim.Native.String.{String}
use capio.Caches.Received.{take_bytes}
use capio.Descriptors.{
  Descriptors, exists_capio_fd, get_capio_fd_path, get_capio_fd_offset, set_capio_fd_offset,
}
use capio.Requests.{Request, seek, read, getdents}
use capio.Client.Asking.{seek_request, getdents_request, read_request}
use capio.Client.{Client, ReadCache, on_tables, send, ask}

abbrev pub set_read_cache : (ReadCache → ReadCache) → St Client (Unit {0})
set_read_cache change = modify (λ c. record c { read_cache = change c.read_cache })

-- flush: what is left of the line is given back by a seek, whose answer is waited for.
unfoldable pub flush_at : ℕ → Option ℕ → St Client (Unit {0})
flush_at tid none = exit
flush_at tid (some fd) = do
  set_read_cache (λ r. record r { actual_size = 0; cache_offset = 0 })
  offset ← on_tables (get_capio_fd_offset fd)
  n ← from_option (elim offset [ pos n ↦ some n | negsuc n ↦ none ])
  res ← seek_request tid fd n
  pure tt

unfoldable pub flush_reads : ℕ → St Client (Unit {0})
flush_reads tid c =
    when (not (nat_beq c.read_cache.cache_offset c.read_cache.actual_size))
      (flush_at tid c.read_cache.last_fd) c

abbrev pub same_path : Option String → Option String → Bool
same_path (some p) (some q) = p == q
same_path _ _ = false

abbrev pub is_fd : ℕ → Option ℕ → Bool
is_fd fd none = false
is_fd fd (some g) = nat_beq fd g

-- cachesFileOf
unfoldable pub caches_file_of : ℕ → Client → Bool
caches_file_of fd c = elim c.read_cache.last_fd [
  | none ↦ false
  | some last ↦
      nat_beq fd last
      || (exists_capio_fd last c.tables
          && same_path (get_capio_fd_path fd c.tables) (get_capio_fd_path last c.tables))
]

-- _read: the next bytes of the line.
unfoldable pub read_line : ℕ → St Client (List ℕ)
read_line count c = some (
  take count (drop c.read_cache.cache_offset c.read_cache.cached),
  record c {
    read_cache = record (c.read_cache) { cache_offset = c.read_cache.cache_offset + count };
  },
)

-- How far an answer is behind an offset.
unfoldable pub ahead : ℤ → ℤ → St Client ℕ
ahead (pos e) (pos o) = if leb o e then pure (e - o) else exit
ahead _ _ = exit

-- `_queue.read(buffer, bytes)`
unfoldable pub read_queue : ℕ → St Client (List ℕ)
read_queue count c = elim (take_bytes c.read_cache.max_line_size count c.read_cache.lines) [
  | none ↦ none
  | some (bytes, lines) ↦
      some (bytes, record c { read_cache = record (c.read_cache) { lines = lines } })
]

-- `_cache = _queue.fetch()`
unfoldable pub fetch_line : St Client (Unit {0})
fetch_line c = elim c.read_cache.lines [
  | [] ↦ none
  | line ∷ lines ↦
      some (tt, record c { read_cache = record (c.read_cache) { cached = line; lines = lines } })
]

-- A request that is larger than a line, or of entries of a directory.
unfoldable pub read_exactly : ℕ → ℕ → ℕ → ℤ → Bool → Bool → List ℕ → St Client (ℕ × List ℕ)
read_exactly tid fd read_size file_offset is_getdents is64bit before = do
  end_of_read ←
      (if is_getdents
        then getdents_request tid fd read_size is64bit
        else read_request tid fd read_size)
  bytes_read ← ahead end_of_read file_offset
  bytes ← read_queue bytes_read
  pure (bytes_read, before ++ bytes)

-- A request for a whole line, of which the bytes that are asked for are read.
unfoldable pub read_ahead : ℕ → ℕ → ℕ → ℕ → ℕ → ℤ → List ℕ → St Client (ℕ × List ℕ)
read_ahead tid fd count read_size remaining file_offset before = do
  line_size ← gets (λ c. c.read_cache.max_line_size)
  end_of_read ← read_request tid fd line_size
  size ← ahead end_of_read (file_offset +ℤ pos remaining)
  set_read_cache (λ r. record r { actual_size = size; cache_offset = 0 })
  when (not (nat_beq size 0)) fetch_line
  if ltb read_size size
      then (do bytes ← read_line read_size; pure (count, before ++ bytes))
      else (do bytes ← read_line size; pure (remaining + size, before ++ bytes))

unfoldable pub change_last_fd : ℕ → ℕ → St Client (Unit {0})
change_last_fd tid fd c =
    when (not (is_fd fd c.read_cache.last_fd))
      (do flush_reads tid; set_read_cache (λ r. record r { last_fd = some fd })) c

-- The bytes of the line that are left.
abbrev pub remaining_bytes : Client → ℕ
remaining_bytes c = c.read_cache.actual_size - c.read_cache.cache_offset

-- A read beyond what is left of the line.
unfoldable pub read_more : ℕ → ℕ → ℕ → ℕ → ℕ → ℤ → Bool → Bool → St Client (ℕ × List ℕ)
read_more tid fd count remaining line_size file_offset is_getdents is64bit = do
  before ← read_line remaining
  if ltb line_size (count - remaining) || is_getdents
      then read_exactly tid fd (count - remaining) file_offset is_getdents is64bit before
      else read_ahead tid fd count (count - remaining) remaining file_offset before

-- The bytes that go into the buffer, and their number as the caller is told it.
unfoldable pub read_cached : ℕ → ℕ → ℕ → Bool → Bool → St Client (ℕ × List ℕ)
read_cached tid fd count is_getdents is64bit = do
  change_last_fd tid fd
  remaining ← gets remaining_bytes
  line_size ← gets (λ c. c.read_cache.max_line_size)
  file_offset ← on_tables (get_capio_fd_offset fd)
  res ←
      (if leb count remaining
        then (do bytes ← read_line count; pure (count, bytes))
        else read_more tid fd count remaining line_size file_offset is_getdents is64bit)
  on_tables (set_capio_fd_offset fd (file_offset +ℤ pos res.0))
  pure res

-- ReadCache::read; a read of a directory asks for whole entries.
unfoldable pub read_through : ℕ → ℕ → ℕ → ℕ → Bool → Bool → St Client (ℕ × List ℕ)
read_through dirent_size tid fd count is_getdents is64bit =
    read_cached tid fd (if is_getdents then count / dirent_size * dirent_size else count)
      is_getdents is64bit
