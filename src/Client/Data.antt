-- ===== src/Client/Data.antt =====
-- Reads and writes of a descriptor: capio/posix/utils/data.hpp, and capio_read, capio_readv, capio_write,
-- capio_writev and getdents_handler_impl of capio/posix/handlers/. A buffer is the list of its bytes. The
-- blocks of a vector are read and written one by one, the empty ones left out.
use capio.Base.{
  ℕ, zero, suc, ◌+◌, none, some, List, [], ◌∷◌, ltb, leb, if◌then◌else◌, Bool, true, false, length,
  nat_key,
}
use capio.Base.Int.{ℤ, pos, negsuc, ◌+ℤ◌}
use capio.Base.State.{St, ◌>>=◌, ◌>>◌, pure, exit, gets, modify, from_option, when}
use capio.Caches
use capio.Descriptors.{exists_capio_fd, get_capio_fd_offset, set_capio_fd_offset}
use capio.Client.Asking.{seek_request}
use capio.Client.{
  Client, Outcome, handled, delegated, on_tables, on_write_cache, flush_writes, skip, ssize_max,
}
use capio.Client.Reading.{flush_reads, caches_file_of, read_through}

unfoldable pub capio_cached_read : ℕ → ℕ → ℕ → ℕ → St Client (ℕ × List ℕ)
capio_cached_read dirent_size tid fd count = do
  flush_writes tid
  read_through dirent_size tid fd count false false

-- WriteCache::write: the block goes into the cache, and the offset of the descriptor goes on.
unfoldable pub write_through : ℕ → ℕ → List ℕ → St Client (Unit {0})
write_through tid fd bytes = do
  modify (on_write_cache tid (Caches.write fd bytes))
  offset ← on_tables (get_capio_fd_offset fd)
  on_tables (set_capio_fd_offset fd (offset +ℤ pos (length bytes)))

unfoldable pub capio_cached_write : ℕ → ℕ → List ℕ → St Client (Unit {0})
capio_cached_write tid fd bytes = do
  is_cached ← gets (caches_file_of fd)
  when is_cached (flush_reads tid)
  write_through tid fd bytes

unfoldable pub capio_set_fd_offset : ℕ → ℕ → ℕ → St Client (Unit {0})
capio_set_fd_offset tid fd offset = do
  flush_reads tid
  flush_writes tid
  on_tables (set_capio_fd_offset fd (pos offset))
  res ← seek_request tid fd offset
  pure tt

-- The result, with the bytes that are read.
unfoldable pub capio_read : ℕ → ℕ → ℕ → ℕ → St Client (ℤ × List ℕ)
capio_read dirent_size tid fd count c =
    if exists_capio_fd fd c.tables
    then if leb ssize_max count
      then exit c
      else (do (n, bytes) ← capio_cached_read dirent_size tid fd count; pure (pos n, bytes)) c
    else pure (skip, []) c

unfoldable pub read_blocks : ℕ → ℕ → ℕ → List ℕ → St Client (ℕ × List (List ℕ))
read_blocks dirent_size tid fd [] = pure (0, [])
read_blocks dirent_size tid fd (zero ∷ lens) = do
  (tot_bytes, blocks) ← read_blocks dirent_size tid fd lens
  pure (tot_bytes, [] ∷ blocks)
read_blocks dirent_size tid fd (suc iov_len ∷ lens) = do
  (res, bytes) ← capio_read dirent_size tid fd (suc iov_len)
  n ← from_option (elim res [ pos n ↦ some n | negsuc _ ↦ none ])
  (tot_bytes, blocks) ← read_blocks dirent_size tid fd lens
  pure (n + tot_bytes, bytes ∷ blocks)

unfoldable pub capio_readv : ℕ → ℕ → ℕ → List ℕ → St Client (ℤ × List (List ℕ))
capio_readv dirent_size tid fd lens c =
    if exists_capio_fd fd c.tables
    then (do (n, blocks) ← read_blocks dirent_size tid fd lens; pure (pos n, blocks)) c
    else pure (skip, []) c

unfoldable pub capio_write : ℕ → ℕ → List ℕ → St Client ℤ
capio_write tid fd bytes c =
    if exists_capio_fd fd c.tables
    then if ltb ssize_max (length bytes)
      then exit c
      else (do capio_cached_write tid fd bytes; pure (pos (length bytes))) c
    else pure skip c

unfoldable pub write_blocks : ℕ → ℕ → List (List ℕ) → St Client ℕ
write_blocks tid fd [] = pure 0
write_blocks tid fd ([] ∷ blocks) = write_blocks tid fd blocks
write_blocks tid fd ((b ∷ bytes) ∷ blocks) = do
  res ← capio_write tid fd (b ∷ bytes)
  n ← from_option (elim res [ pos n ↦ some n | negsuc _ ↦ none ])
  tot_bytes ← write_blocks tid fd blocks
  pure (n + tot_bytes)

unfoldable pub capio_writev : ℕ → ℕ → List (List ℕ) → St Client ℤ
capio_writev tid fd blocks c =
    if exists_capio_fd fd c.tables
    then (do n ← write_blocks tid fd blocks; pure (pos n)) c
    else pure skip c

-- With the entries that are read.
unfoldable pub getdents_handler_impl : ℕ → ℕ → ℕ → ℕ → Bool → St Client (Outcome × List ℕ)
getdents_handler_impl dirent_size tid fd count is64bit c =
    if exists_capio_fd fd c.tables
    then if leb ssize_max count
      then exit c
      else (do
        flush_writes tid
        (n, bytes) ← read_through dirent_size tid fd count true is64bit
        pure (handled (pos n), bytes))
          c
    else pure (delegated, []) c
