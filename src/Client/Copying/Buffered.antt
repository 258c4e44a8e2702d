-- ===== src/Client/Copying/Buffered.antt =====
-- The copy through a buffer of one line of the cache, capio_copy_file_range_through_buffer of
-- capio/posix/handlers/copy_file_range.hpp.
use capio.Base.{
  ℕ, zero, suc, ◌+◌, ◌-◌, List, [], ◌∷◌, if◌then◌else◌, Bool, ltb, min, take, string_key,
}
use capio.Base.Int.{ℤ, pos, negsuc}
use capio.Base.State.{St, ◌>>=◌, pure, exit}
use capio.Client.{Client}
use capio.Client.Copying.{
  CopyEnd, capio_copy_file_range_read, capio_copy_file_range_write_all,
  capio_copy_file_range_unread,
}

-- A copy through the buffer, with its error.
abbrev pub Buffered : Type 0
Buffered = ℤ × ℕ × CopyEnd × CopyEnd

abbrev pub BufferRound : Type 0
BufferRound = CopyEnd → CopyEnd → ℕ → St Client Buffered

-- What is read is written, and what could not be written is given back.
unfoldable pub buffer_written :
    ℕ → BufferRound → ℕ → List ℕ → CopyEnd → CopyEnd → ℕ → St Client Buffered
buffer_written tid next bytes_read bytes input output copied = do
  (error, bytes_written, output') ←
      capio_copy_file_range_write_all tid output (take bytes_read bytes) (pos 0)
  if ltb bytes_written bytes_read
      then (do
        input' ← capio_copy_file_range_unread input (bytes_read - bytes_written)
        pure (error, copied + bytes_written, input', output'))
      else next input output' (copied + bytes_written)

unfoldable pub buffer_round : ℕ → ℕ → ℕ → ℕ → BufferRound → BufferRound
buffer_round dirent_size tid chunk_size count next input output copied =
    if ltb copied count
    then (do
      (res, bytes, input') ←
          capio_copy_file_range_read dirent_size tid input (min (count - copied) chunk_size)
      elim res [
        | pos zero ↦ pure (pos 0, copied, input', output)
        | pos (suc n) ↦ buffer_written tid next (suc n) bytes input' output copied
        | negsuc n ↦ pure (negsuc n, copied, input', output)
      ])
    else pure (pos 0, copied, input, output)

-- One end is the kernel's, so that each round but the last takes an answer of it.
unfoldable pub buffer_rounds : List (ℤ × List ℕ) → ℕ → ℕ → ℕ → ℕ → BufferRound
buffer_rounds [] dirent_size tid chunk_size count =
    buffer_round dirent_size tid chunk_size count (λ input output copied. exit)
buffer_rounds (a ∷ rest) dirent_size tid chunk_size count =
    buffer_round dirent_size tid chunk_size count
      (buffer_rounds rest dirent_size tid chunk_size count)

-- `can_map` says whether mmap gives a buffer; -ENOMEM is -12.
unfoldable pub capio_copy_file_range_through_buffer :
    ℕ → Bool → ℕ → CopyEnd → CopyEnd → ℕ → St Client Buffered
capio_copy_file_range_through_buffer dirent_size can_map tid input output count c =
    if can_map
    then buffer_rounds c.kernel_answers dirent_size tid (min count c.read_cache.max_line_size) count
        input output 0 c
    else pure (negsuc 11, 0, input, output) c
