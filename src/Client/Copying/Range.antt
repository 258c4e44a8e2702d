-- ===== src/Client/Copying/Range.antt =====
-- capio_copy_file_range of capio/posix/handlers/copy_file_range.hpp: its checks, and the copy on the server. The offsets of the two ends do not share a place.
use capio.Base.{
  ℕ, suc, ◌+◌, ◌-◌, ◌^◌, ◌%◌, Option, none, some, List, [], ◌∷◌, if◌then◌else◌, Bool, not, ◌&&◌,
  ◌||◌, nat_beq, ltb, leb, min, string_key,
}
use Prim.Native.Nat.{bit_and}
use capio.Base.Int.{ℤ, pos, negsuc, ltb_ℤ}
use capio.Base.State.{St, ◌>>=◌, ◌>>◌, pure, exit, gets}
use capio.Descriptors.{exists_capio_fd, get_capio_fd_path}
use capio.Client.{Client, natural, fail, skip, flush_writes, ebadf, einval, o_append}
use capio.Client.Asking.{copy_file_range_request}
use capio.Client.Reading.{flush_reads, same_path}
use capio.Client.Copying.{
  CopyEnd, PosixFile, is_readable, is_writable, moved, capio_copy_file_range_end,
  capio_copy_file_range_finish,
}
use capio.Client.Copying.Buffered.{Buffered, capio_copy_file_range_through_buffer}

-- The bytes that are copied, and the ends behind them.
abbrev pub Copied : Type 0
Copied = ℕ × CopyEnd × CopyEnd

unfoldable pub server_round :
    ℕ → ℕ → (CopyEnd → CopyEnd → ℕ → St Client Copied) → CopyEnd → CopyEnd → ℕ → St Client Copied
server_round tid count next input output copied =
    if ltb copied count
    then (do
      offset_in ← natural input.position
      offset_out ← natural output.position
      answer ← copy_file_range_request tid input.fd output.fd offset_in offset_out (count - copied)
      bytes_copied ← natural answer
      if nat_beq bytes_copied 0
          then pure (copied, input, output)
          else next (moved (pos bytes_copied) input) (moved (pos bytes_copied) output)
              (copied + bytes_copied))
    else pure (copied, input, output)

-- One round for each answer that is still to come.
unfoldable pub server_rounds : List ℤ → ℕ → ℕ → CopyEnd → CopyEnd → ℕ → St Client Copied
server_rounds [] tid count = server_round tid count (λ input output copied. exit)
server_rounds (a ∷ rest) tid count = server_round tid count (server_rounds rest tid count)

unfoldable pub capio_copy_file_range_on_server : ℕ → CopyEnd → CopyEnd → ℕ → St Client Copied
capio_copy_file_range_on_server tid input output count = do
  flush_writes tid
  flush_reads tid
  answers ← gets (λ c. c.answers)
  server_rounds answers tid count input output 0

-- A position as an unsigned number of 64 bits.
unfoldable pub as_uint64 : ℤ → ℕ
as_uint64 (pos n) = n % 2 ^ 64
as_uint64 (negsuc n) = 2 ^ 64 - suc n

unfoldable pub wraps : ℤ → ℕ → Bool
wraps position len = ltb ((as_uint64 position + len) % 2 ^ 64) (as_uint64 position)

unfoldable pub is_negative : ℤ → Bool
is_negative a = ltb_ℤ a (pos 0)

-- EISDIR is 21 and EOVERFLOW 75.
unfoldable pub end_error : CopyEnd → CopyEnd → ℕ → Option ℕ
end_error input output len =
    if input.is_dir || output.is_dir
    then some 21
    else if not input.is_regular || not output.is_regular
    then some einval
    else if not (is_readable input)
    then some ebadf
    else if not (is_writable output) || not (nat_beq (bit_and output.flags o_append) 0)
    then some ebadf
    else if wraps input.position len || wraps output.position len
    then some 75
    else if is_negative input.position || is_negative output.position
    then some einval
    else none

abbrev pub nat_of : ℤ → ℕ
nat_of (pos n) = n
nat_of (negsuc n) = 0

-- Whether a range of a file would be copied onto itself.
unfoldable pub overlaps : CopyEnd → CopyEnd → ℕ → Client → Bool
overlaps input output len c =
    let at = nat_of input.position in
    let to = nat_of output.position in
    let overlap_count = if leb input.size at then 0 else min len (input.size - at) in
    (input.is_capio && output.is_capio)
    && (same_path (get_capio_fd_path input.fd c.tables) (get_capio_fd_path output.fd c.tables)
        && (ltb at (to + overlap_count) && ltb to (at + overlap_count)))

-- INT_MAX rounded down to a page.
unfoldable pub capio_max_rw_count : ℕ → ℕ
capio_max_rw_count page_size = 2147483647 - bit_and 2147483647 (page_size - 1)

-- The end without an offset of the caller moves the descriptor, so it is finished last.
unfoldable pub finish_both : ℕ → Copied → St Client (CopyEnd × CopyEnd)
finish_both tid (copied, input, output) = elim (input.offset) [
  | none ↦ do
    output' ← capio_copy_file_range_finish tid output copied
    input' ← capio_copy_file_range_finish tid input copied
    pure (input', output')
  | some _ ↦ do
    input' ← capio_copy_file_range_finish tid input copied
    output' ← capio_copy_file_range_finish tid output copied
    pure (input', output')
]

unfoldable pub copy_between : ℕ → Bool → ℕ → CopyEnd → CopyEnd → ℕ → St Client Buffered
copy_between dirent_size can_map tid input output count =
    if input.is_capio && output.is_capio
    then (do
      (copied, input', output') ← capio_copy_file_range_on_server tid input output count
      pure (pos 0, copied, input', output'))
    else capio_copy_file_range_through_buffer dirent_size can_map tid input output count

-- The result, and what the caller's offsets are afterwards.
abbrev pub Finished : Type 0
Finished = ℤ × Option ℤ × Option ℤ

unfoldable pub copy_checked : ℕ → Bool → ℕ → ℕ → CopyEnd → CopyEnd → ℕ → St Client Finished
copy_checked dirent_size can_map page_size tid input output len = do
  (error, copied, input', output') ←
      copy_between dirent_size can_map tid input output (min len (capio_max_rw_count page_size))
  (input2, output2) ← finish_both tid (copied, input', output')
  if nat_beq copied 0 && is_negative error
      then (do
        res ← fail (elim error [ pos n ↦ 0 | negsuc n ↦ suc n ])
        pure (res, input2.offset, output2.offset))
      else pure (pos copied, input2.offset, output2.offset)

abbrev pub unchanged : CopyEnd → CopyEnd → St Client ℤ → St Client Finished
unchanged input output op = do res ← op; pure (res, input.offset, output.offset)

unfoldable pub copy_ends : ℕ → Bool → ℕ → ℕ → CopyEnd → CopyEnd → ℕ → St Client Finished
copy_ends dirent_size can_map page_size tid input output len c = elim (end_error input output len) [
  | some e ↦ unchanged input output (fail e) c
  | none ↦
      if nat_beq len 0
      then unchanged input output (pure (pos 0)) c
      else if overlaps input output len c
      then unchanged input output (fail einval) c
      else copy_checked dirent_size can_map page_size tid input output len c
]

abbrev pub refused : Option ℤ → Option ℤ → St Client ℤ → St Client Finished
refused off_in off_out op = do res ← op; pure (res, off_in, off_out)

unfoldable pub copy_opened :
    (ℕ → Option PosixFile) → ℕ → Bool → ℕ → ℕ → ℕ → Option ℤ → ℕ → Option ℤ → ℕ → St Client Finished
copy_opened posix_file dirent_size can_map page_size tid fd_in off_in fd_out off_out len = do
  input ← capio_copy_file_range_end posix_file tid fd_in off_in
  if input.is_open
      then (do
        output ← capio_copy_file_range_end posix_file tid fd_out off_out
        if output.is_open
            then copy_ends dirent_size can_map page_size tid input output len
            else refused off_in off_out (fail ebadf))
      else refused off_in off_out (fail ebadf)

unfoldable pub capio_copy_file_range :
    (ℕ → Option PosixFile)
    → ℕ
    → Bool
    → ℕ
    → ℕ
    → ℕ
    → Option ℤ
    → ℕ
    → Option ℤ
    → ℕ
    → ℕ
    → St Client Finished
capio_copy_file_range posix_file dirent_size can_map page_size tid fd_in off_in fd_out off_out len
      flags c =
    if not (exists_capio_fd fd_in c.tables) && not (exists_capio_fd fd_out c.tables)
    then refused off_in off_out (pure skip) c
    else if not (nat_beq flags 0)
    then refused off_in off_out (fail einval) c
    else copy_opened posix_file dirent_size can_map page_size tid fd_in off_in fd_out off_out len c
