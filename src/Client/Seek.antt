-- ===== src/Client/Seek.antt =====
-- capio_lseek of capio/posix/handlers/lseek.hpp.
pub mod Told
use capio.Base.{ℕ, zero, suc, ◌+◌, ◌≡◌, Option, none, some, List, [], ◌∷◌, if◌then◌else◌, Bool, leb}
use capio.Base.Int.{ℤ, pos, negsuc, ◌+ℤ◌}
use capio.Base.State.{St, ◌>>=◌, ◌>>◌, pure, exit, gets, modify, from_option, when}
use capio.Descriptors.{exists_capio_fd, get_capio_fd_offset, set_capio_fd_offset}
use capio.Requests.{Request, seek_end, seek_data, seek_hole}
use capio.Client.Asking.{seek_end_request, seek_data_request, seek_hole_request}
use capio.Client.{Client, on_tables, ask, fail, natural, skip, flush_writes, einval}
use capio.Client.Reading.{flush_reads}
use capio.Client.Data.{capio_set_fd_offset}

-- The whence of a call; any other number is `invalid`.
pub data Whence : Type 0 where
  seek_set seek_cur seek_to_end seek_to_data seek_to_hole invalid : Whence

-- To a new offset, unless it is negative.
unfoldable pub seek_to : ℕ → ℕ → ℤ → St Client ℤ
seek_to tid fd (pos offset) = do capio_set_fd_offset tid fd offset; pure (pos offset)
seek_to tid fd (negsuc n) = fail einval

unfoldable pub set_and_return : ℕ → ℤ → St Client ℤ
set_and_return fd new_offset = do on_tables (set_capio_fd_offset fd new_offset); pure new_offset

unfoldable pub seek_by : ℕ → ℕ → ℤ → Whence → ℤ → St Client ℤ
seek_by tid fd offset seek_set file_offset = seek_to tid fd offset
seek_by tid fd offset seek_cur file_offset = seek_to tid fd (file_offset +ℤ offset)
seek_by tid fd offset seek_to_end file_offset = do
  res ← seek_end_request tid fd
  set_and_return fd (file_offset +ℤ offset)
seek_by tid fd offset seek_to_data file_offset = do
  at ← natural file_offset
  new_offset ← seek_data_request tid fd at
  set_and_return fd new_offset
seek_by tid fd offset seek_to_hole file_offset = do
  at ← natural file_offset
  new_offset ← seek_hole_request tid fd at
  set_and_return fd new_offset
seek_by tid fd offset invalid file_offset = fail einval

unfoldable pub capio_lseek : ℕ → ℕ → ℤ → Whence → St Client ℤ
capio_lseek tid fd offset whence c =
    if exists_capio_fd fd c.tables
    then (do
      flush_reads tid
      flush_writes tid
      file_offset ← on_tables (get_capio_fd_offset fd)
      seek_by tid fd offset whence file_offset)
        c
    else pure skip c
