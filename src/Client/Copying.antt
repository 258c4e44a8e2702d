-- ===== src/Client/Copying.antt =====
-- The two ends of a copy, and how the bytes go from one to the other: capio/posix/handlers/copy_file_range.hpp
-- and CPCopyFileRangeEnd_t of capio/posix/utils/types.hpp. The reads and writes of a descriptor of the
-- kernel take the kernel's answers in their order. A loop goes over the answers that are still to come,
-- of which each round but the last takes at least one.
pub mod Range
pub mod Buffered
pub mod Served
use capio.Base.{
  ℕ, zero, suc, ◌+◌, ◌-◌, ◌≡◌, Option, none, some, List, [], ◌∷◌, ◌++◌, if◌then◌else◌, Bool, true,
  false, not, ◌&&◌, ◌||◌, nat_beq, ltb, leb, min, length, take, drop,
}
use Prim.Native.Nat.{bit_and}
use capio.Base.Int.{ℤ, pos, negsuc, ◌+ℤ◌, ◌-ℤ◌, eqb_ℤ, ltb_ℤ}
use capio.Base.State.{St, ◌>>=◌, ◌>>◌, pure, exit, gets, modify, from_option, when}
use capio.Descriptors.{exists_capio_fd, get_capio_fd_flags, get_capio_fd_offset}
use capio.Client.{Client, on_tables, natural, flush_writes, minus}
use capio.Client.Asking.{fstat_request, copy_file_range_request}
use capio.Client.Reading.{flush_reads}
use capio.Client.Data.{capio_cached_read, capio_cached_write, capio_set_fd_offset}
use capio.Client.Stats.{to_bool}

-- `offset` is what the caller's pointer points to.
pub record CopyEnd : Type 0 where
  pub fd : ℕ
  pub offset : Option ℤ
  pub is_capio : Bool
  pub is_open : Bool
  pub flags : ℕ
  pub is_dir : Bool
  pub is_regular : Bool
  pub size : ℕ
  pub position : ℤ
  pub saved_fd_offset : ℤ

-- What F_GETFL, fstat and lseek of the kernel say of a descriptor that is open.
pub record PosixFile : Type 0 where
  pub posix_flags : ℕ
  pub is_posix_dir : Bool
  pub is_posix_regular : Bool
  pub posix_size : ℕ
  pub posix_position : ℤ

abbrev pub or_else : Option ℤ → ℤ → ℤ
or_else none a = a
or_else (some o) a = o

unfoldable pub capio_end : ℕ → ℕ → Option ℤ → St Client CopyEnd
capio_end tid fd offset = do
  flush_writes tid
  (file_size, is_dir) ← fstat_request tid fd
  flags ← on_tables (get_capio_fd_flags fd)
  saved ← on_tables (get_capio_fd_offset fd)
  pure (record {
    fd = fd;
    offset = offset;
    is_capio = true;
    is_open = true;
    flags = flags;
    is_dir = to_bool is_dir;
    is_regular = not (to_bool is_dir);
    size = elim file_size [ pos n ↦ n | negsuc n ↦ 0 ];
    position = or_else offset saved;
    saved_fd_offset = saved;
  })

unfoldable pub posix_end : ℕ → Option ℤ → Option PosixFile → CopyEnd
posix_end fd offset none = record {
  fd = fd;
  offset = offset;
  is_capio = false;
  is_open = false;
  flags = 0;
  is_dir = false;
  is_regular = false;
  size = 0;
  position = pos 0;
  saved_fd_offset = pos 0;
}
posix_end fd offset (some f) = record {
  fd = fd;
  offset = offset;
  is_capio = false;
  is_open = true;
  flags = f.posix_flags;
  is_dir = f.is_posix_dir;
  is_regular = f.is_posix_regular;
  size = f.posix_size;
  position = or_else offset f.posix_position;
  saved_fd_offset = pos 0;
}

unfoldable pub capio_copy_file_range_end :
    (ℕ → Option PosixFile) → ℕ → ℕ → Option ℤ → St Client CopyEnd
capio_copy_file_range_end posix_file tid fd offset c =
    if exists_capio_fd fd c.tables
    then capio_end tid fd offset c
    else pure (posix_end fd offset (posix_file fd)) c

-- With o_accmode 3, O_RDONLY 0, O_WRONLY 1, O_RDWR 2 and O_PATH 0x200000.
unfoldable pub is_readable : CopyEnd → Bool
is_readable e =
    nat_beq (bit_and e.flags 0x200000) 0
    && (nat_beq (bit_and e.flags 3) 0 || nat_beq (bit_and e.flags 3) 2)

unfoldable pub is_writable : CopyEnd → Bool
is_writable e =
    nat_beq (bit_and e.flags 0x200000) 0
    && (nat_beq (bit_and e.flags 3) 1 || nat_beq (bit_and e.flags 3) 2)

unfoldable pub capio_copy_file_range_seek : ℕ → CopyEnd → St Client (Unit {0})
capio_copy_file_range_seek tid e = do
  offset ← on_tables (get_capio_fd_offset e.fd)
  if eqb_ℤ offset e.position
      then pure tt
      else (do at ← natural e.position; capio_set_fd_offset tid e.fd at)

abbrev pub moved : ℤ → CopyEnd → CopyEnd
moved n e = record e { position = e.position +ℤ n }

unfoldable pub kernel_answer : St Client (ℤ × List ℕ)
kernel_answer c = elim c.kernel_answers [
  | [] ↦ none
  | a ∷ rest ↦ some (a, record c { kernel_answers = rest })
]

-- A call of the kernel moves the position where it is at an offset of the caller.
abbrev pub moved_by_kernel : ℤ → CopyEnd → CopyEnd
moved_by_kernel res e = elim (e.offset) [
  | none ↦ e
  | some _ ↦ if ltb_ℤ (pos 0) res then moved res e else e
]

unfoldable pub capio_copy_file_range_read : ℕ → ℕ → CopyEnd → ℕ → St Client (ℤ × List ℕ × CopyEnd)
capio_copy_file_range_read dirent_size tid e count =
    if e.is_capio
    then (do
      capio_copy_file_range_seek tid e
      (n, bytes) ← capio_cached_read dirent_size tid e.fd count
      pure (pos n, bytes, moved (pos n) e))
    else (do (res, bytes) ← kernel_answer; pure (res, bytes, moved_by_kernel res e))

unfoldable pub capio_copy_file_range_write : ℕ → CopyEnd → List ℕ → St Client (ℤ × CopyEnd)
capio_copy_file_range_write tid e bytes =
    if e.is_capio
    then (do
      capio_copy_file_range_seek tid e
      capio_cached_write tid e.fd bytes
      pure (pos (length bytes), moved (pos (length bytes)) e))
    else (do (res, _) ← kernel_answer; pure (res, moved_by_kernel res e))

-- The error, the bytes that are written and the end behind them.
abbrev pub Written : Type 0
Written = ℤ × ℕ × CopyEnd

-- A write of no byte is reported as EIO, which is 5.
unfoldable pub write_round :
    ℕ → ℤ → List ℕ → (CopyEnd → ℕ → St Client Written) → CopyEnd → ℕ → St Client Written
write_round tid error bytes next e bytes_written =
    if ltb bytes_written (length bytes)
    then (do
      (res, e') ← capio_copy_file_range_write tid e (drop bytes_written bytes)
      elim res [
        | pos zero ↦ pure (negsuc 4, bytes_written, e')
        | pos (suc n) ↦ next e' (bytes_written + suc n)
        | negsuc n ↦ pure (negsuc n, bytes_written, e')
      ])
    else pure (error, bytes_written, e)

unfoldable pub write_rounds : List (ℤ × List ℕ) → ℕ → ℤ → List ℕ → CopyEnd → ℕ → St Client Written
write_rounds [] tid error bytes = write_round tid error bytes (λ e n. pure (error, n, e))
write_rounds (a ∷ rest) tid error bytes =
    write_round tid error bytes (write_rounds rest tid error bytes)

unfoldable pub capio_copy_file_range_write_all : ℕ → CopyEnd → List ℕ → ℤ → St Client Written
capio_copy_file_range_write_all tid e bytes error c =
    write_rounds c.kernel_answers tid error bytes e 0 c

unfoldable pub capio_copy_file_range_unread : CopyEnd → ℕ → St Client CopyEnd
capio_copy_file_range_unread e count =
    if e.is_capio || elim (e.offset) [ none ↦ false | some _ ↦ true ]
    then pure (record e { position = e.position -ℤ pos count })
    else (do res ← kernel_answer; pure e)

-- The caller's offset, and the descriptor put back or on.
unfoldable pub capio_copy_file_range_finish : ℕ → CopyEnd → ℕ → St Client CopyEnd
capio_copy_file_range_finish tid e copied = elim (e.offset) [
  | some offset ↦
      let e' : CopyEnd = record e { offset = some (offset +ℤ pos copied) } in
      if e.is_capio
      then (do
        capio_copy_file_range_seek tid (record e' { position = e.saved_fd_offset })
        pure (record e' { position = e.saved_fd_offset }))
      else pure e'
  | none ↦ if e.is_capio then (do capio_copy_file_range_seek tid e; pure e) else pure e
]
