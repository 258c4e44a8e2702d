-- ===== src/Client/Locks.antt =====
-- fcntl of a descriptor: capio/posix/handlers/fcntl.hpp. A command carries its argument; a null pointer
-- is `none`.
pub mod Shared
use capio.Base.{
  ℕ, zero, suc, ◌+◌, ◌-◌, ◌≡◌, Option, none, some, List, [], ◌∷◌, if◌then◌else◌, Bool, true, false,
  not, ◌&&◌, ◌||◌, nat_beq, ltb, leb, nat_key, string_key,
}
use Prim.Native.Nat.{bit_and, bit_or}
use Prim.Native.String.{String}
use capio.Base.Int.{ℤ, pos, negsuc}
use capio.Base.Map.{lookup, insert}
use capio.Base.State.{St, ◌>>=◌, ◌>>◌, pure, exit, gets, modify, from_option, when}
use capio.Descriptors.{
  Descriptors, exists_capio_fd, get_capio_fd_path, get_capio_fd_flags, set_capio_fd_flags,
  get_capio_fd_cloexec, set_capio_fd_cloexec,
}
use capio.Client.{
  Client, Kernel, Outcome, handled, delegated, on_tables, has, o_directory, minus, error_result,
  einval, ebadf, eagain, efault, enotdir,
}
use capio.Client.Fds.{capio_fcntl_dupfd}

pub data LockType : Type 0 where
  f_rdlck f_wrlck f_unlck other_type : LockType

-- struct flock, as far as it is read.
pub record Flock : Type 0 where
  pub l_type : LockType
  pub l_pid : ℤ

pub data LockCommand : Type 0 where
  f_getlk f_setlk f_setlkw f_ofd_getlk f_ofd_setlk f_ofd_setlkw : LockCommand

-- The signals and the owner of a descriptor are the kernel's: `to_kernel` carries the command and its
-- argument. A size of a pipe and a seal have no meaning for a file of CAPIO's.
pub data Command : Type 0 where
  f_dupfd f_dupfd_cloexec : ℤ → Command
  f_getfd : Command
  f_setfd : ℕ → Command
  f_getfl : Command
  f_setfl : ℕ → Command
  locking : LockCommand → Option Flock → Command
  to_kernel : ℕ → ℤ → Command
  f_getlease : Command
  f_setlease : LockType → Command
  f_notify : ℕ → Command
  f_dupfd_query : ℕ → Command
  pipe_size seals : Command
  f_get_rw_hint : Bool → Command
  f_set_rw_hint : Option ℕ → Command
  unknown : Command

-- O_APPEND | O_ASYNC | O_DIRECT | O_NOATIME | O_NONBLOCK
abbrev pub capio_fcntl_setfl_mask : ℕ
capio_fcntl_setfl_mask = 0x46c00

abbrev pub o_accmode : ℕ
o_accmode = 3

abbrev pub is_get : LockCommand → Bool
is_get f_getlk = true
is_get f_ofd_getlk = true
is_get _ = false

abbrev pub is_ofd : LockCommand → Bool
is_ofd f_ofd_getlk = true
is_ofd f_ofd_setlk = true
is_ofd f_ofd_setlkw = true
is_ofd _ = false

abbrev pub is_zero : ℤ → Bool
is_zero (pos zero) = true
is_zero _ = false

-- The error of a lock, by the access that the descriptor is open for: 1 is O_WRONLY and 0 O_RDONLY.
unfoldable pub lock_error : Bool → LockType → ℕ → Option ℕ
lock_error get f_rdlck access = if not get && nat_beq access 1 then some ebadf else none
lock_error get f_wrlck access = if not get && nat_beq access 0 then some ebadf else none
lock_error get f_unlck access = if get then some einval else none
lock_error get other_type access = some einval

-- The result, and the lock as it is left.
unfoldable pub capio_fcntl_lock : ℕ → LockCommand → Option Flock → St Client (ℤ × Option Flock)
capio_fcntl_lock fd cmd none = pure (minus efault, none)
capio_fcntl_lock fd cmd (some lock) =
    if is_ofd cmd && not (is_zero lock.l_pid) then pure (minus einval, some lock) else do
      flags ← on_tables (get_capio_fd_flags fd)
      pure (elim (lock_error (is_get cmd) lock.l_type (bit_and flags o_accmode)) [
        | some e ↦ (minus e, some lock)
        | none ↦ (pos 0, some (if is_get cmd then record lock { l_type = f_unlck } else lock))
      ])

abbrev pub cleared : ℕ → ℕ → ℕ
cleared flags mask = flags - bit_and flags mask

unfoldable pub setfl : ℕ → ℕ → St Client ℤ
setfl fd arg = do
  flags ← on_tables (get_capio_fd_flags fd)
  on_tables (
      set_capio_fd_flags fd
        (bit_or (cleared flags capio_fcntl_setfl_mask) (bit_and arg capio_fcntl_setfl_mask)))
  pure (pos 0)

-- The cell of the offset that a descriptor has.
abbrev pub offset_cell : ℕ → Descriptors → Option ℕ
offset_cell fd d = elim (lookup fd d.files) [ none ↦ none | some f ↦ some f.offset ]

unfoldable pub dupfd_query : Kernel → ℕ → ℕ → St Client ℤ
dupfd_query k fd other c =
    if exists_capio_fd other c.tables
    then (do
      mine ← gets (λ c. offset_cell fd c.tables)
      mine ← from_option mine
      its ← gets (λ c. offset_cell other c.tables)
      its ← from_option its
      pure (if nat_beq mine its then pos 1 else pos 0))
        c
    else if k.is_open (pos other)
    then pure (pos 0) c
    else pure (minus ebadf) c

unfoldable pub setlease : LockType → ℤ
setlease f_unlck = pos 0
setlease f_rdlck = minus eagain
setlease f_wrlck = minus eagain
setlease other_type = minus einval

-- RWH_WRITE_LIFE_EXTREME is 5.
unfoldable pub set_rw_hint : String → ℕ → St Client ℤ
set_rw_hint path hint c =
    if ltb 5 hint
    then some (minus einval, c)
    else some (pos 0, record c { hints = insert path hint c.hints })

-- What a command leaves where its argument points to.
pub data Stored : Type 0 where
  nothing : Stored
  stored_lock : Flock → Stored
  stored_hint : ℕ → Stored

abbrev pub as_stored : Option Flock → Stored
as_stored none = nothing
as_stored (some lock) = stored_lock lock

abbrev pub plain : St Client ℤ → St Client (ℤ × Stored)
plain op = do res ← op; pure (res, nothing)

-- The result, and what is stored where the argument points to.
unfoldable pub run_command : Kernel → ℕ → ℕ → Command → St Client (ℤ × Stored)
run_command k tid fd (f_dupfd arg) = plain (capio_fcntl_dupfd k tid fd arg false)
run_command k tid fd (f_dupfd_cloexec arg) = plain (capio_fcntl_dupfd k tid fd arg true)
run_command k tid fd f_getfd = do
  is_cloexec ← on_tables (get_capio_fd_cloexec fd)
  pure (if is_cloexec then pos 1 else pos 0, nothing)
run_command k tid fd (f_setfd arg) = do
  on_tables (set_capio_fd_cloexec fd (has arg 1))
  pure (pos 0, nothing)
run_command k tid fd f_getfl = do
  flags ← on_tables (get_capio_fd_flags fd)
  pure (pos flags, nothing)
run_command k tid fd (f_setfl arg) = plain (setfl fd arg)
run_command k tid fd (locking cmd lock) = do
  res ← capio_fcntl_lock fd cmd lock
  pure (res.0, as_stored res.1)
run_command k tid fd (to_kernel cmd arg) = pure (k.fcntl fd cmd arg, nothing)
run_command k tid fd f_getlease = pure (pos 2, nothing)
run_command k tid fd (f_setlease type) = pure (setlease type, nothing)
run_command k tid fd (f_notify arg) = do
  flags ← on_tables (get_capio_fd_flags fd)
  pure (
    if has flags o_directory then if nat_beq arg 0 then pos 0 else minus einval else minus enotdir,
    nothing,
  )
run_command k tid fd (f_dupfd_query other) = plain (dupfd_query k fd other)
run_command k tid fd pipe_size = pure (minus ebadf, nothing)
run_command k tid fd seals = pure (minus einval, nothing)
run_command k tid fd (f_get_rw_hint false) = pure (minus efault, nothing)
run_command k tid fd (f_get_rw_hint true) = do
  path ← gets (λ c. get_capio_fd_path fd c.tables)
  path ← from_option path
  hint ← gets (λ c. lookup path c.hints)
  pure (pos 0, stored_hint (elim hint [ none ↦ 0 | some h ↦ h ]))
run_command k tid fd (f_set_rw_hint none) = pure (minus efault, nothing)
run_command k tid fd (f_set_rw_hint (some hint)) = do
  path ← gets (λ c. get_capio_fd_path fd c.tables)
  path ← from_option path
  plain (set_rw_hint path hint)
run_command k tid fd unknown = pure (minus einval, nothing)

unfoldable pub fcntl_handler : Kernel → ℕ → ℕ → Command → St Client (Outcome × Stored)
fcntl_handler k tid fd cmd c =
    if exists_capio_fd fd c.tables
    then (do (res, stored) ← run_command k tid fd cmd; pure (handled res, stored)) c
    else pure (delegated, nothing) c
