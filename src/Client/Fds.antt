-- ===== src/Client/Fds.antt =====
-- The calls that duplicate and close descriptors, and the end of a thread: dup.hpp, close.hpp,
-- exit_group.hpp of capio/posix/handlers/, and capio_fcntl_dupfd of fcntl.hpp; and the calls on a
-- descriptor that ask nobody: fchmod, fchown, ioctl, splice, sendfile and fgetxattr. What the kernel
-- answers is in `Kernel`.
use capio.Base.{ℕ, some, if◌then◌else◌, Bool, false, ◌||◌, nat_beq, nat_key}
use capio.Base.Int.{ℤ, pos, negsuc, eqb_ℤ}
use capio.Requests.Text.{chars}
use capio.Paths.{FilePath, starts_with}
use capio.Base.State.{St, ◌>>◌, pure, exit}
use capio.Descriptors.{exists_capio_fd, dup_capio_fd, delete_capio_fd}
use capio.Client.Asking.{dup_request, close_request, exit_group_request}
use capio.Client.{
  Client, Kernel, Outcome, handled, delegated, on_tables, flush_writes, minus, einval, enotty, has,
  o_cloexec,
}
use capio.Client.Reading.{flush_reads}

-- The copy of a descriptor of the kernel's is made known, to the server and in the tables.
unfoldable pub known_copy : ℕ → ℕ → ℕ → Bool → St Client Outcome
known_copy tid fd res is_cloexec = do
  dup_request tid fd res
  on_tables (dup_capio_fd fd res is_cloexec)
  pure (handled (pos res))

-- open("/dev/null") by the kernel
unfoldable pub posix_dup_handler : Kernel → ℕ → ℕ → St Client Outcome
posix_dup_handler k tid fd c =
    if exists_capio_fd fd c.tables
    then elim k.dev_null [
      | negsuc _ ↦ pure (handled (minus k.errno)) c
      | pos res ↦ known_copy tid fd res false c
    ]
    else pure delegated c

unfoldable pub dup2_handler : Kernel → ℕ → ℕ → ℤ → St Client Outcome
dup2_handler k tid fd fd2 c =
    if exists_capio_fd fd c.tables
    then elim (k.dup_to fd fd2) [
      | negsuc _ ↦ pure (handled (minus k.errno)) c
      | pos res ↦
          if nat_beq fd res then pure (handled (pos res)) c else known_copy tid fd res false c
    ]
    else pure delegated c

unfoldable pub dup3_handler : Kernel → ℕ → ℕ → ℤ → ℕ → St Client Outcome
dup3_handler k tid fd fd2 flags c =
    if exists_capio_fd fd c.tables
    then if eqb_ℤ (pos fd) fd2
      then some (handled (minus einval), record c { errno = einval })
      else elim (k.dup_to fd fd2) [
        | negsuc _ ↦ pure (handled (minus k.errno)) c
        | pos res ↦ known_copy tid fd res (has flags o_cloexec) c
      ]
    else pure delegated c

unfoldable pub capio_fcntl_dupfd : Kernel → ℕ → ℕ → ℤ → Bool → St Client ℤ
capio_fcntl_dupfd k tid fd min_fd is_cloexec = elim (k.dupfd fd min_fd is_cloexec) [
  | negsuc n ↦ pure (negsuc n)
  | pos res ↦ do on_tables (dup_capio_fd fd res is_cloexec); dup_request tid fd res; pure (pos res)
]

-- The kernel closes the descriptor of /dev/null, so the call goes on to it.
unfoldable pub posix_close_handler : ℕ → ℕ → St Client Outcome
posix_close_handler tid fd c =
    if exists_capio_fd fd c.tables
    then (do
      flush_writes tid
      flush_reads tid
      close_request tid fd
      on_tables (delete_capio_fd fd)
      pure delegated)
        c
    else pure delegated c

unfoldable pub exit_handler : ℕ → St Client Outcome
exit_handler tid = do flush_reads tid; flush_writes tid; exit_group_request tid; pure delegated

unfoldable pub fchmod_handler : ℕ → St Client Outcome
fchmod_handler fd c =
    if exists_capio_fd fd c.tables then pure (handled (pos 0)) c else pure delegated c

unfoldable pub fchown_handler : ℕ → St Client Outcome
fchown_handler fd c =
    if exists_capio_fd fd c.tables then pure (handled (pos 0)) c else pure delegated c

-- A descriptor that is not CAPIO's: any return value but 0 leaves the call to the kernel.
unfoldable pub ioctl_handler : ℕ → St Client Outcome
ioctl_handler fd c =
    if exists_capio_fd fd c.tables
    then some (handled (minus enotty), record c { errno = enotty })
    else pure delegated c

unfoldable pub capio_refuse_in_kernel_copy : ℕ → ℕ → St Client Outcome
capio_refuse_in_kernel_copy fd_in fd_out c =
    if exists_capio_fd fd_in c.tables || exists_capio_fd fd_out c.tables
    then pure (handled (minus einval)) c
    else pure delegated c

-- Of the attributes only the access list is answered, with ENODATA, which is 61. The name is compared
-- as far as it goes.
unfoldable pub fgetxattr_handler : ℕ → FilePath → St Client Outcome
fgetxattr_handler fd name c =
    if exists_capio_fd fd c.tables
    then if starts_with name (chars "system.posix_acl_access")
      then some (handled (minus 61), record c { errno = 61 })
      else exit c
    else pure delegated c
