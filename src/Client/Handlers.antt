-- ===== src/Client/Handlers.antt =====
-- The handlers of capio/posix/handlers/ that hand a call to the function that does it and turn the result
-- into what the interceptor returns.
use capio.Base.{ℕ, List, true, false, Option}
use Prim.Native.Nat.{bit_or}
use capio.Base.Int.{ℤ}
use capio.Base.State.{St, ◌>>=◌, pure}
use capio.Paths.{FilePath}
use capio.Client.{Client, Kernel, Outcome, posix_return_value, o_creat}
use capio.Client.Paths.{at_fdcwd}
use capio.Client.Data.{capio_read, capio_readv, capio_writev, getdents_handler_impl}
use capio.Client.Seek.{Whence, capio_lseek}
use capio.Client.Fds.{capio_refuse_in_kernel_copy}
use capio.Client.Opening.{capio_openat}
use capio.Client.Names.{capio_faccessat, renameat2_handler}
use capio.Client.Removing.{capio_mkdirat, capio_unlinkat}
use capio.Client.Stats.{Statbuf, capio_lstat_wrapper, capio_fstatat}

-- The result of a call that also stores something.
abbrev pub returned_with : {A : Type 0} → St Client (ℤ × A) → St Client (Outcome × A)
returned_with op = do (res, a) ← op; outcome ← posix_return_value res; pure (outcome, a)

abbrev pub returned : St Client ℤ → St Client Outcome
returned op = op >>= posix_return_value

unfoldable pub read_handler : ℕ → ℕ → ℕ → ℕ → St Client (Outcome × List ℕ)
read_handler dirent_size tid fd count = returned_with (capio_read dirent_size tid fd count)

unfoldable pub readv_handler : ℕ → ℕ → ℕ → List ℕ → St Client (Outcome × List (List ℕ))
readv_handler dirent_size tid fd iov = returned_with (capio_readv dirent_size tid fd iov)

unfoldable pub writev_handler : ℕ → ℕ → List (List ℕ) → St Client Outcome
writev_handler tid fd iov = returned (capio_writev tid fd iov)

unfoldable pub getdents_handler : ℕ → ℕ → ℕ → ℕ → St Client (Outcome × List ℕ)
getdents_handler dirent_size tid fd count = getdents_handler_impl dirent_size tid fd count false

unfoldable pub getdents64_handler : ℕ → ℕ → ℕ → ℕ → St Client (Outcome × List ℕ)
getdents64_handler dirent_size tid fd count = getdents_handler_impl dirent_size tid fd count true

unfoldable pub lseek_handler : ℕ → ℕ → ℤ → Whence → St Client Outcome
lseek_handler tid fd offset whence = returned (capio_lseek tid fd offset whence)

-- O_WRONLY is 1 and O_TRUNC is 0x200.
unfoldable pub creat_handler :
    (ℕ → St Client (Unit {0})) → Kernel → ℕ → FilePath → St Client Outcome
creat_handler lseek_to_end k tid pathname =
    returned (capio_openat lseek_to_end k tid at_fdcwd pathname (bit_or (bit_or o_creat 1) 0x200))

unfoldable pub openat_handler :
    (ℕ → St Client (Unit {0})) → Kernel → ℕ → ℤ → FilePath → ℕ → St Client Outcome
openat_handler lseek_to_end k tid dirfd pathname flags =
    returned (capio_openat lseek_to_end k tid dirfd pathname flags)

unfoldable pub mkdirat_handler : Kernel → ℕ → ℤ → FilePath → St Client Outcome
mkdirat_handler k tid dirfd pathname = returned (capio_mkdirat k tid dirfd pathname)

unfoldable pub unlinkat_handler : Kernel → ℕ → ℤ → FilePath → ℕ → St Client Outcome
unlinkat_handler k tid dirfd pathname flags = returned (capio_unlinkat k tid dirfd pathname flags)

unfoldable pub faccessat_handler : Kernel → ℕ → ℤ → FilePath → St Client Outcome
faccessat_handler k tid dirfd pathname = returned (capio_faccessat k tid dirfd pathname)

unfoldable pub fstatat_handler :
    Kernel → ℕ → ℤ → FilePath → ℕ → St Client (Outcome × Option Statbuf)
fstatat_handler k tid dirfd pathname flags =
    returned_with (capio_fstatat k tid dirfd pathname flags)

unfoldable pub lstat_handler : Kernel → ℕ → FilePath → St Client (Outcome × Option Statbuf)
lstat_handler k tid pathname = returned_with (capio_lstat_wrapper k tid pathname)

unfoldable pub renameat_handler :
    (FilePath → FilePath → St Client (Unit {0}))
    → Kernel
    → ℕ
    → ℤ
    → FilePath
    → ℤ
    → FilePath
    → St Client Outcome
renameat_handler copy_file k tid old_dir_fd old_path new_dir_fd new_path =
    renameat2_handler copy_file k tid old_dir_fd old_path new_dir_fd new_path

unfoldable pub splice_handler : ℕ → ℕ → St Client Outcome
splice_handler fd_in fd_out = capio_refuse_in_kernel_copy fd_in fd_out

-- sendfile names its output first.
unfoldable pub sendfile_handler : ℕ → ℕ → St Client Outcome
sendfile_handler out_fd in_fd = capio_refuse_in_kernel_copy in_fd out_fd
