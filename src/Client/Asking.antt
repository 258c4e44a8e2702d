-- ===== src/Client/Asking.antt =====
-- The requests of a client, one function for each, of capio/posix/utils/requests.hpp: the request is
-- sent, and where the server answers, the answer is waited for. What is printed for a request is in
-- Requests. `stat` and `fstat` have two answers, the size and whether it is a directory.
use capio.Base.{ℕ, Bool, if◌then◌else◌}
use Prim.Native.String.{String}
use capio.Base.Int.{ℤ, negsuc, eqb_ℤ}
use capio.Base.State.{St, ◌>>=◌, ◌>>◌, pure, modify}
use capio.Requests
use capio.Client.{Client, send, next_answer, ask, skip}

abbrev pub access_request : ℕ → String → St Client ℤ
access_request tid path = ask (Requests.access tid path)

abbrev pub clone_request : ℕ → ℕ → St Client (Unit {0})
clone_request parent_tid child_tid = modify (send (Requests.clone parent_tid child_tid))

abbrev pub close_request : ℕ → ℕ → St Client (Unit {0})
close_request tid fd = modify (send (Requests.close tid fd))

abbrev pub rename_request : ℕ → String → String → St Client ℤ
rename_request tid old_path newpath = ask (Requests.rename tid old_path newpath)

abbrev pub create_request : ℕ → ℕ → String → St Client ℤ
create_request tid fd path = ask (Requests.create tid fd path)

abbrev pub create_exclusive_request : ℕ → ℕ → String → St Client ℤ
create_exclusive_request tid fd path = ask (Requests.create_exclusive tid fd path)

abbrev pub dup_request : ℕ → ℕ → ℕ → St Client (Unit {0})
dup_request tid old_fd new_fd = modify (send (Requests.dup tid old_fd new_fd))

abbrev pub exit_group_request : ℕ → St Client (Unit {0})
exit_group_request tid = modify (send (Requests.exit_group tid))

abbrev pub getdents_request : ℕ → ℕ → ℕ → Bool → St Client ℤ
getdents_request tid fd count is64bit = ask (Requests.getdents is64bit tid fd count)

abbrev pub handshake_anonymous_request : ℕ → ℕ → St Client (Unit {0})
handshake_anonymous_request tid pid = modify (send (Requests.handshake_anonymous tid pid))

abbrev pub fstat_request : ℕ → ℕ → St Client (ℤ × ℤ)
fstat_request tid fd = do
  file_size ← ask (Requests.fstat tid fd)
  is_dir ← next_answer
  pure (file_size, is_dir)

abbrev pub mkdir_request : ℕ → String → St Client ℤ
mkdir_request tid path = ask (Requests.mkdir tid path)

abbrev pub open_request : ℕ → ℕ → String → St Client ℤ
open_request tid fd path = ask (Requests.open_file tid fd path)

abbrev pub copy_file_range_request : ℕ → ℕ → ℕ → ℕ → ℕ → ℕ → St Client ℤ
copy_file_range_request tid fd_in fd_out offset_in offset_out count =
    ask (Requests.copy_file_range tid fd_in fd_out offset_in offset_out count)

abbrev pub read_request : ℕ → ℕ → ℕ → St Client ℤ
read_request tid fd count = ask (Requests.read tid fd count)

abbrev pub seek_data_request : ℕ → ℕ → ℕ → St Client ℤ
seek_data_request tid fd offset = ask (Requests.seek_data tid fd offset)

abbrev pub seek_end_request : ℕ → ℕ → St Client ℤ
seek_end_request tid fd = ask (Requests.seek_end tid fd)

abbrev pub seek_hole_request : ℕ → ℕ → ℕ → St Client ℤ
seek_hole_request tid fd offset = ask (Requests.seek_hole tid fd offset)

abbrev pub seek_request : ℕ → ℕ → ℕ → St Client ℤ
seek_request tid fd offset = ask (Requests.seek tid fd offset)

-- An answer that leaves the file to the kernel comes alone.
abbrev pub stat_request : ℕ → String → St Client (ℤ × ℤ)
stat_request tid path = do
  file_size ← ask (Requests.stat tid path)
  if eqb_ℤ file_size skip
      then pure (skip, negsuc 0)
      else (do is_dir ← next_answer; pure (file_size, is_dir))

abbrev pub unlink_request : ℕ → String → St Client ℤ
unlink_request tid path = ask (Requests.unlink tid path)

abbrev pub rmdir_request : ℕ → String → St Client ℤ
rmdir_request tid dir_path = ask (Requests.rmdir tid dir_path)

abbrev pub write_request : ℕ → ℕ → ℕ → St Client (Unit {0})
write_request tid fd count = modify (send (Requests.write tid fd count))

-- A client that has been cloned waits until the server knows it.
abbrev pub handshake_named_request : ℕ → ℕ → String → Bool → St Client (Unit {0})
handshake_named_request tid pid app_name wait = do
  modify (send (Requests.handshake_named tid pid app_name wait))
  if wait then (do res ← next_answer; pure tt) else pure tt
