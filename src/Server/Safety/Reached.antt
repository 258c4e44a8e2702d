-- ===== src/Server/Safety/Reached.antt =====
-- In every state that the server reaches, the locations are sound.
use capio.Base.{ℕ, Bool, nat_key, string_key}
use Prim.Native.String.{String}
use Prim.Native.Char.{Char}
use capio.Base.Int.{pos}
use capio.Requests.{
  Request, access, clone, close, create, create_exclusive, dup, exit_group, fstat, getdents,
  handshake_named, handshake_anonymous, mkdir, open_file, read, rename, seek, seek_data, seek_end,
  seek_hole, stat, unlink, write, rmdir, copy_file_range,
}
use capio.Server.{Env, Server}
use capio.Server.Dispatch.{
  handshake_anonymous_handler, handshake_named_handler, handle_seek_end, handle,
}
use capio.Server.Keeps.{Keeps}
use capio.Server.Safety.{Sound, keeps_rules}
use capio.Server.Safety.Reads.{
  handle_read-Sound, handle_lseek-Sound, handle_seek_data-Sound, handle_seek_hole-Sound,
  handle_close-Sound, dup_handler-Sound, clone_handler-Sound, handle_exit_group-Sound,
  access_handler-Sound,
}
use capio.Server.Safety.Writes.{write_handler-Sound}
use capio.Server.Safety.Rest.{
  create_handler-Sound, create_exclusive_handler-Sound, open_handler-Sound, reply_stat-Sound,
  fstat_handler-Sound, stat_handler-Sound, handle_rename-Sound, unlink_handler-Sound,
  rmdir_handler-Sound, mkdir_handler-Sound,
}
use capio.Server.Safety.Moves.{copy_file_range_handler-Sound, handle_getdents-Sound}

module _ (env : Env) where
  handshake_anonymous_handler-Sound :
      (tid : ℕ) → Keeps (Sound env) (handshake_anonymous_handler tid)
  unfolding handshake_anonymous_handler
  handshake_anonymous_handler-Sound tid = search keeps_rules

  handshake_named_handler-Sound :
      (tid : ℕ) (app_name : String) (wait : Bool)
      → Keeps (Sound env) (handshake_named_handler tid app_name wait)
  unfolding handshake_named_handler
  handshake_named_handler-Sound tid app_name wait = search keeps_rules depth 14

  handle_seek_end-Sound : (tid fd : ℕ) → Keeps (Sound env) (handle_seek_end env tid fd)
  unfolding handle_seek_end
  handle_seek_end-Sound tid fd = search (keeps_rules, reply_stat-Sound) depth 14

  -- Every handler keeps the locations sound.
  pub handle-Sound : (r : Request) → Keeps (Sound env) (handle env r)
  unfolding handle
  handle-Sound (access tid path) = access_handler-Sound env tid path
  handle-Sound (clone parent_tid child_tid) = clone_handler-Sound env parent_tid child_tid
  handle-Sound (close tid fd) = handle_close-Sound env tid fd
  handle-Sound (create tid fd path) = create_handler-Sound env tid fd path
  handle-Sound (create_exclusive tid fd path) = create_exclusive_handler-Sound env tid fd path
  handle-Sound (dup tid old_fd new_fd) = dup_handler-Sound env tid old_fd new_fd
  handle-Sound (exit_group tid) = handle_exit_group-Sound env tid
  handle-Sound (fstat tid fd) = fstat_handler-Sound env tid fd
  handle-Sound (getdents is64bit tid fd count) = handle_getdents-Sound env tid fd count
  handle-Sound (handshake_named tid pid app_name wait) =
      handshake_named_handler-Sound tid app_name wait
  handle-Sound (handshake_anonymous tid pid) = handshake_anonymous_handler-Sound tid
  handle-Sound (mkdir tid path) = mkdir_handler-Sound env tid path
  handle-Sound (open_file tid fd path) = open_handler-Sound env tid fd path
  handle-Sound (read tid fd count) = handle_read-Sound env tid fd count
  handle-Sound (rename tid oldpath newpath) = handle_rename-Sound env tid oldpath newpath
  handle-Sound (seek tid fd offset) = handle_lseek-Sound env tid fd (pos offset)
  handle-Sound (seek_data tid fd offset) = handle_seek_data-Sound env tid fd offset
  handle-Sound (seek_end tid fd) = handle_seek_end-Sound tid fd
  handle-Sound (seek_hole tid fd offset) = handle_seek_hole-Sound env tid fd offset
  handle-Sound (stat tid path) = stat_handler-Sound env tid path
  handle-Sound (unlink tid path) = unlink_handler-Sound env tid path
  handle-Sound (write tid fd count) = write_handler-Sound env tid fd count
  handle-Sound (rmdir tid dir_to_remove) = rmdir_handler-Sound env tid dir_to_remove
  handle-Sound (copy_file_range tid fd_in fd_out offset_in offset_out count) =
      copy_file_range_handler-Sound env tid fd_in fd_out offset_in offset_out count
