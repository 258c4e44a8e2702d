-- ===== src/Server/Read/Serve.antt =====
-- What a read is answered with, once the file and its data are there.
use capio.Base.{
  ℕ, ◌+◌, ◌-◌, ◌≤◌, ◌≡◌, refl, ap, some, List, [], ◌∷◌, ◌++◌, nat_beq, leb, true, ◌||◌, arith, ◌∙◌,
  string_key, nat_key,
}
use Prim.Native.String.{String}
use capio.Base.Int.{ℤ, pos, ◌+ℤ◌, ◌-ℤ◌}
use capio.Base.Map.{lookup, insert, lookup-insert_self}
use capio.Base.Mem.{Mem, load}
use capio.Base.State.{St, ◌>>◌, >>-run, >>=-run}
use capio.File.{CapioFile, create_buffer}
use capio.Storage.{
  StorageManager, fd_key, object, set_object, get, get_path, set_file_offset, at_fd,
}
use capio.Storage.Fds.{HasOffset, HasOffset-same, set_file_offset_lem, with_offset}
use capio.Clients.{ClientManager, DataBuffers, reply_to_client, reply_with_data}
use capio.Server.{Env, Server, on_storage, on_clients, ready_buffer, reply_block}
use capio.Server.Read.{serve}

pub add_pos : (a b : ℕ) → pos a +ℤ pos b ≡ pos (a + b)
unfolding ◌+ℤ◌
add_pos a b = ground arith

pub sub_pos : (a b : ℕ) → a ≤ b → pos b -ℤ pos a ≡ pos (b - a)
unfolding ◌-ℤ◌
sub_pos a b h = ground arith

pub on_storage-run :
    {A : Type 0} (op : St StorageManager A) (a : A) (m : StorageManager) (s : Server)
    → op s.storage ≡ some (a, m)
    → on_storage op s ≡ some (a, record s { storage = m })
unfolding on_storage
on_storage-run op a m s e = rw (on_storage, e)

pub on_clients-run :
    {A : Type 0} (op : St ClientManager A) (a : A) (c : ClientManager) (s : Server)
    → op s.clients ≡ some (a, c)
    → on_clients op s ≡ some (a, record s { clients = c })
unfolding on_clients
on_clients-run op a c s e = rw (on_clients, e)

-- Descriptor `fd` of thread `tid` is open at offset `o` on a file that has a block, and the client
-- has its channels.
pub record Reader (tid fd o : ℕ) (path : String) (f : CapioFile) (s : Server) : Type 0 where
  pub id : ℕ
  pub cell : ℕ
  pub block : Mem
  pub channel : List ℤ
  pub buffers : DataBuffers
  pub at_offset : HasOffset (tid, fd) cell (pos o) s.storage
  pub at_path : at_offset.entry.path ≡ path
  pub named : lookup path s.storage.storage ≡ some id
  pub stored : lookup id s.storage.objects ≡ some f
  pub has_block : f.buffer.block ≡ some block
  pub has_channel : lookup tid s.clients.responses ≡ some channel
  pub has_buffers : lookup tid s.clients.data_buffers ≡ some buffers

module _ (env : Env) (tid fd o : ℕ) (path : String) (f : CapioFile) (s : Server)
    (r : Reader tid fd o path f s) where
  -- The client has been told the end of the read, has got `n` bytes of the block, and the descriptor
  -- stands behind them; no thread waits more than before.
  pub record Served (n : ℕ) (s' : Server) : Type 0 where
    pub answer : lookup tid s'.clients.responses ≡ some (r.channel ++ (pos (o + n) ∷ []))
    pub received :
        lookup tid s'.clients.data_buffers
        ≡ some (record (r.buffers) {
          server_to_client = r.buffers.server_to_client ++ load r.block o n;
        })
    pub moved : HasOffset (tid, fd) r.cell (pos (o + n)) s'.storage
    pub same_waiting : s'.waiting ≡ s.waiting

  pub path_run : get_path (tid, fd) s.storage ≡ some (path, s.storage)
  unfolding get_path at_fd
  path_run = ground (arith, r.at_offset.is_open, r.at_path)

  pub get_run : get path s.storage ≡ some (r.id, s.storage)
  unfolding get
  get_run = ground (arith, r.named)

  pub object_run : object r.id s.storage ≡ some (f, s.storage)
  unfolding object
  object_run = ground (arith, r.stored)

  abbrev pub ready : StorageManager
  ready = record (s.storage) { objects = insert r.id f s.storage.objects }

  ready_run : ready_buffer env r.id s.storage ≡ some (f, ready)
  unfolding ready_buffer object create_buffer set_object
  ready_run = ground (arith, r.stored, r.has_block)

  abbrev pub answered : ℕ → ClientManager
  answered n = record (s.clients) {
    responses = insert tid (r.channel ++ (pos (o + n) ∷ [])) s.clients.responses;
    data_buffers =
        insert tid
          (record (r.buffers) { server_to_client = r.buffers.server_to_client ++ load r.block o n })
          s.clients.data_buffers;
  }

  reply_run :
      (n : ℕ)
      → (leb (o + n) f.buffer.size || nat_beq n 0) ≡ true
      → reply_block tid (pos o) f (pos n) s.clients ≡ some (tt, answered n)
  unfolding reply_block reply_with_data reply_to_client
  reply_run n h = ground (arith, r.has_block, r.has_channel, r.has_buffers)

  ready-HasOffset : HasOffset (tid, fd) r.cell (pos o) ready
  ready-HasOffset = record {
    entry = r.at_offset.entry;
    is_open = r.at_offset.is_open;
    at_cell = r.at_offset.at_cell;
    holds = r.at_offset.holds;
  }

  abbrev pub served : ℕ → Server
  served n = record s { storage = with_offset r.cell (pos (o + n)) ready; clients = answered n }

  pub serve_run :
      (n : ℕ)
      → (leb (o + n) f.buffer.size || nat_beq n 0) ≡ true
      → serve env r.id tid fd (pos o) (pos n) s ≡ some (tt, served n)
  unfolding serve
  serve_run n h =
      let m : Server = record s { storage = ready } in
      let m' : Server = record m { clients = answered n } in
      >>=-run (on_storage (ready_buffer env r.id))
        (λ g.
          on_clients (reply_block tid (pos o) g (pos n))
          >> on_storage (set_file_offset (tid, fd) (pos o +ℤ pos n)))
        s m f (on_storage-run (ready_buffer env r.id) f ready s ready_run)
      ∙ >>-run (on_clients (reply_block tid (pos o) f (pos n)))
          (on_storage (set_file_offset (tid, fd) (pos o +ℤ pos n))) m m'
          (on_clients-run (reply_block tid (pos o) f (pos n)) tt (answered n) m (reply_run n h))
      ∙ on_storage-run (set_file_offset (tid, fd) (pos o +ℤ pos n)) tt
          (with_offset r.cell (pos o +ℤ pos n) ready) m'
          (set_file_offset_lem (tid, fd) r.cell (pos o) (pos o +ℤ pos n) ready ready-HasOffset)
      ∙ ap (λ v. some (tt, record m' { storage = with_offset r.cell v ready })) (add_pos o n)

  pub served-Served : (n : ℕ) → Served n (served n)
  served-Served n = record {
    answer = lookup-insert_self tid (r.channel ++ (pos (o + n) ∷ [])) s.clients.responses;
    received =
        lookup-insert_self tid
          (record (r.buffers) { server_to_client = r.buffers.server_to_client ++ load r.block o n })
          s.clients.data_buffers;
    moved = HasOffset-same (tid, fd) r.cell (pos o) (pos (o + n)) ready ready-HasOffset;
    same_waiting = refl;
  }
