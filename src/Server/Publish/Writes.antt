-- ===== src/Server/Publish/Writes.antt =====
-- A write through a descriptor to a file that has been written before.
use capio.Base.{
  ℕ, ◌+◌, ◌≤◌, ◌≡◌, ap, subst, some, List, true, false, arith, ◌∙◌, string_key, nat_key, length,
  take, drop, ◌>>=◌, length-take, >>=-eq-some, Option-cases, inl, inr,
}
use Prim.Native.String.{String}
use mathlib.Core.Option.{some-injective}
use capio.Base.Int.{pos}
use capio.Base.Map.{lookup, insert, lookup-insert_self}
use capio.Base.State.{>>-run, >>=-run}
use capio.Buffer.{System}
use capio.File.{
  CapioFile, create_buffer, read_from_queue, add_sector, write_block, expand_buffer, new_block,
}
use capio.File.Data.{IsSound, expand_if_needed}
use capio.File.Write.{write_file, Written}
use capio.File.Total.{InMemory, write_file_total}
use capio.Storage.{
  StorageManager, fd_key, object, set_object, update_object, get, get_path, get_file_offset,
  set_file_offset,
}
use capio.Storage.Fds.{
  HasOffset, HasOffset-same, set_file_offset_lem, get_file_offset_lem, with_offset,
}
use capio.Clients.{ClientManager, receive_data, register_produced_file}
use capio.Server.{Env, Server, on_storage, on_clients}
use capio.Server.Handlers.{try_update}
use capio.Server.Read.Serve.{Reader, path_run, get_run, on_storage-run, on_clients-run}
use capio.Server.Publish.{put_data, register_written_data, write_at, write_handler}

put_data_run :
    (env : Env) (o : ℕ) (bytes : List ℕ) (f g h k : CapioFile)
    → create_buffer env.system true f ≡ some g
    → expand_if_needed env.system (o + length bytes) g ≡ some h
    → write_block o bytes h ≡ some k
    → put_data env o bytes f ≡ some k
unfolding put_data read_from_queue
put_data_run env o bytes f g h k p q r = rw (put_data, p, q) r

create_buffer-first_write :
    (sys : System) (f g : CapioFile)
    → create_buffer sys true f ≡ some g
    → g.first_write ≡ f.first_write
unfolding create_buffer
create_buffer-first_write sys f g e = elim (Option-cases f.buffer.block) [
  | inr (m, p) ↦ ground arith
  | inl p ↦ elim (Option-cases (new_block sys true f)) [
    | inl q ↦ ground arith
    | inr (b, q) ↦ ground arith
  ]
]

expand_if_needed-first_write :
    (sys : System) (n : ℕ) (f g : CapioFile)
    → expand_if_needed sys n f ≡ some g
    → g.first_write ≡ f.first_write
unfolding expand_if_needed expand_buffer
expand_if_needed-first_write sys n f g e = ground arith

write_block-first_write :
    (o : ℕ) (bytes : List ℕ) (f g : CapioFile)
    → write_block o bytes f ≡ some g
    → g.first_write ≡ f.first_write
unfolding write_block
write_block-first_write o bytes f g e = ground arith

-- put_data is write_file without the sector.
put_data_cases :
    (env : Env) (o : ℕ) (bytes : List ℕ) (f f' : CapioFile)
    → write_file env.system o bytes f ≡ some f'
    → (g : CapioFile) × (put_data env o bytes f ≡ some g)
      × (add_sector o (o + length bytes) g ≡ f')
      × (g.first_write ≡ f.first_write)
unfolding put_data write_file read_from_queue
put_data_cases env o bytes f f' e =
    let n : ℕ = o + length bytes in
    let sys : System = env.system in
    let (g, p, e₁) =
      >>=-eq-some (create_buffer sys true f)
        (λ g.
          expand_if_needed sys n g >>= λ h. write_block o bytes h >>= λ k. some (add_sector o n k))
        e in
    let (h, q, e₂) =
      >>=-eq-some (expand_if_needed sys n g)
        (λ h. write_block o bytes h >>= λ k. some (add_sector o n k)) e₁ in
    let (k, r, e₃) = >>=-eq-some (write_block o bytes h) (λ k. some (add_sector o n k)) e₂ in
    (
      k,
      put_data_run env o bytes f g h k p q r,
      some-injective _ _ e₃,
      write_block-first_write o bytes h k r
          ∙ expand_if_needed-first_write sys n g h q
          ∙ create_buffer-first_write sys f g p,
    )

module _ (env : Env) (tid fd o count : ℕ) (path : String) (f : CapioFile) (s : Server)
    (r : Reader tid fd o path f s) (room : count ≤ length r.buffers.client_to_server) where
  -- The bytes that the client has sent.
  abbrev pub sent : List ℕ
  sent = take count r.buffers.client_to_server

  length-sent : length sent ≡ count
  length-sent = length-take count r.buffers.client_to_server ∙ (omega (arith, room))

  abbrev taken : ClientManager
  taken = record (s.clients) {
    data_buffers =
        insert tid (record (r.buffers) { client_to_server = drop count r.buffers.client_to_server })
          s.clients.data_buffers;
  }

  receive_run : receive_data tid count s.clients ≡ some (sent, taken)
  unfolding receive_data
  receive_run = ground (arith, r.has_buffers, room)

  module _ (g : CapioFile) (p : put_data env o sent f ≡ some g)
      (again : g.first_write ≡ false) where
    abbrev n : ℕ
    n = o + length sent

    abbrev put_storage : StorageManager
    put_storage = record (s.storage) { objects = insert r.id g s.storage.objects }

    abbrev done : StorageManager
    done = record put_storage { objects = insert r.id (add_sector o n g) put_storage.objects }

    put_run :
        try_update r.id (put_data env o sent) (record s { clients = taken })
        ≡ some (tt, record s { clients = taken; storage = put_storage })
    unfolding try_update on_storage object set_object
    put_run = ground (arith, r.stored, p)

    register_run :
        register_written_data env tid path r.id o n
          (record s { clients = taken; storage = put_storage })
        ≡ some (tt, record s { clients = register_produced_file tid path taken; storage = done })
    unfolding register_written_data on_storage on_clients update_object object set_object add_sector
    register_run = ground (
      arith,
      lookup-insert_self r.id g s.storage.objects,
      lookup-insert_self r.id (add_sector o n g) put_storage.objects,
      again,
    )

    done-HasOffset : HasOffset (tid, fd) r.cell (pos o) done
    done-HasOffset = record {
      entry = r.at_offset.entry;
      is_open = r.at_offset.is_open;
      at_cell = r.at_offset.at_cell;
      holds = r.at_offset.holds;
    }

    abbrev written : Server
    written = record s {
      clients = register_produced_file tid path taken;
      storage = with_offset r.cell (pos n) done;
    }

    write_at_run :
        write_at env tid fd path r.id sent (pos o) (record s { clients = taken })
        ≡ some (tt, written)
    unfolding write_at
    write_at_run =
        >>-run (try_update r.id (put_data env o sent)) _ (record s { clients = taken })
          (record s { clients = taken; storage = put_storage }) put_run
        ∙ >>-run (register_written_data env tid path r.id o n) _
            (record s { clients = taken; storage = put_storage })
            (record s { clients = register_produced_file tid path taken; storage = done })
            register_run
        ∙ on_storage-run (set_file_offset (tid, fd) (pos n)) tt (with_offset r.cell (pos n) done)
            (record s { clients = register_produced_file tid path taken; storage = done })
            (set_file_offset_lem (tid, fd) r.cell (pos o) (pos n) done done-HasOffset)

    write_run : write_handler env tid fd count s ≡ some (tt, written)
    unfolding write_handler
    write_run =
        >>=-run (on_storage (get_file_offset (tid, fd))) _ s s (pos o) (
          on_storage-run (get_file_offset (tid, fd)) (pos o) s.storage s
            (get_file_offset_lem (tid, fd) r.cell (pos o) s.storage r.at_offset))
        ∙ >>=-run (on_storage (get_path (tid, fd))) _ s s path (
            on_storage-run (get_path (tid, fd)) path s.storage s (path_run env tid fd o path f s r))
        ∙ >>=-run (on_storage (get path)) _ s s r.id
            (on_storage-run (get path) r.id s.storage s (get_run env tid fd o path f s r))
        ∙ >>=-run (on_clients (receive_data tid count)) _ s (record s { clients = taken }) sent
            (on_clients-run (receive_data tid count) sent taken s receive_run)
        ∙ write_at_run

  -- A write through a descriptor that is open on a sound file in memory, which has been written
  -- before, once the client has sent the bytes: it goes through, the bytes that were sent are written
  -- to the file at the offset of the descriptor, and the descriptor then stands behind them.
  pub write_handler_lem :
      IsSound f
      → InMemory f
      → f.first_write ≡ false
      → (s' : Server) × (f' : CapioFile) × (write_handler env tid fd count s ≡ some (tt, s'))
        × (lookup r.id s'.storage.objects ≡ some f')
        × Written o sent f f'
        × HasOffset (tid, fd) r.cell (pos (o + count)) s'.storage
  write_handler_lem v w again =
      let (f', e, done_well) = write_file_total env.system o sent f v w in
      let (g, p, q, k) = put_data_cases env o sent f f' e in
      (
        written g p (k ∙ again),
        f',
        write_run g p (k ∙ again),
        lookup-insert_self r.id (add_sector o (o + length sent) g) (insert r.id g s.storage.objects)
            ∙ ap some q,
        done_well,
        subst
            (λ x.
              HasOffset (tid, fd) r.cell (pos x)
                (with_offset r.cell (pos (o + length sent)) (done g p (k ∙ again))))
            (ap (λ x. o + x) length-sent)
            (HasOffset-same (tid, fd) r.cell (pos o) (pos (o + length sent)) (done g p (k ∙ again))
              (done-HasOffset g p (k ∙ again))),
      )
