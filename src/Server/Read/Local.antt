-- ===== src/Server/Read/Local.antt =====
-- The local read on each of its branches.
use capio.Base.{
  ℕ, ◌+◌, ◌-◌, ◌≤◌, min, ◌≡◌, refl, ap, Option, none, some, [], ◌∷◌, ◌++◌, nat_beq, leb,
  if◌then◌else◌, Bool, true, false, ◌||◌, arith, tests, sym, ◌∙◌, string_key, nat_key, inl, inr,
  subst, ◌⊎◌, Bool-cases,
}
use Prim.Native.String.{String}
use capio.Base.Int.{pos, ◌-ℤ◌, min_ℤ}
use capio.Base.Map.{insert}
use capio.Base.State.{>>=-run}
use capio.Sectors.{get_sector_end}
use capio.Sectors.Size.{get_sector_end-in_file}
use capio.File.{CapioFile, is_committed}
use capio.File.Data.{IsSound}
use capio.Storage.{fd_key, object, get, get_path, get_file_offset}
use capio.Storage.Fds.{get_file_offset_lem}
use capio.Clients.{reply_to_client}
use capio.Server.{Env, Server, for_commit, for_data, on_storage, on_clients, suspend, as_offset}
use capio.Server.Read.{serve, local_read, handle_local_read, handle_pending_read, pending_bytes}
use capio.Server.Read.Serve.{
  Reader, Served, served, serve_run, served-Served, path_run, get_run, object_run, on_storage-run,
  add_pos, sub_pos,
}

module _ (env : Env) (tid fd o count : ℕ) (path : String) (f : CapioFile) (s : Server)
    (r : Reader tid fd o path f s) where
  path_step : on_storage (get_path (tid, fd)) s ≡ some (path, s)
  path_step =
      on_storage-run (get_path (tid, fd)) path s.storage s (path_run env tid fd o path f s r)

  get_step : on_storage (get path) s ≡ some (r.id, s)
  get_step = on_storage-run (get path) r.id s.storage s (get_run env tid fd o path f s r)

  object_step : on_storage (object r.id) s ≡ some (f, s)
  object_step = on_storage-run (object r.id) f s.storage s (object_run env tid fd o path f s r)

  offset_step : on_storage (get_file_offset (tid, fd)) s ≡ some (pos o, s)
  offset_step =
      on_storage-run (get_file_offset (tid, fd)) (pos o) s.storage s
        (get_file_offset_lem (tid, fd) r.cell (pos o) s.storage r.at_offset)

  -- The read up to its branches.
  local_run :
      (is_prod : Bool)
      → handle_local_read env tid fd count is_prod s
        ≡ local_read env tid fd count
            (is_committed f || is_prod)
            (env.is_firable path)
            r.id
            (pos o)
            (as_offset (get_sector_end o f.sectors))
            s
  unfolding handle_local_read
  local_run is_prod =
      >>=-run (on_storage (get_path (tid, fd))) _ s s path path_step
      ∙ >>=-run (on_storage (get path)) _ s s r.id get_step
      ∙ >>=-run (on_storage (get_file_offset (tid, fd))) _ s s (pos o) offset_step
      ∙ >>=-run (on_storage (object r.id)) _ s s f object_step

  pending_run :
      handle_pending_read env tid fd (pos o) count s
      ≡ serve env r.id tid fd
          (pos o)
          (pending_bytes (as_offset (get_sector_end o f.sectors)) (pos o) count)
          s
  unfolding handle_pending_read
  pending_run =
      >>=-run (on_storage (get_path (tid, fd))) _ s s path path_step
      ∙ >>=-run (on_storage (get path)) _ s s r.id get_step
      ∙ >>=-run (on_storage (object r.id)) _ s s f object_step

  -- How a read that is served at once is answered: at most up to the end of the sector.
  abbrev pub Answered : Option ℕ → Option (Unit {0} × Server) → Type 0
  Answered none res =
      res
      ≡ some (
        tt,
        record s {
          clients = record (s.clients) {
            responses = insert tid (r.channel ++ (pos o ∷ [])) s.clients.responses;
          };
        },
      )
  Answered (some e) res =
      (s' : Server) × (res ≡ some (tt, s')) × Served env tid fd o path f s r (min count (e - o)) s'

  replied_at_once :
      on_clients (reply_to_client tid (pos o)) s
      ≡ some (
        tt,
        record s {
          clients = record (s.clients) {
            responses = insert tid (r.channel ++ (pos o ∷ [])) s.clients.responses;
          };
        },
      )
  unfolding reply_to_client on_clients insert
  replied_at_once = rw (on_clients, r.has_channel)

  -- The bytes that are served from a sector that ends at `e`.
  serve-min :
      (e : ℕ)
      → o ≤ e
      → e ≤ f.buffer.size
      → serve env r.id tid fd (pos o) (min_ℤ (pos count) (pos e -ℤ pos o)) s
        ≡ some (tt, served env tid fd o path f s r (min count (e - o)))
  serve-min e h l =
      let n : min_ℤ (pos count) (pos e -ℤ pos o) ≡ pos (min count (e - o)) =
        ap (min_ℤ (pos count)) (sub_pos o e h) ∙ (ground arith) in
      rw n (serve_run env tid fd o path f s r (min count (e - o)) (ground arith))

  complete_branch :
      (firable : Bool) (end : Option ℕ)
      → IsSound f
      → get_sector_end o f.sectors ≡ end
      → Answered end (local_read env tid fd count true firable r.id (pos o) (as_offset end) s)
  unfolding local_read
  complete_branch firable none v h = replied_at_once
  complete_branch firable (some e) v h =
      let (p, q) = get_sector_end-in_file o e f.sectors v.sorted h in
      (
        served env tid fd o path f s r (min count (e - o)),
        ground (arith, serve-min e p (omega (arith, q, v.holds.within))),
        served-Served env tid fd o path f s r (min count (e - o)),
      )

  -- The sector holds all that is asked for.
  abbrev pub within : Option ℕ → Bool
  within none = false
  within (some e) = leb (o + count) e

  -- How a read of a file that is still written is answered if the file is to be streamed.
  abbrev pub Streamed : Option ℕ → Option (Unit {0} × Server) → Type 0
  Streamed end res =
      if within end
      then ((s' : Server) × (res ≡ some (tt, s')) × Served env tid fd o path f s r count s')
      else res ≡ suspend (for_data r.id (pos (o + count)) tid fd (pos o) count) s

  streaming_branch :
      (end : Option ℕ)
      → IsSound f
      → get_sector_end o f.sectors ≡ end
      → Streamed end (local_read env tid fd count false true r.id (pos o) (as_offset end) s)
  unfolding local_read
  streaming_branch none v h =
      ap (λ t. suspend (for_data r.id t tid fd (pos o) count) s) (add_pos o count)
  streaming_branch (some e) v h =
      let (p, q) = get_sector_end-in_file o e f.sectors v.sorted h in
      elim (Bool-cases (leb (o + count) e)) [
        | inl t ↦
            let n : min count (e - o) ≡ count = omega tests in
            rw t (
              served env tid fd o path f s r count,
              ground (arith, add_pos o count, serve-min e p (omega (arith, q, v.holds.within)), n),
              served-Served env tid fd o path f s r count,
            )
        | inr k ↦ rw k (
            ground (
              arith,
              ap (λ t. suspend (for_data r.id t tid fd (pos o) count) s) (add_pos o count),
              add_pos o count,
            ))
      ]

  -- The bytes that a read that has waited gets.
  abbrev pub pending : Option ℕ → ℕ
  pending none = 0
  pending (some e) = min count (e - o)

  pending_bytes_lem :
      (end : Option ℕ)
      → IsSound f
      → get_sector_end o f.sectors ≡ end
      → pending_bytes (as_offset end) (pos o) count ≡ pos (pending end)
  unfolding pending_bytes
  pending_bytes_lem none v h = ground (arith, add_pos o count)
  pending_bytes_lem (some e) v h =
      let (p, q) = get_sector_end-in_file o e f.sectors v.sorted h in
      ground (arith, add_pos o count, sub_pos o e p)

  pending_room :
      (end : Option ℕ)
      → IsSound f
      → get_sector_end o f.sectors ≡ end
      → (leb (o + pending end) f.buffer.size || nat_beq (pending end) 0) ≡ true
  pending_room none v h = ground arith
  pending_room (some e) v h =
      let (p, q) = get_sector_end-in_file o e f.sectors v.sorted h in
      ground (arith, q, v.holds.within)

  pending_branch :
      (end : Option ℕ)
      → IsSound f
      → get_sector_end o f.sectors ≡ end
      → serve env r.id tid fd (pos o) (pending_bytes (as_offset end) (pos o) count) s
        ≡ some (tt, served env tid fd o path f s r (pending end))
  pending_branch end v h =
      rw (pending_bytes_lem end v h)
        (serve_run env tid fd o path f s r (pending end) (pending_room end v h))

  -- A read of a file that is committed, or whose reader is a producer of it, is answered at once:
  -- with the offset and no data if the offset is in no sector, and else with the bytes from the
  -- offset on, as many as were asked for but none past the end of the sector, and the descriptor
  -- then stands behind them.
  pub handle_local_read_complete :
      (is_prod : Bool)
      → IsSound f
      → (is_committed f || is_prod) ≡ true
      → Answered (get_sector_end o f.sectors) (handle_local_read env tid fd count is_prod s)
  handle_local_read_complete is_prod v h =
      subst (Answered (get_sector_end o f.sectors)) (sym (local_run is_prod))
        (rw h (complete_branch (env.is_firable path) (get_sector_end o f.sectors) v refl))

  -- A read of a file that is still written, by a reader that is no producer of it, waits: for the
  -- commit if the file is not to be streamed, and else for the data, unless a sector holds all that
  -- was asked for; then that is what it gets.
  pub handle_local_read_streaming :
      (is_prod : Bool)
      → IsSound f
      → (is_committed f || is_prod) ≡ false
      → ((env.is_firable path ≡ false)
          × (handle_local_read env tid fd count is_prod s
              ≡ suspend (for_commit r.id tid fd (pos o) count) s))
        ⊎ ((env.is_firable path ≡ true)
            × Streamed (get_sector_end o f.sectors) (handle_local_read env tid fd count is_prod s))
  handle_local_read_streaming is_prod v h =
      rw (local_run is_prod, h)
        (elim (Bool-cases (env.is_firable path)) [
          | inr n ↦ inl (n, unfold local_read in rw n)
          | inl y ↦ inr (y, rw y (streaming_branch (get_sector_end o f.sectors) v refl))
        ])

  -- A read that has waited gets what there is: as many bytes as were asked for but none past the end
  -- of the sector, and none if the offset is in no sector; the descriptor then stands behind them.
  pub handle_pending_read_lem :
      IsSound f
      → (s' : Server) × (handle_pending_read env tid fd (pos o) count s ≡ some (tt, s'))
        × Served env tid fd o path f s r (pending (get_sector_end o f.sectors)) s'
  handle_pending_read_lem v = (
    served env tid fd o path f s r (pending (get_sector_end o f.sectors)),
    pending_run ∙ pending_branch (get_sector_end o f.sectors) v refl,
    served-Served env tid fd o path f s r (pending (get_sector_end o f.sectors)),
  )
