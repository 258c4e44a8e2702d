-- ===== src/Storage/Fds.antt =====
-- Descriptors: what opening, dup and clone make of the shared offsets.
use capio.Base.{ℕ, suc, ◌<◌, ◌≡◌, ◌≢◌, refl, ap, some, arith, sym, ◌∙◌, string_key, nat_key}
use Prim.Native.String.{String}
use capio.Base.Int.{ℤ}
use capio.Base.Map.{lookup, insert, lookup-insert_self, lookup-insert_ne}
use capio.Base.State.{◌>>◌, >>-run}
use capio.File.{CapioFile, open_file, add_fd}
use capio.Storage.{
  Fd, fd_key, OpenedFd, StorageManager, update_object, at_fd, set_file_offset, get_file_offset,
  set_entry, dup, add_new_fd_to_map, at_path,
}

-- The descriptor is open, on the cell `cell`, that holds `v`.
pub record HasOffset (fd : Fd) (cell : ℕ) (v : ℤ) (m : StorageManager) : Type 0 where
  pub entry : OpenedFd
  pub is_open : lookup fd m.opened ≡ some entry
  pub at_cell : entry.offset ≡ some cell
  pub holds : lookup cell m.offsets ≡ some v

pub get_file_offset_lem :
    (fd : Fd) (cell : ℕ) (v : ℤ) (m : StorageManager)
    → HasOffset fd cell v m
    → get_file_offset fd m ≡ some (v, m)
unfolding get_file_offset at_fd
get_file_offset_lem fd cell v m h = ground (arith, h.is_open, h.at_cell, h.holds)

abbrev pub with_offset : ℕ → ℤ → StorageManager → StorageManager
with_offset cell v m = record m { offsets = insert cell v m.offsets }

pub set_file_offset_lem :
    (fd : Fd) (cell : ℕ) (old v : ℤ) (m : StorageManager)
    → HasOffset fd cell old m
    → set_file_offset fd v m ≡ some (tt, with_offset cell v m)
unfolding set_file_offset at_fd
set_file_offset_lem fd cell old v m h = ground (arith, h.is_open, h.at_cell)

-- A store into a cell is seen by each descriptor on the cell, and by no other.
pub HasOffset-same :
    (fd : Fd) (cell : ℕ) (old v : ℤ) (m : StorageManager)
    → HasOffset fd cell old m
    → HasOffset fd cell v (with_offset cell v m)
HasOffset-same fd cell old v m h = record {
  entry = h.entry;
  is_open = h.is_open;
  at_cell = h.at_cell;
  holds = lookup-insert_self cell v m.offsets;
}

pub HasOffset-other :
    (fd : Fd) (cell c : ℕ) (old v : ℤ) (m : StorageManager)
    → c ≢ cell
    → HasOffset fd cell old m
    → HasOffset fd cell old (with_offset c v m)
HasOffset-other fd cell c old v m ne h = record {
  entry = h.entry;
  is_open = h.is_open;
  at_cell = h.at_cell;
  holds = lookup-insert_ne c cell v m.offsets ne ∙ h.holds;
}

update_object_lem :
    (id : ℕ) (change : CapioFile → CapioFile) (f : CapioFile) (m : StorageManager)
    → lookup id m.objects ≡ some f
    → update_object id change m ≡ some (tt, record m { objects = insert id (change f) m.objects })
unfolding update_object
update_object_lem id change f m h = ground (arith, h)

-- dup leaves both descriptors on one cell.
module _ (tid old_fd new_fd id cell : ℕ) (v : ℤ) (f : CapioFile) (m : StorageManager)
    (h : HasOffset (tid, old_fd) cell v m) (p : h.entry.pointer ≡ some id)
    (o : lookup id m.objects ≡ some f) (ne : old_fd ≢ new_fd) where
  abbrev pub dup_result : StorageManager
  dup_result = record m {
    opened = insert (tid, new_fd) h.entry m.opened;
    objects = insert id (add_fd tid new_fd (open_file f)) (insert id (open_file f) m.objects);
  }

  dup_run : dup tid old_fd new_fd m ≡ some (tt, dup_result)
  unfolding dup at_fd set_entry update_object
  dup_run = ground (arith, h.is_open, p, o, lookup-insert_self id (open_file f) m.objects)

  new_HasOffset : HasOffset (tid, new_fd) cell v dup_result
  new_HasOffset = record {
    entry = h.entry;
    is_open = lookup-insert_self (tid, new_fd) h.entry m.opened;
    at_cell = h.at_cell;
    holds = h.holds;
  }

  old_HasOffset : HasOffset (tid, old_fd) cell v dup_result
  old_HasOffset = record {
    entry = h.entry;
    is_open =
        lookup-insert_ne (tid, new_fd) (tid, old_fd) h.entry m.opened
          (λ e. ne (sym (ap (λ (x : Fd). x.1) e)))
        ∙ h.is_open;
    at_cell = h.at_cell;
    holds = h.holds;
  }

  -- After dup of an open descriptor to another one, the two share their file offset: an offset set
  -- through either is what the other reads.
  pub dup_shares :
      (w : ℤ)
      → ((do dup tid old_fd new_fd; set_file_offset (tid, new_fd) w; get_file_offset (tid, old_fd))
            m
          ≡ some (w, with_offset cell w dup_result))
        × ((do
          dup tid old_fd new_fd
          set_file_offset (tid, old_fd) w
          get_file_offset (tid, new_fd))
              m
            ≡ some (w, with_offset cell w dup_result))
  dup_shares w = (
    chain old_fd new_fd old_HasOffset new_HasOffset,
    chain new_fd old_fd new_HasOffset old_HasOffset,
  )
    where
      chain :
          (a b : ℕ)
          → HasOffset (tid, a) cell v dup_result
          → HasOffset (tid, b) cell v dup_result
          → (do dup tid old_fd new_fd; set_file_offset (tid, b) w; get_file_offset (tid, a)) m
            ≡ some (w, with_offset cell w dup_result)
      chain a b ha hb =
          >>-run (dup tid old_fd new_fd) (set_file_offset (tid, b) w >> get_file_offset (tid, a)) m
            dup_result dup_run
          ∙ >>-run (set_file_offset (tid, b) w) (get_file_offset (tid, a)) dup_result
              (with_offset cell w dup_result) (set_file_offset_lem (tid, b) cell v w dup_result hb)
          ∙ get_file_offset_lem (tid, a) cell w (with_offset cell w dup_result)
              (HasOffset-same (tid, a) cell v w dup_result ha)

-- Opening a file.
module _ (fd : Fd) (path : String) (v : ℤ) (id : ℕ) (m : StorageManager)
    (p : lookup path m.storage ≡ some id) where
  abbrev pub fresh_fd : StorageManager
  fresh_fd = record m {
    offsets = insert m.next_offset v m.offsets;
    next_offset = suc m.next_offset;
    opened =
        insert fd (record { path = path; pointer = some id; offset = some m.next_offset }) m.opened;
  }

  pub add_new_fd_to_map_run : add_new_fd_to_map fd path v m ≡ some (tt, fresh_fd)
  unfolding add_new_fd_to_map at_path
  add_new_fd_to_map_run = ground (arith, p)

  fresh_HasOffset : HasOffset fd m.next_offset v fresh_fd
  fresh_HasOffset = record {
    entry = record { path = path; pointer = some id; offset = some m.next_offset };
    is_open =
        lookup-insert_self fd
          (record { path = path; pointer = some id; offset = some m.next_offset }) m.opened;
    at_cell = refl;
    holds = lookup-insert_self m.next_offset v m.offsets;
  }

  other_HasOffset :
      (other : Fd) (cell : ℕ) (u : ℤ)
      → other ≢ fd
      → cell < m.next_offset
      → HasOffset other cell u m
      → HasOffset other cell u fresh_fd
  other_HasOffset other cell u ne l h = record {
    entry = h.entry;
    is_open =
        lookup-insert_ne fd other
          (record { path = path; pointer = some id; offset = some m.next_offset }) m.opened
          (λ e. ne (sym e))
        ∙ h.is_open;
    at_cell = h.at_cell;
    holds = lookup-insert_ne m.next_offset cell v m.offsets (λ e. absurd (omega arith)) ∙ h.holds;
  }

  -- A new descriptor of a file that is there reads the offset that it was opened at, and an offset
  -- that is set through it is not seen by a descriptor that was open on another cell; so it is for
  -- the descriptors of a cloned thread, which clone opens this way.
  pub add_new_fd_to_map_lem :
      (other : Fd) (cell : ℕ) (u w : ℤ)
      → other ≢ fd
      → cell < m.next_offset
      → HasOffset other cell u m
      → ((do add_new_fd_to_map fd path v; get_file_offset fd) m ≡ some (v, fresh_fd))
        × ((do add_new_fd_to_map fd path v; set_file_offset fd w; get_file_offset other) m
            ≡ some (u, with_offset m.next_offset w fresh_fd))
  add_new_fd_to_map_lem other cell u w ne l h = (
    >>-run (add_new_fd_to_map fd path v) (get_file_offset fd) m fresh_fd add_new_fd_to_map_run
        ∙ get_file_offset_lem fd m.next_offset v fresh_fd fresh_HasOffset,
    >>-run (add_new_fd_to_map fd path v) (set_file_offset fd w >> get_file_offset other) m fresh_fd
          add_new_fd_to_map_run
        ∙ >>-run (set_file_offset fd w) (get_file_offset other) fresh_fd
            (with_offset m.next_offset w fresh_fd)
            (set_file_offset_lem fd m.next_offset v w fresh_fd fresh_HasOffset)
        ∙ get_file_offset_lem other cell u (with_offset m.next_offset w fresh_fd) (
            HasOffset-other other cell m.next_offset u w fresh_fd (λ e. absurd (omega arith))
              (other_HasOffset other cell u ne l h)),
  )
