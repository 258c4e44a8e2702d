-- ===== src/File.antt =====
-- CapioFile, capio/server/src/capio_file.cpp and capio/server/include/storage/capio_file.hpp.
-- ERR_EXIT ends the server: the operation is `none`. Locks and logging have no counterpart; the
-- condition variables are the predicates that the waiting threads test.
pub mod Data
pub mod Write
pub mod Total
pub mod Life
use capio.Base.{
  ℕ, zero, suc, ◌+◌, ◌-◌, ◌%◌, ◌^◌, ◌≤◌, ◌<◌, max, ◌≡◌, refl, Option, none, some, List, [], ◌∷◌,
  ◌++◌, ltb, leb, nat_beq, if◌then◌else◌, arith, Bool, true, false, ◌&&◌, ◌||◌, not, length,
}
use capio.Base.Int.{ℤ, pos, ◌+ℤ◌, ◌-ℤ◌, leb_ℤ}
use capio.Base.Mem.{Mem, memcpy, store}
use capio.Sectors.{Sectors, insert_sector, get_sector_end, get_file_size, seek_data, seek_hole}
use capio.Buffer.{
  System, Storage, heap, mapped, FileBuffer, new_buffer, empty, heap_allocate, mapped_allocate,
  commit, grow,
}

pub record CapioFile : Type 0 where
  pub buffer : FileBuffer
  pub requested_size : ℕ
  pub n_close : ℕ
  pub n_opens : ℤ
  pub n_files : ℕ
  pub n_files_expected : ℕ
  pub n_close_expected : ℕ
  pub home_node : Bool
  pub committed : Bool
  pub directory : Bool
  pub permanent : Bool
  pub first_write : Bool
  pub sectors : Sectors
  pub real_file_size : ℕ
  pub threads_fd : List (ℕ × ℕ)

-- CapioFile()
unfoldable pub empty_file : CapioFile
empty_file = record {
  buffer = new_buffer heap;
  requested_size = 0;
  n_close = 0;
  n_opens = pos 0;
  n_files = 0;
  n_files_expected = 0;
  n_close_expected = 0;
  home_node = false;
  committed = false;
  directory = false;
  permanent = false;
  first_write = true;
  sectors = [];
  real_file_size = 0;
  threads_fd = [];
}

-- The constructor that StorageManager::add calls; the two more files are `.` and `..`.
unfoldable pub new_file : Bool → ℕ → Bool → ℕ → ℕ → CapioFile
unfolding empty_file
new_file directory n_files_expected permanent init_size n_close_expected = record empty_file {
  requested_size = init_size;
  n_files_expected = (n_files_expected + 2) % 2 ^ 32;
  n_close_expected = n_close_expected;
  directory = directory;
  permanent = permanent;
}

-- What waitForData and waitForCommit wait for.
unfoldable pub data_available : ℕ → CapioFile → Bool
data_available offset f = leb offset (get_file_size f.sectors) || f.committed

abbrev pub is_committed : CapioFile → Bool
is_committed f = f.committed

unfoldable pub set_committed : Bool → CapioFile → CapioFile
set_committed commit f = record f { committed = commit }

unfoldable pub add_fd : ℕ → ℕ → CapioFile → CapioFile
add_fd tid fd f = record f { threads_fd = f.threads_fd ++ ((tid, fd) ∷ []) }

-- `erase` of the first entry that `find` meets.
unfoldable pub remove_first : ℕ → ℕ → List (ℕ × ℕ) → List (ℕ × ℕ)
remove_first tid fd [] = []
remove_first tid fd ((t, d) ∷ xs) =
    if nat_beq t tid && nat_beq d fd then xs else (t, d) ∷ remove_first tid fd xs

unfoldable pub remove_fd : ℕ → ℕ → CapioFile → CapioFile
remove_fd tid fd f = record f { threads_fd = remove_first tid fd f.threads_fd }

unfoldable pub open_file : CapioFile → CapioFile
open_file f = record f { n_opens = f.n_opens +ℤ pos 1 }

unfoldable pub close_file : CapioFile → CapioFile
close_file f = record f { n_close = f.n_close + 1; n_opens = f.n_opens -ℤ pos 1 }

unfoldable pub closed : CapioFile → Bool
closed f = nat_beq f.n_close_expected 0 || nat_beq f.n_close f.n_close_expected

unfoldable pub deletable : CapioFile → Bool
deletable f = leb_ℤ f.n_opens (pos 0)

-- ERR_EXIT where the buffer operation failed.
abbrev pub or_exit : Bool × FileBuffer → Option FileBuffer
or_exit (true, b) = some b
or_exit (false, b) = none

-- Only a mapped buffer of a permanent file on its home node is cut to its size and closed.
unfoldable pub dump : System → CapioFile → Option CapioFile
dump sys f =
    if f.permanent && not f.directory && f.home_node
    then elim f.buffer.storage [
      | heap ↦ some f
      | mapped ↦ elim (or_exit (commit sys (get_file_size f.sectors) f.buffer)) [
        | none ↦ none
        | some b ↦ some (record f { buffer = b })
      ]
    ]
    else some f

-- A permanent file on its home node is mapped, all else lives on the heap; `emplace` starts from a
-- buffer that holds nothing.
unfoldable pub new_block : System → Bool → CapioFile → Option FileBuffer
new_block sys home_node f =
    if f.permanent && home_node && not f.directory
    then or_exit (mapped_allocate sys f.requested_size (new_buffer mapped))
    else some (heap_allocate sys f.requested_size (new_buffer heap)).1

unfoldable pub create_buffer : System → Bool → CapioFile → Option CapioFile
create_buffer sys home_node f =
    if empty f.buffer
    then elim (new_block sys home_node f) [
      | none ↦ none
      | some b ↦ some (record f { buffer = b; home_node = home_node })
    ]
    else some f

unfoldable pub expand_buffer : System → ℕ → CapioFile → Option CapioFile
expand_buffer sys data_size f = elim (grow sys data_size f.sectors f.buffer) [
  | none ↦ none
  | some b ↦ some (record f { buffer = b })
]

-- insertSector wakes the threads that wait for data.
unfoldable pub add_sector : ℕ → ℕ → CapioFile → CapioFile
add_sector new_start new_end f = record f { sectors = insert_sector new_start new_end f.sectors }

-- Put bytes into the block; without a block, or past its end, the write faults.
unfoldable pub write_block : ℕ → List ℕ → CapioFile → Option CapioFile
write_block offset bytes f = elim f.buffer.block [
  | none ↦ none
  | some m ↦
      if leb (offset + length bytes) f.buffer.size
      then some (record f { buffer = record (f.buffer) { block = some (store m offset bytes) } })
      else none
]

-- readFromQueue, with the bytes that the queue hands out; readFromNode, with those that the backend
-- receives.
unfoldable pub read_from_queue : ℕ → List ℕ → CapioFile → Option CapioFile
read_from_queue offset bytes f = write_block offset bytes f

unfoldable pub read_from_node : ℕ → List ℕ → CapioFile → Option CapioFile
read_from_node offset bytes f = write_block offset bytes f

-- copyFromFile, from the block of another file or, as memmove does, of the file itself: the source
-- is read as it was before the copy. Past the end of either block the copy faults.
unfoldable pub copy_from_file : FileBuffer → ℕ → ℕ → ℕ → CapioFile → Option CapioFile
copy_from_file src src_offset dst_offset num_bytes f = elim src.block [
  | none ↦ none
  | some s ↦ elim f.buffer.block [
    | none ↦ none
    | some m ↦
        if leb (src_offset + num_bytes) src.size && leb (dst_offset + num_bytes) f.buffer.size
        then some (record f {
          buffer = record (f.buffer) { block = some (memcpy m dst_offset s src_offset num_bytes) };
        })
        else none
  ]
]

unfoldable pub set_real_file_size : ℕ → CapioFile → CapioFile
set_real_file_size size f = record f { real_file_size = size }

unfoldable pub register_first_write : CapioFile → CapioFile
register_first_write f = record f { first_write = false }

unfoldable pub increment_directory_file_count : ℕ → CapioFile → CapioFile
increment_directory_file_count count f = record f { n_files = f.n_files + count }
