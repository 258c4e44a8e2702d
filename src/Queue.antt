-- ===== src/Queue.antt =====
-- The shared-memory queue, capio/common/queue.hpp: a ring of elements of fixed size between one
-- producer and one consumer. The two counting semaphores are numbers; an operation that would block
-- on its semaphore is `none`, and the caller tries again. Creating and destroying the shared memory
-- is not modelled.
pub mod Ring
pub mod Fifo
use capio.Base.{
  ℕ, zero, suc, ◌+◌, ◌-◌, ◌*◌, ◌/◌, ◌%◌, ◌≤◌, ◌<◌, ◌≡◌, Option, none, some, List, [], ◌∷◌, ◌++◌,
  nat_beq, if◌then◌else◌, length, take, drop, ◌>>=◌,
}
use capio.Base.Mem.{Mem, store, load}

pub record Queue : Type 0 where
  pub shm : Mem
  pub max_num_elems : ℕ
  pub elem_size : ℕ
  pub first_elem : ℕ
  pub last_elem : ℕ
  pub sem_num_elems : ℕ
  pub sem_num_empty : ℕ

abbrev pub buff_size : Queue → ℕ
buff_size q = q.max_num_elems * q.elem_size

-- The constructor, where the shared memory does not exist yet.
unfoldable pub new_queue : Mem → ℕ → ℕ → Queue
new_queue shm max_num_elems elem_size = record {
  shm = shm;
  max_num_elems = max_num_elems;
  elem_size = elem_size;
  first_elem = 0;
  last_elem = 0;
  sem_num_elems = 0;
  sem_num_empty = max_num_elems;
}

-- _read: the first `num_bytes` bytes of the oldest element, which is then free.
unfoldable pub read_elem : ℕ → Queue → Option (List ℕ × Queue)
read_elem num_bytes q =
    if nat_beq q.sem_num_elems 0
    then none
    else some (
      load q.shm q.first_elem num_bytes,
      record q {
        first_elem = (q.first_elem + q.elem_size) % buff_size q;
        sem_num_elems = q.sem_num_elems - 1;
        sem_num_empty = q.sem_num_empty + 1;
      },
    )

-- _write: the bytes become the newest element.
unfoldable pub write_elem : List ℕ → Queue → Option Queue
write_elem bytes q =
    if nat_beq q.sem_num_empty 0
    then none
    else some (record q {
      shm = store q.shm q.last_elem bytes;
      last_elem = (q.last_elem + q.elem_size) % buff_size q;
      sem_num_empty = q.sem_num_empty - 1;
      sem_num_elems = q.sem_num_elems + 1;
    })

-- fetch and reserve hand out the offset of an element in the shared memory, to be read or written
-- in place.
unfoldable pub fetch : Queue → Option (ℕ × Queue)
fetch q =
    if nat_beq q.sem_num_elems 0
    then none
    else some (
      q.first_elem,
      record q {
        first_elem = (q.first_elem + q.elem_size) % buff_size q;
        sem_num_elems = q.sem_num_elems - 1;
        sem_num_empty = q.sem_num_empty + 1;
      },
    )

unfoldable pub reserve : Queue → Option (ℕ × Queue)
reserve q =
    if nat_beq q.sem_num_empty 0
    then none
    else some (
      q.last_elem,
      record q {
        last_elem = (q.last_elem + q.elem_size) % buff_size q;
        sem_num_empty = q.sem_num_empty - 1;
        sem_num_elems = q.sem_num_elems + 1;
      },
    )

-- The loop of write over the whole elements of the data.
unfoldable pub write_elems : ℕ → List ℕ → Queue → Option Queue
write_elems zero bytes q = some q
write_elems (suc n) bytes q = do
  q' ← write_elem (take q.elem_size bytes) q
  write_elems n (drop q.elem_size bytes) q'

-- The bytes left over go into one more element.
unfoldable pub write : List ℕ → Queue → Option Queue
write bytes q =
    let size = q.elem_size in
    let n_writes = length bytes / size in
    let r = length bytes % size in
    write_elems n_writes bytes q >>= λ q'.
    if nat_beq r 0 then some q' else write_elem (drop (n_writes * size) bytes) q'

-- The loop of read, and what it has read.
unfoldable pub read_elems : ℕ → Queue → Option (List ℕ × Queue)
read_elems zero q = some ([], q)
read_elems (suc n) q = do
  (bytes, q') ← read_elem q.elem_size q
  (rest, q'') ← read_elems n q'
  some (bytes ++ rest, q'')

unfoldable pub read : ℕ → Queue → Option (List ℕ × Queue)
read num_bytes q = do
  let r = num_bytes % q.elem_size
  (bytes, q') ← read_elems (num_bytes / q.elem_size) q
  if nat_beq r 0
      then some (bytes, q')
      else read_elem r q' >>= λ (rest, q''). some (bytes ++ rest, q'')
