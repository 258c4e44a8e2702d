-- ===== src/Buffer.antt =====
-- FileBuffer and its two storage strategies: capio/server/include/storage/file_buffer.hpp, and
-- interfaces/heap.hpp and interfaces/mapped.hpp beside it. What the system calls answer, what a new
-- block holds, and what the memory quota reads are arguments.
pub mod Grow
use capio.Base.{
  ℕ, zero, suc, ◌+◌, ◌-◌, ◌*◌, ◌≤◌, ◌<◌, max, ◌≡◌, refl, Option, none, some, List, [], ◌∷◌, ltb,
  leb, if◌then◌else◌, arith, Bool, true, false, ◌&&◌, not,
}
use capio.Base.Mem.{Mem, memcpy}
use capio.Sectors.{Sectors}
use capio.Quota.{Readings, compute_allocable_mem_quota}

-- The answers of the system to the calls of one operation.
pub record System : Type 0 where
  pub readings : Readings
  -- The bytes of a block that `new char[]` hands out.
  pub fresh : Mem
  -- The bytes of the file that is opened; past its end, zeros.
  pub disk : Mem
  pub open_ok : Bool
  pub ftruncate_ok : Bool
  pub mmap_ok : Bool
  pub close_ok : Bool

-- HeapStorageInterface and MappedStorageInterface.
pub data Storage : Type 0 where
  heap mapped : Storage

-- `block` is the buffer base and what it points to; `none` is the null pointer. `fd` says whether
-- the backing file is open.
pub record FileBuffer : Type 0 where
  pub storage : Storage
  pub block : Option Mem
  pub size : ℕ
  pub fd : Bool
  pub map_len : ℕ

-- `_buffer.emplace<...>()`: a buffer that holds nothing.
abbrev pub new_buffer : Storage → FileBuffer
new_buffer s = record { storage = s; block = none; size = 0; fd = false; map_len = 0 }

abbrev pub empty : FileBuffer → Bool
empty b = elim b.block [ none ↦ true | some m ↦ false ]

-- HeapStorageInterface::allocate, behind the test of FileBuffer::allocate.
unfoldable pub heap_allocate : System → ℕ → FileBuffer → Bool × FileBuffer
heap_allocate sys requested b =
    if empty b
    then (
      true,
      record b {
        block = some sys.fresh;
        size = compute_allocable_mem_quota sys.readings requested;
      },
    )
    else (false, b)

-- MappedStorageInterface::allocate, behind the test of FileBuffer::allocate. A failure leaves the
-- size set, and no file open.
unfoldable pub mapped_allocate : System → ℕ → FileBuffer → Bool × FileBuffer
mapped_allocate sys requested b =
    if empty b
    then if sys.open_ok && sys.ftruncate_ok
      then if sys.mmap_ok
        then (true, record b { block = some sys.disk; size = size; fd = true; map_len = size })
        else (false, record b { block = none; size = size; fd = false })
      else (false, record b { size = size; fd = false })
    else (false, b)
  where
    size : ℕ
    size = compute_allocable_mem_quota sys.readings requested

-- MappedStorageInterface::commit: the file is cut to its size and closed, and the mapping stays.
-- A heap buffer cannot be committed.
unfoldable pub commit : System → ℕ → FileBuffer → Bool × FileBuffer
commit sys committed b = elim b.storage [
  | heap ↦ (false, b)
  | mapped ↦
      if b.fd && sys.ftruncate_ok
      then if sys.close_ok
        then (true, record b { size = committed; fd = false })
        else (false, record b { size = committed })
      else (false, b)
]

-- The loop of HeapStorageInterface::grow.
unfoldable pub copy_sectors : Sectors → Mem → Mem → Mem
copy_sectors [] old new = new
copy_sectors ((lo, hi) ∷ xs) old new = copy_sectors xs old (memcpy new lo old lo (hi - lo))

-- MappedStorageInterface::grow keeps the mapped bytes; those past the old mapping are the file's.
extend_mapping : System → ℕ → Mem → Mem
extend_mapping sys len m x = if ltb x len then m x else sys.disk x

-- The new size that FileBuffer::grow asks for.
abbrev pub grown_size : System → ℕ → ℕ → ℕ
grown_size sys data_size size = max data_size (compute_allocable_mem_quota sys.readings (size * 2))

-- HeapStorageInterface::grow: without a block there is nothing to copy from.
heap_grow : System → ℕ → Sectors → FileBuffer → Option FileBuffer
heap_grow sys new_size sectors b = elim b.block [
  | some m ↦ some (record b { block = some (copy_sectors sectors m sys.fresh); size = new_size })
  | none ↦ elim sectors [
    | [] ↦ some (record b { block = some sys.fresh; size = new_size })
    | x ∷ xs ↦ none
  ]
]

mapped_grow : System → ℕ → FileBuffer → Option FileBuffer
mapped_grow sys new_size b = elim b.block [
  | none ↦ none
  | some m ↦
      if b.fd && sys.ftruncate_ok && sys.mmap_ok
      then some (record b {
        block = some (extend_mapping sys b.map_len m);
        size = new_size;
        map_len = new_size;
      })
      else none
]

-- FileBuffer::grow; `none` is its null pointer.
unfoldable pub grow : System → ℕ → Sectors → FileBuffer → Option FileBuffer
unfolding extend_mapping heap_grow mapped_grow
grow sys data_size sectors b = elim b.storage [
  | heap ↦ heap_grow sys (grown_size sys data_size b.size) sectors b
  | mapped ↦ mapped_grow sys (grown_size sys data_size b.size) b
]

-- FileBuffer::release with the `freeBuffer` of its storage.
unfoldable pub release : FileBuffer → FileBuffer
release b = record { storage = b.storage; block = none; size = 0; fd = false; map_len = 0 }
