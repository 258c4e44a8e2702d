-- ===== src/File/Total.antt =====
-- A write to a file that lives in memory goes through: no branch of write_handler ends the server.
use capio.Base.{
  ℕ, ◌+◌, ◌≤◌, ◌≡◌, refl, some, List, ltb, arith, true, false, Bool-cases, Option-cases, inl, inr,
  length,
}
use capio.Base.Mem.{Mem, store}
use capio.Buffer.{System, heap, heap_allocate, grow, grown_size, copy_sectors, new_buffer}
use capio.File.{
  CapioFile, create_buffer, new_block, expand_buffer, read_from_queue, add_sector, write_block,
}
use capio.File.Data.{IsSound, Keeps, create_buffer-Keeps, expand_if_needed, expand_if_needed-Keeps}
use capio.File.Write.{write_file, write_file-Written, Written}

-- A file that lives in memory.
pub record InMemory (f : CapioFile) : Type 0 where
  pub not_permanent : f.permanent ≡ false
  pub on_heap : f.buffer.storage ≡ heap

-- The buffer has a block on the heap.
record Ready (f : CapioFile) : Type 0 where
  block : Mem
  is_block : f.buffer.block ≡ some block
  on_heap : f.buffer.storage ≡ heap

create_buffer_total :
    (sys : System) (f : CapioFile)
    → InMemory f
    → (g : CapioFile) × (create_buffer sys true f ≡ some g) × Ready g
unfolding create_buffer new_block heap_allocate
create_buffer_total sys f v = elim (Option-cases f.buffer.block) [
  | inr (m, p) ↦ (f, ground arith, record { block = m; is_block = p; on_heap = v.on_heap })
  | inl p ↦ (
    record f {
      buffer = (heap_allocate sys f.requested_size (new_buffer heap)).1;
      home_node = true;
    },
    ground (arith, v.not_permanent),
    record { block = sys.fresh; is_block = refl; on_heap = refl },
  )
]

expand_if_needed_total :
    (sys : System) (n : ℕ) (f : CapioFile)
    → Ready f
    → (g : CapioFile) × (expand_if_needed sys n f ≡ some g) × Ready g
unfolding expand_if_needed expand_buffer grow
expand_if_needed_total sys n f v = elim (Bool-cases (ltb f.buffer.size n)) [
  | inr p ↦ (f, rw p, v)
  | inl p ↦ (
    record f {
      buffer = record (f.buffer) {
        block = some (copy_sectors f.sectors v.block sys.fresh);
        size = grown_size sys n f.buffer.size;
      };
    },
    ground (arith, v.is_block, v.on_heap),
    record {
      block = copy_sectors f.sectors v.block sys.fresh;
      is_block = refl;
      on_heap = v.on_heap;
    },
  )
]

write_block_total :
    (offset : ℕ) (bytes : List ℕ) (f : CapioFile)
    → Ready f
    → offset + length bytes ≤ f.buffer.size
    → (g : CapioFile) × (write_block offset bytes f ≡ some g)
unfolding write_block
write_block_total offset bytes f v l = (
  record f { buffer = record (f.buffer) { block = some (store v.block offset bytes) } },
  ground (arith, v.is_block),
)

-- A write to a sound file in memory succeeds, and does what a write does.
pub write_file_total :
    (sys : System) (offset : ℕ) (bytes : List ℕ) (f : CapioFile)
    → IsSound f
    → InMemory f
    → (f' : CapioFile) × (write_file sys offset bytes f ≡ some f') × Written offset bytes f f'
unfolding write_file read_from_queue
write_file_total sys offset bytes f s v =
    let (g, p, r) = create_buffer_total sys f v in
    let (h, q, r') = expand_if_needed_total sys (offset + length bytes) g r in
    let kg : Keeps f g = create_buffer-Keeps sys true f g s p in
    let (k, e) =
      write_block_total offset bytes h r'
        (expand_if_needed-Keeps sys (offset + length bytes) g h kg.sound q).1 in
    let done : write_file sys offset bytes f ≡ some (add_sector offset (offset + length bytes) k) =
      rw (p, q, e) in
    (
      add_sector offset (offset + length bytes) k,
      done,
      write_file-Written sys offset bytes f _ s done,
    )
