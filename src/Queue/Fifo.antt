-- ===== src/Queue/Fifo.antt =====
-- What each operation of the queue does to the elements that it holds.
use capio.Base.{
  ℕ, suc, ◌+◌, ◌-◌, ◌*◌, ◌%◌, ◌≤◌, ◌<◌, ◌≡◌, ◌≢◌, refl, ap, none, some, List, [], ◌∷◌, ◌++◌,
  nat_beq, length, take, arith, sym, ◌∙◌, ◌⊎◌, inl, inr, Bool-cases, subst, nat_beq_iff,
}
use native.Mathlib.Nat.{mod-eq_of_lt, mod-lt}
use native.Mathlib.Numerals.{add-one}
use capio.Base.Mem.{Mem, store, load, load-store, take-load}
use capio.Queue.{Queue, buff_size, new_queue, read_elem, write_elem}
use capio.Queue.Ring.{
  IsRing, contents, elems, next, elems-snoc, elems-store, next_last, next_first, next-add,
}

-- The queue after a write, and the element that was added.
module _ (h : ℕ) (q : Queue) (bytes : List ℕ) where
  abbrev after_write : Queue
  after_write = record q {
    shm = store q.shm q.last_elem bytes;
    last_elem = (q.last_elem + q.elem_size) % buff_size q;
    sem_num_empty = q.sem_num_empty - 1;
    sem_num_elems = q.sem_num_elems + 1;
  }

  after_write-IsRing : IsRing h q → q.sem_num_empty ≢ 0 → IsRing h after_write
  after_write-IsRing v ne = record {
    some_size = v.some_size;
    head_in = v.head_in;
    first = v.first;
    last = next_last h q v;
    total = omega (arith, v.total);
  }

  -- The element that the write adds.
  abbrev added : List ℕ
  added = load (store q.shm q.last_elem bytes) q.last_elem q.elem_size

  added-take : length bytes ≤ q.elem_size → take (length bytes) added ≡ bytes
  added-take l =
      let m : Mem = store q.shm q.last_elem bytes in
      take-load m q.last_elem (length bytes) q.elem_size l ∙ load-store q.shm q.last_elem bytes

  after_write-contents :
      IsRing h q
      → q.sem_num_empty ≢ 0
      → length bytes ≤ q.elem_size
      → contents h after_write ≡ contents h q ++ (added ∷ [])
  after_write-contents v ne l =
      let n : ℕ = q.max_num_elems in
      let i : ℕ = (h + q.sem_num_elems) % n in
      let m : Mem = store q.shm (i * q.elem_size) bytes in
      ap (λ k. elems (store q.shm q.last_elem bytes) n q.elem_size h k) (add-one q.sem_num_elems)
      ∙ subst
          (λ o.
            elems (store q.shm o bytes) n q.elem_size h (suc q.sem_num_elems)
            ≡ elems q.shm n q.elem_size h q.sem_num_elems
              ++ (load (store q.shm o bytes) o q.elem_size ∷ []))
          (sym v.last)
          (elems-snoc m n q.elem_size h q.sem_num_elems v.head_in
            ∙ ap (λ t. t ++ (load m (i * q.elem_size) q.elem_size ∷ []))
                (elems-store q.shm n q.elem_size i bytes l h q.sem_num_elems v.head_in
                  (omega (arith, v.total)) refl))

-- Writing an element that fits: a full queue blocks, and any other holds the bytes, at the start of
-- an element behind those that it held.
pub write_elem_lem :
    (h : ℕ) (q : Queue) (bytes : List ℕ)
    → IsRing h q
    → length bytes ≤ q.elem_size
    → ((q.sem_num_empty ≡ 0) × (write_elem bytes q ≡ none))
      ⊎ ((q' : Queue) × (e : List ℕ) × (write_elem bytes q ≡ some q')
          × IsRing h q'
          × (contents h q' ≡ contents h q ++ (e ∷ []))
          × (take (length bytes) e ≡ bytes))
unfolding write_elem
write_elem_lem h q bytes v l = elim (Bool-cases (nat_beq q.sem_num_empty 0)) [
  | inl z ↦ inl (ground arith, rw z)
  | inr z ↦
      let ne : q.sem_num_empty ≢ 0 = ground arith in
      inr (
        after_write h q bytes,
        added h q bytes,
        rw z,
        after_write-IsRing h q bytes v ne,
        after_write-contents h q bytes v ne l,
        added-take h q bytes l,
      )
]

abbrev after_read : Queue → Queue
after_read q = record q {
  first_elem = (q.first_elem + q.elem_size) % buff_size q;
  sem_num_elems = q.sem_num_elems - 1;
  sem_num_empty = q.sem_num_empty + 1;
}

after_read-IsRing :
    (h : ℕ) (q : Queue)
    → IsRing h q
    → q.sem_num_elems ≢ 0
    → IsRing (next q.max_num_elems h) (after_read q)
after_read-IsRing h q v ne = record {
  some_size = v.some_size;
  head_in = mod-lt (h + 1) (omega (arith, v.head_in));
  first = next_first h q v;
  last =
      v.last
      ∙ ap (λ t. t * q.elem_size)
          (ap (λ k. (h + k) % q.max_num_elems) (omega arith)
            ∙ next-add q.max_num_elems h (q.sem_num_elems - 1));
  total = omega (arith, v.total);
}

-- Reading: an empty queue blocks, and any other hands out the first bytes of its oldest element and
-- holds the rest.
pub read_elem_lem :
    (h n : ℕ) (q : Queue)
    → IsRing h q
    → n ≤ q.elem_size
    → ((contents h q ≡ []) × (read_elem n q ≡ none))
      ⊎ ((q' : Queue) × (e : List ℕ) × (read_elem n q ≡ some (take n e, q'))
          × IsRing (next q.max_num_elems h) q'
          × (contents h q ≡ e ∷ contents (next q.max_num_elems h) q'))
unfolding read_elem
read_elem_lem h n q v l = elim (Bool-cases (nat_beq q.sem_num_elems 0)) [
  | inl z ↦ inl (
    ap (λ k. elems q.shm q.max_num_elems q.elem_size h k) ((nat_beq_iff q.sem_num_elems 0).0 z),
    rw z,
  )
  | inr z ↦
      let ne : q.sem_num_elems ≢ 0 = ground arith in
      let k : q.sem_num_elems ≡ suc (q.sem_num_elems - 1) = omega arith in
      inr (
        after_read q,
        load q.shm (h * q.elem_size) q.elem_size,
        rw z (
            ap (λ t. some (t, after_read q))
              (ap (λ o. load q.shm o n) v.first
                ∙ sym (take-load q.shm (h * q.elem_size) n q.elem_size l))),
        after_read-IsRing h q v ne,
        ap (λ k. elems q.shm q.max_num_elems q.elem_size h k) k,
      )
]

-- A new queue is an empty ring.
pub new_queue-IsRing :
    (m : Mem) (n size : ℕ)
    → 0 < n
    → 0 < size
    → IsRing 0 (new_queue m n size) × (contents 0 (new_queue m n size) ≡ [])
unfolding new_queue
new_queue-IsRing m n size h k = (
  record {
    some_size = k;
    head_in = h;
    first = omega arith;
    last = rw (mod-eq_of_lt h) (omega arith);
    total = omega arith;
  },
  refl,
)
