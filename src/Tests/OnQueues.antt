-- ===== src/Tests/OnQueues.antt =====
-- A queue of three elements of two bytes that holds one.
use capio.Base.{ℕ, ◌≡◌, refl, List, [], ◌∷◌, ◌++◌, none, some, arith, take, ◌⊎◌}
use capio.Queue.{Queue, write_elem, read_elem}
use capio.Queue.Ring.{IsRing, contents, next}
use capio.Queue.Fifo.{write_elem_lem, read_elem_lem}

abbrev one : Queue
one = record {
  shm = λ x. x;
  max_num_elems = 3;
  elem_size = 2;
  first_elem = 4;
  last_elem = 0;
  sem_num_elems = 1;
  sem_num_empty = 2;
}

one-IsRing : IsRing 2 one
one-IsRing = record {
  some_size = omega arith;
  head_in = omega arith;
  first = refl;
  last = refl;
  total = refl;
}

write_elem_lem_example :
    ((one.sem_num_empty ≡ 0) × (write_elem (8 ∷ []) one ≡ none))
    ⊎ ((q' : Queue) × (e : List ℕ) × (write_elem (8 ∷ []) one ≡ some q')
        × IsRing 2 q'
        × (contents 2 q' ≡ contents 2 one ++ (e ∷ []))
        × (take 1 e ≡ 8 ∷ []))
write_elem_lem_example = write_elem_lem 2 one (8 ∷ []) one-IsRing (omega arith)

read_elem_lem_example :
    ((contents 2 one ≡ []) × (read_elem 1 one ≡ none))
    ⊎ ((q' : Queue) × (e : List ℕ) × (read_elem 1 one ≡ some (take 1 e, q'))
        × IsRing (next 3 2) q'
        × (contents 2 one ≡ e ∷ contents (next 3 2) q'))
read_elem_lem_example = read_elem_lem 2 1 one one-IsRing (omega arith)
