-- ===== src/Queue/Ring.antt =====
-- The ring of elements is a FIFO: the invariant of its offsets and semaphores, and what each
-- operation does to the elements that it holds.
use capio.Base.{
  ℕ, zero, suc, ◌+◌, ◌-◌, ◌*◌, ◌%◌, ◌≤◌, ◌<◌, ◌≡◌, ◌≢◌, refl, ap, ap₂, List, [], ◌∷◌, ◌++◌, length,
  arith, sym, ◌∙◌, ◌⊎◌, inl, inr, dec_lt,
}
use native.Mathlib.Nat.{
  add-zero, mod-eq_of_lt, mod_self, mod-lt, mod-add-mod, mod-eq-sub-mod, mul-le-mul_right,
}
use capio.Base.Mem.{Mem, store, load, store-outside, load_ext}
use capio.Queue.{Queue, buff_size}

-- The index that follows `h` in a ring of `n`.
abbrev pub next : ℕ → ℕ → ℕ
next n h = (h + 1) % n

-- The elements, as lists of `size` bytes, from index `h` on.
abbrev pub elems : Mem → ℕ → ℕ → ℕ → ℕ → List (List ℕ)
elems m n size h zero = []
elems m n size h (suc k) = load m (h * size) size ∷ elems m n size (next n h) k

-- `h` is the index of the oldest element.
pub record IsRing (h : ℕ) (q : Queue) : Type 0 where
  pub some_size : 0 < q.elem_size
  pub head_in : h < q.max_num_elems
  pub first : q.first_elem ≡ h * q.elem_size
  pub last : q.last_elem ≡ ((h + q.sem_num_elems) % q.max_num_elems) * q.elem_size
  pub total : q.sem_num_elems + q.sem_num_empty ≡ q.max_num_elems

abbrev pub contents : ℕ → Queue → List (List ℕ)
contents h q = elems q.shm q.max_num_elems q.elem_size h q.sem_num_elems

-- The block of an element ends before the block of a later one starts.
block_le : (a b size : ℕ) → a < b → a * size + size ≤ b * size
block_le a b size h = omega (arith, mul-le-mul_right size h)

-- The next element starts where the code's sum of offsets comes round to.
step_lem : (h n size : ℕ) → h < n → 0 < size → (h * size + size) % (n * size) ≡ next n h * size
step_lem h n size l p = elim (dec_lt (h + 1) n) [
  | yes k ↦
      let e : next n h ≡ h + 1 = mod-eq_of_lt k in
      let a : h * size + size < n * size = omega (arith, block_le (h + 1) n size k) in
      rw e (mod-eq_of_lt a ∙ (omega arith))
  | no k ↦
      let e : n ≡ h + 1 = omega arith in
      let a : next n h ≡ 0 = rw e (mod_self (h + 1)) in
      let b : h * size + size ≡ n * size = rw e (omega arith) in
      rw (a, b) (mod_self (n * size) ∙ (omega arith))
]

-- The blocks of two elements do not meet.
blocks_apart :
    (i j size x : ℕ)
    → i ≢ j
    → j * size ≤ x
    → x < j * size + size
    → (x < i * size) ⊎ (i * size + size ≤ x)
blocks_apart i j size x n h k = elim (dec_lt i j) [
  | yes l ↦ inr (omega (arith, block_le i j size l))
  | no l ↦ inl (omega (arith, block_le j i size (omega arith)))
]

pub next-add : (n h k : ℕ) → (h + suc k) % n ≡ (next n h + k) % n
next-add n h k = rw (mod-add-mod (h + 1) n k) (ap (λ t. t % n) (omega arith))

-- Fewer than `n` steps round the ring do not come back.
later_ne : (n h k : ℕ) → h < n → k < n → 0 < k → (h + k) % n ≢ h
later_ne n h k a b c q = elim (dec_lt (h + k) n) [
  | yes l ↦ omega (arith, mod-eq_of_lt l)
  | no l ↦ omega (
    arith,
    mod-eq-sub-mod {n = h + k} {m = n} (omega arith),
    mod-eq_of_lt {n = h + k - n} {m = n} (omega arith),
  )
]

module _ (m : Mem) (n size i : ℕ) (bytes : List ℕ) (l : length bytes ≤ size) where
  -- Writing to a block leaves the other elements alone.
  load-store_other :
      (j : ℕ) → i ≢ j → load (store m (i * size) bytes) (j * size) size ≡ load m (j * size) size
  load-store_other j ne =
      load_ext (store m (i * size) bytes) m (j * size) size
        (λ x h k. store-outside m (i * size) x bytes (apart x (blocks_apart i j size x ne h k)))
    where
      apart :
          (x : ℕ)
          → (x < i * size) ⊎ (i * size + size ≤ x)
          → (x < i * size) ⊎ (i * size + length bytes ≤ x)
      apart x d = omega arith

  -- Writing behind the newest element leaves the elements of the ring alone.
  pub elems-store :
      (h k : ℕ)
      → h < n
      → k < n
      → i ≡ (h + k) % n
      → elems (store m (i * size) bytes) n size h k ≡ elems m n size h k
  elems-store h zero a b e = refl
  elems-store h (suc k) a b e =
      ap₂ ◌∷◌ (load-store_other h (λ q. later_ne n h (suc k) a b (omega arith) (sym e ∙ q)))
        (elems-store (next n h) k (mod-lt (h + 1) (omega arith)) (omega arith) (e ∙ next-add n h k))

-- Adding an element at the end.
pub elems-snoc :
    (m : Mem) (n size h k : ℕ)
    → h < n
    → elems m n size h (suc k) ≡ elems m n size h k ++ (load m (((h + k) % n) * size) size ∷ [])
elems-snoc m n size h zero l =
    let e : (h + 0) % n ≡ h = rw add-zero (mod-eq_of_lt l) in
    ap (λ t. load m (t * size) size ∷ []) (sym e)
elems-snoc m n size h (suc k) l = ap (◌∷◌ (load m (h * size) size)) (
    elems-snoc m n size (next n h) k (mod-lt (h + 1) (omega arith))
    ∙ ap (λ t. elems m n size (next n h) k ++ (load m (t * size) size ∷ [])) (sym (next-add n h k)))

module _ (h : ℕ) (q : Queue) (v : IsRing h q) where
  pub next_last :
      (q.last_elem + q.elem_size) % buff_size q
      ≡ ((h + (q.sem_num_elems + 1)) % q.max_num_elems) * q.elem_size
  next_last =
      let n : ℕ = q.max_num_elems in
      let l : ℕ = (h + q.sem_num_elems) % n in
      rw (v.last) (
        step_lem l n q.elem_size (mod-lt (h + q.sem_num_elems) (omega arith)) v.some_size
        ∙ ap (λ t. t * q.elem_size)
            (mod-add-mod (h + q.sem_num_elems) n 1 ∙ ap (λ t. t % n) (omega arith)))

  pub next_first : (q.first_elem + q.elem_size) % buff_size q ≡ next q.max_num_elems h * q.elem_size
  next_first = rw (v.first) (step_lem h q.max_num_elems q.elem_size v.head_in v.some_size)
