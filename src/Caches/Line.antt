-- ===== src/Caches/Line.antt =====
-- A line of the write cache: what flushing it and adding to it do.
use capio.Base.{
  ℕ, zero, suc, ◌+◌, ◌*◌, ◌/◌, ◌%◌, ◌≤◌, ◌<◌, ◌≡◌, refl, ap, Option, none, some, List, [], ◌∷◌,
  ◌++◌, nat_beq, false, length, length-append, take, arith, sym, ◌∙◌, subst, subst₂, dec_lt,
}
use mathlib.Core.List.{append-nil}
use native.Mathlib.Nat.{div-eq_of_lt, mod-eq_of_lt, div_self, mod_self}
use capio.Caches.{
  Request, WriteCache, fill, split, whole_elements, flush, reserve_line, append_line,
}

-- The bytes of a write, each with the descriptor that it is for.
abbrev pub tagged : Option ℕ → List ℕ → List (Option ℕ × ℕ)
tagged fd [] = []
tagged fd (b ∷ bs) = (fd, b) ∷ tagged fd bs

-- The server takes as many bytes out of the queue as each request says, and so as many elements as
-- the queue cuts them into. These requests and elements give it these bytes.
pub data Sent (size : ℕ) : List Request → List (List ℕ) → List (Option ℕ × ℕ) → Type 0 where
  nothing : Sent size [] [] []
  one_more :
      (fd : Option ℕ) (bytes : List ℕ) (rs : List Request) (es : List (List ℕ))
      (st : List (Option ℕ × ℕ))
      → Sent size rs es st
      → Sent size
          (rs ++ (record { fd = fd; count = length bytes } ∷ []))
          (es ++ split size bytes)
          (st ++ tagged fd bytes)

-- A cache of lines of `size` bytes: what the server has been told to take, and the line that waits.
pub data Cached (size : ℕ) : WriteCache → List (Option ℕ × ℕ) → List ℕ → Type 0 where
  no_line :
      (fd : Option ℕ) (rs : List Request) (es : List (List ℕ)) (st : List (Option ℕ × ℕ))
      → Sent size rs es st
      → Cached size
          (record {
            cache = none;
            fd = fd;
            max_line_size = size;
            actual_size = 0;
            elements = es;
            requests = rs;
          })
          st
          []
  a_line :
      (fd : Option ℕ) (rs : List Request) (es : List (List ℕ)) (st : List (Option ℕ × ℕ))
      (line : List ℕ)
      → Sent size rs es st
      → 0 < length line
      → length line ≤ size
      → Cached size
          (record {
            cache = some (length es);
            fd = fd;
            max_line_size = size;
            actual_size = length line;
            elements = es ++ (line ∷ []);
            requests = rs;
          })
          st
          line

pub tagged-append :
    (fd : Option ℕ) (xs ys : List ℕ) → tagged fd (xs ++ ys) ≡ tagged fd xs ++ tagged fd ys
tagged-append fd [] ys = refl
tagged-append fd (x ∷ xs) ys = ap (◌∷◌ (fd, x)) (tagged-append fd xs ys)

pub take_all : (xs : List ℕ) (n : ℕ) → length xs ≤ n → take n xs ≡ xs
take_all [] zero h = refl
take_all [] (suc n) h = refl
take_all (x ∷ xs) zero h = absurd (omega arith)
take_all (x ∷ xs) (suc n) h = ap (◌∷◌ x) (take_all xs n (omega arith))

fill_last :
    (es : List (List ℕ)) (n : ℕ) (bytes e : List ℕ)
    → fill (length es) n bytes (es ++ (e ∷ [])) ≡ es ++ ((take n e ++ bytes) ∷ [])
unfolding fill
fill_last [] n bytes e = refl
fill_last (x ∷ es) n bytes e = ap (◌∷◌ x) (fill_last es n bytes e)

split_one :
    (size : ℕ) (line : List ℕ) → 0 < length line → length line ≤ size → split size line ≡ line ∷ []
unfolding split whole_elements
split_one size line h k = elim (dec_lt (length line) size) [
  | yes l ↦
      let e : nat_beq (length line) 0 ≡ false = ground arith in
      let z : 0 * size ≡ 0 = omega arith in rw (split, div-eq_of_lt l, mod-eq_of_lt l, e, z) refl
  | no l ↦
      let e : length line ≡ size = omega arith in
      let d : length line / size ≡ 1 = rw e (div_self (omega arith)) in
      let m : length line % size ≡ 0 = rw e (mod_self size) in
      rw (split, d, m) (ap (λ x. x ∷ []) (take_all line size k))
]

-- A cache with no line, and one with a line of `n` bytes at place `i`.
abbrev pub idle : ℕ → Option ℕ → List Request → List (List ℕ) → WriteCache
idle size fd rs es = record {
  cache = none;
  fd = fd;
  max_line_size = size;
  actual_size = 0;
  elements = es;
  requests = rs;
}

abbrev busy : ℕ → Option ℕ → List Request → ℕ → ℕ → List (List ℕ) → WriteCache
busy size fd rs i n es = record {
  cache = some i;
  fd = fd;
  max_line_size = size;
  actual_size = n;
  elements = es;
  requests = rs;
}

pub flush-Cached :
    (size : ℕ) (c : WriteCache) (st : List (Option ℕ × ℕ)) (line : List ℕ)
    → Cached size c st line
    → Cached size (flush c) (st ++ tagged c.fd line) []
unfolding flush
flush-Cached size _ st _ (no_line fd rs es _ v) =
    subst (λ s. Cached size (idle size fd rs es) s []) (sym (append-nil st)) (no_line fd rs es st v)
flush-Cached size _ st line (a_line fd rs es _ _ v h k) =
    let e : nat_beq (length line) 0 ≡ false = ground arith in
    let r : List Request = rs ++ (record { fd = fd; count = length line } ∷ []) in
    rw e (
      no_line fd r (es ++ (line ∷ [])) (st ++ tagged fd line) (
        subst (λ x. Sent size r (es ++ x) (st ++ tagged fd line)) (split_one size line h k)
          (one_more fd line rs es st v)))

pub append-Cached :
    (size : ℕ) (bytes : List ℕ) (c : WriteCache) (st : List (Option ℕ × ℕ)) (line : List ℕ)
    → Cached size c st line
    → 0 < length bytes
    → length line + length bytes ≤ size
    → Cached size (append_line bytes (reserve_line c)) st (line ++ bytes)
unfolding append_line reserve_line
append-Cached size bytes _ st _ (no_line fd rs es _ v) h k =
    subst₂ (λ n x. Cached size (busy size fd rs (length es) n x) st bytes) (omega arith)
      (sym (fill_last es 0 bytes [])) (a_line fd rs es st bytes v h (omega arith))
append-Cached size bytes _ st line (a_line fd rs es _ _ v g l) h k =
    let len : length (line ++ bytes) ≡ length line + length bytes = length-append line bytes in
    subst₂ (λ n x. Cached size (busy size fd rs (length es) n x) st (line ++ bytes)) len
      (sym (
        fill_last es (length line) bytes line
        ∙ ap (λ x. es ++ ((x ++ bytes) ∷ [])) (take_all line (length line) (omega arith))))
      (a_line fd rs es st (line ++ bytes) v (omega arith) (omega arith))
