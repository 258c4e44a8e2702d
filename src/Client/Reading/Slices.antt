-- ===== src/Client/Reading/Slices.antt =====
-- Parts of the bytes of a file, as the read cache hands them out.
use capio.Base.{
  ℕ, zero, suc, ◌+◌, ◌-◌, ◌*◌, ◌/◌, ◌%◌, ◌≤◌, ◌<◌, ◌≡◌, refl, ap, ap₂, subst, sym, ◌∙◌, List, [],
  ◌∷◌, ◌++◌, length, take, drop, arith, nat_beq, if◌then◌else◌, length-take, length-drop, min,
  dec_lt, false,
}
use capio.Caches.{split, whole_elements}
use capio.Caches.Line.{take_all}
use capio.Caches.Received.{take-add, take-nil}
use native.Mathlib.Nat.{
  div-add-mod', div-eq_of_lt, div_self, zero-div, mod-eq_of_lt, mod_self, mod-lt, zero-mod,
}

drop-nil : (n : ℕ) → drop {A = ℕ} n [] ≡ []
drop-nil zero = refl
drop-nil (suc n) = refl

pub drop-drop : (m n : ℕ) (xs : List ℕ) → drop n (drop m xs) ≡ drop (m + n) xs
drop-drop zero n xs = ap (λ k. drop k xs) (omega arith)
drop-drop (suc m) n [] = drop-nil n ∙ sym (drop-nil (suc m + n))
drop-drop (suc m) n (x ∷ xs) =
    let e : suc (m + n) ≡ suc m + n = omega arith in drop-drop m n xs ∙ ap (λ k. drop k (x ∷ xs)) e

pub take-take : (n m : ℕ) (xs : List ℕ) → n ≤ m → take n (take m xs) ≡ take n xs
take-take zero m xs h = refl
take-take (suc n) zero xs h = absurd (omega arith)
take-take (suc n) (suc m) [] h = refl
take-take (suc n) (suc m) (x ∷ xs) h = ap (◌∷◌ x) (take-take n m xs (omega arith))

pub drop-take : (n m : ℕ) (xs : List ℕ) → drop n (take m xs) ≡ take (m - n) (drop n xs)
drop-take zero m xs = let e : m ≡ m - 0 = omega arith in ap (λ k. take k xs) e
drop-take (suc n) zero xs =
    let e : 0 ≡ 0 - suc n = omega arith in ap (λ k. take k (drop (suc n) xs)) e
drop-take (suc n) (suc m) [] = sym (take-nil (suc m - suc n))
drop-take (suc n) (suc m) (x ∷ xs) =
    let e : m - n ≡ suc m - suc n = omega arith in drop-take n m xs ∙ ap (λ k. take k (drop n xs)) e

-- A shorter part of two lists that agree on a part.
pub shorter : (n m : ℕ) (xs ys : List ℕ) → n ≤ m → take m xs ≡ take m ys → take n xs ≡ take n ys
shorter n m xs ys h e = sym (take-take n m xs h) ∙ ap (take n) e ∙ take-take n m ys h

pub further :
    (n m : ℕ) (xs ys : List ℕ)
    → take m xs ≡ take m ys
    → take (m - n) (drop n xs) ≡ take (m - n) (drop n ys)
further n m xs ys e = sym (drop-take n m xs) ∙ ap (drop n) e ∙ drop-take n m ys

-- The part behind a part.
pub joined :
    (offset a b k : ℕ) (file : List ℕ)
    → a + b ≡ k
    → take a (drop offset file) ++ take b (drop (offset + a) file) ≡ take k (drop offset file)
joined offset a b k file h =
    ap (λ t. take a (drop offset file) ++ take b t) (sym (drop-drop offset a file))
    ∙ take-add a b k (drop offset file) h

pub length-slice :
    (n offset : ℕ) (file : List ℕ)
    → length (take n (drop offset file)) ≡ min n (length file - offset)
length-slice n offset file = length-take n (drop offset file) ∙ ap (min n) (length-drop offset file)

-- A part that goes beyond the end goes to the end.
pub up_to_end :
    (n m offset : ℕ) (file : List ℕ)
    → length file ≤ offset + n
    → length file ≤ offset + m
    → take n (drop offset file) ≡ take m (drop offset file)
up_to_end n m offset file h k =
    take_all (drop offset file) n (omega (arith, length-drop offset file))
    ∙ sym (take_all (drop offset file) m (omega (arith, length-drop offset file)))

-- What is behind the first bytes of two parts that agree.
pub behind :
    (n m k i j : ℕ) (xs ys : List ℕ)
    → m - n ≡ k
    → take m (drop i xs) ≡ take m (drop j ys)
    → take k (drop (i + n) xs) ≡ take k (drop (j + n) ys)
behind n m k i j xs ys e h =
    ap (take k) (sym (drop-drop i n xs))
    ∙ subst (λ l. take l (drop n (drop i xs)) ≡ take l (drop n (drop j ys))) e
        (further n m (drop i xs) (drop j ys) h)
    ∙ ap (take k) (drop-drop j n ys)

-- The elements of bytes of which n fill elements, with r left over.
abbrev pieces : ℕ → List ℕ → ℕ → ℕ → List (List ℕ)
pieces size bytes n r =
    whole_elements size n bytes ++ (if nat_beq r 0 then [] else drop (n * size) bytes ∷ [])

-- How a part that fits into one element is sent.
pub split-one :
    (size : ℕ) (bytes : List ℕ)
    → length bytes ≤ size
    → 0 < length bytes
    → split size bytes ≡ bytes ∷ []
unfolding split whole_elements
split-one size bytes h k =
    let d : length bytes / size * size + length bytes % size ≡ length bytes =
      div-add-mod' (length bytes) size in
    let m : length bytes % size < size = mod-lt (length bytes) (omega (arith, h, k)) in
    elim (dec_lt (length bytes) size) [
      | yes l ↦
          let n : length bytes / size ≡ 0 = div-eq_of_lt l in
          let r : length bytes % size ≡ length bytes = mod-eq_of_lt l in
          let z : 0 * size ≡ 0 = omega arith in
          let f : nat_beq (length bytes) 0 ≡ false = ground (arith, k) in
          ap₂ (pieces size bytes) n r ∙ rw (f, z)
      | no g ↦
          let e : length bytes ≡ size = omega (arith, h, g) in
          let n : length bytes / size ≡ 1 = ap (λ j. j / size) e ∙ div_self (omega (arith, h, k)) in
          let r : length bytes % size ≡ 0 = ap (λ j. j % size) e ∙ mod_self size in
          ap₂ (pieces size bytes) n r ∙ ap (λ t. t ∷ []) (take_all bytes size h)
    ]

pub split-none : (size : ℕ) → split size [] ≡ []
unfolding split whole_elements
split-none size = ap₂ (pieces size []) (zero-div size) (zero-mod size)

-- What is left of a line of the file, when its first bytes are read.
pub left_of_line :
    (m at read co new rest : ℕ) (cached file : List ℕ)
    → take (length (take m (drop at file))) cached ≡ take m (drop at file)
    → length (take m (drop at file)) - read ≡ rest
    → read ≡ co
    → at + read ≡ new
    → take rest (drop co cached) ≡ take rest (drop new file)
left_of_line m at read co new rest cached file h e p q =
    let line : List ℕ = take m (drop at file) in
    let l : length line ≤ m = omega (arith, length-take m (drop at file)) in
    let t : take (length line) (drop at file) ≡ line =
      sym (take-take (length line) m (drop at file) l)
      ∙ take_all line (length line) (omega arith) in
    let z : read ≡ 0 + read = omega arith in
    ap (λ j. take rest (drop j cached)) (sym p ∙ z)
    ∙ behind read (length line) rest 0 at cached file e (h ∙ sym t)
    ∙ ap (λ j. take rest (drop j file)) q
