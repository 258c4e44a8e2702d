-- ===== src/Base/Mem.antt =====
-- A block of bytes as a function from the offset in the block, and the copies that memcpy makes.
use Prim.Native.Nat.{ℕ, zero, suc, ◌+◌, ◌-◌, ◌≤◌, ◌<◌}
use mathlib.Core.Path.{◌≡◌, refl, ap, ap₂, ◌∙◌}
use mathlib.Core.Logic.{◌⊎◌, inl, inr}
use mathlib.Core.Bool.{◌&&◌}
use mathlib.Core.List.{List, [], ◌∷◌}
use native.Mathlib.Omega.{arith}
use capio.Base.Tests.{ltb, leb, nat_beq, if◌then◌else◌, tests, Bool-cases}
use capio.Base.Lists.{length, take}

abbrev pub Mem : Type 0
Mem = ℕ → ℕ

-- `memcpy(dst + to, src + from, count)`, from one block to another.
unfoldable pub memcpy : Mem → ℕ → Mem → ℕ → ℕ → Mem
memcpy dst to src from count x =
    if leb to x && ltb x (to + count) then src (from + (x - to)) else dst x

-- A copy to the same offset.
pub memcpy_same :
    (dst src : Mem) (o n x : ℕ)
    → memcpy dst o src o n x ≡ (if leb o x && ltb x (o + n) then src x else dst x)
unfolding memcpy
memcpy_same dst src o n x = elim (Bool-cases (leb o x)) [
  | inl t ↦ let e : o + (x - o) ≡ x = omega tests in rw (t, e)
  | inr f ↦ rw f
]

-- Put bytes into a block from an offset on.
unfoldable pub store : Mem → ℕ → List ℕ → Mem
store m o [] = m
store m o (b ∷ bs) = store (λ x. if nat_beq x o then b else m x) (o + 1) bs

-- The bytes of a block from an offset on.
unfoldable pub load : Mem → ℕ → ℕ → List ℕ
load m o zero = []
load m o (suc n) = m o ∷ load m (o + 1) n

pub store-outside :
    (m : Mem) (o x : ℕ) (bs : List ℕ) → (x < o) ⊎ (o + length bs ≤ x) → store m o bs x ≡ m x
unfolding store
store-outside m o x [] h = refl
store-outside m o x (b ∷ bs) h =
    store-outside (λ y. if nat_beq y o then b else m y) (o + 1) x bs (omega arith) ∙ (ground arith)

pub load-store : (m : Mem) (o : ℕ) (bs : List ℕ) → load (store m o bs) o (length bs) ≡ bs
unfolding load store
load-store m o [] = refl
load-store m o (b ∷ bs) =
    let m' : Mem = λ x. if nat_beq x o then b else m x in
    ap₂ ◌∷◌ (store-outside m' (o + 1) o bs (inl (omega arith)) ∙ (ground arith))
      (load-store m' (o + 1) bs)

pub load_ext :
    (m m' : Mem) (o n : ℕ) → ((x : ℕ) → o ≤ x → x < o + n → m x ≡ m' x) → load m o n ≡ load m' o n
unfolding load
load_ext m m' o zero h = refl
load_ext m m' o (suc n) h =
    ap₂ ◌∷◌ (h o (omega arith) (omega arith))
      (load_ext m m' (o + 1) n (λ x g k. h x (omega arith) (omega arith)))

pub take-load : (m : Mem) (o n k : ℕ) → n ≤ k → take n (load m o k) ≡ load m o n
unfolding load
take-load m o zero k h = refl
take-load m o (suc n) zero h = elim h [ ]
take-load m o (suc n) (suc k) h = ap (◌∷◌ (m o)) (take-load m (o + 1) n k (omega arith))
