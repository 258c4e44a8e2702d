-- ===== src/Buffer/Grow.antt =====
-- Growing a buffer keeps the data of the file.
use capio.Base.{
  ℕ, ◌+◌, ◌-◌, ◌≤◌, ◌<◌, ◌≡◌, refl, Option, none, some, [], ◌∷◌, ltb, leb, if◌then◌else◌, arith,
  Bool, true, false, ◌&&◌, ◌||◌, Option-cases, inl, inr, ◌∙◌,
}
use capio.Base.Mem.{Mem, memcpy, memcpy_same}
use capio.Sectors.{Sectors, get_file_size}
use capio.Sectors.Order.{Apart, IsValid, get_file_size-cons}
use capio.Sectors.Cover.{covered}
use capio.Buffer.{System, mapped, FileBuffer, copy_sectors, extend_mapping, grow, grown_size}

copy_sectors_lem :
    (xs : Sectors) (lo : ℕ) (old new : Mem) (x : ℕ)
    → Apart lo xs
    → copy_sectors xs old new x ≡ (if covered x xs then old x else new x)
unfolding copy_sectors
copy_sectors_lem [] lo old new x v = refl
copy_sectors_lem ((a, b) ∷ xs) lo old new x v =
    copy_sectors_lem xs (b + 1) old (memcpy new a old a (b - a)) x v.2
    ∙ rw (memcpy_same new old a (b - a) x)
        (let e : a + (b - a) ≡ b = omega arith in rw e (keep (leb a x && ltb x b) (covered x xs)))
  where
    keep :
        (p q : Bool)
        → (if q then old x else if p then old x else new x) ≡ (if p || q then old x else new x)
    keep true true = refl
    keep true false = refl
    keep false q = refl

-- The byte of the file at an offset.
abbrev pub byte : FileBuffer → ℕ → Option ℕ
byte b x = elim b.block [ none ↦ none | some m ↦ some (m x) ]

-- What a buffer of a file with these sectors is: the data lies within the block, and a mapping is
-- as long as the buffer, or longer once the file is cut to its size.
pub record Holds (b : FileBuffer) (xs : Sectors) : Type 0 where
  pub within : get_file_size xs ≤ b.size
  pub nothing : b.block ≡ none → b.size ≡ 0
  pub mapping : b.storage ≡ mapped → b.size ≤ b.map_len

pub covered-lt-size :
    (x lo : ℕ) (xs : Sectors) → Apart lo xs → covered x xs ≡ true → x < get_file_size xs
covered-lt-size x lo [] v h = cc
covered-lt-size x lo ((a, b) ∷ xs) v h =
    ground (arith, get_file_size-cons a b xs v.2, covered-lt-size x (b + 1) xs v.2)

grow_nothing :
    (sys : System) (n x : ℕ) (xs : Sectors) (b b' : FileBuffer)
    → b.block ≡ none
    → grow sys n xs b ≡ some b'
    → covered x xs ≡ false
unfolding grow
grow_nothing sys n x [] b b' p e = refl
grow_nothing sys n x (y ∷ xs) b b' p e = ground arith

module _ (sys : System) (n : ℕ) (xs : Sectors) (b b' : FileBuffer) (v : IsValid xs) (w : Holds b xs)
    (l : b.size ≤ n) (e : grow sys n xs b ≡ some b') where
  -- The new buffer is as large as was asked for.
  pub grow-size : b'.size ≡ grown_size sys n b.size
  unfolding grow
  grow-size = ground arith

  pub grow-Holds : Holds b' xs
  unfolding grow
  grow-Holds = record {
    within = omega (arith, grow-size, w.within);
    nothing = ground arith;
    mapping = ground arith;
  }

  pub grow-byte : (x : ℕ) → covered x xs ≡ true → byte b' x ≡ byte b x
  unfolding grow extend_mapping
  grow-byte x c = elim (Option-cases b.block) [
    | inl p ↦ cc (grow_nothing sys n x xs b b' p e)
    | inr (m, p) ↦
        let k : x < get_file_size xs = covered-lt-size x 0 xs v c in
        ground (arith, copy_sectors_lem xs 0 m sys.fresh x v, w.mapping, w.within)
  ]

pub byte_of_block : (b : FileBuffer) (m : Mem) (x : ℕ) → b.block ≡ some m → byte b x ≡ some (m x)
byte_of_block b m x p = ground arith
