-- ===== src/Sectors/Answers.antt =====
-- getSectorEnd, seekData and seekHole against the bytes that count as data.
use capio.Base.{
  ℕ, ◌+◌, ◌≤◌, ◌<◌, ◌≡◌, refl, inl, inr, Bool-cases, [], ◌∷◌, Option, none, some, leb, nat_beq,
  arith, tests, Bool, true, false, ◌||◌, sym, ◌∙◌, subst, leb→le, leb→gt,
}
use capio.Sectors.{
  Sector, Sectors, upper_bound, prev, end_at, get_file_size, get_sector_end, seek_data, seek_hole,
}
use capio.Sectors.Order.{Apart, IsValid, get_file_size-cons}
use capio.Sectors.Cover.{covered}
use capio.Sectors.Seek.{
  get_sector_end-before, get_sector_end-in, get_sector_end-behind, seek_data-before, seek_data-in,
  seek_data-past, seek_data-behind, seek_hole-before, seek_hole-in, seek_hole-past,
  seek_hole-behind,
}

covered_below : (x lo : ℕ) (xs : Sectors) → Apart lo xs → x < lo → covered x xs ≡ false
covered_below x lo [] v h = refl
covered_below x lo ((a, b) ∷ xs) v h = ground (arith, covered_below x (b + 1) xs v.2)

covered_behind : (x a b : ℕ) (xs : Sectors) → b ≤ x → covered x ((a, b) ∷ xs) ≡ covered x xs
covered_behind x a b xs h = ground arith

-- What getSectorEnd promises of its answer: the data goes on from `o` up to `e`, and no further.
abbrev pub EndsAt : Sectors → ℕ → Option ℕ → Type 0
EndsAt xs o none = covered o xs ≡ false
EndsAt xs o (some e) =
    (o ≤ e) × ((x : ℕ) → o ≤ x → x < e → covered x xs ≡ true) × (covered e xs ≡ false)

EndsAt-behind :
    (o a b : ℕ) (xs : Sectors) (r : Option ℕ) → b < o → EndsAt xs o r → EndsAt ((a, b) ∷ xs) o r
EndsAt-behind o a b xs none h p = covered_behind o a b xs (omega arith) ∙ p
EndsAt-behind o a b xs (some e) h p = (
  p.0,
  λ x g k. covered_behind x a b xs (omega arith) ∙ p.1 x g k,
  covered_behind e a b xs (omega arith) ∙ p.2,
)

EndsAt-in :
    (o a b : ℕ) (xs : Sectors) → a ≤ o → o ≤ b → Apart (b + 1) xs → EndsAt ((a, b) ∷ xs) o (some b)
EndsAt-in o a b xs h k v = (
  k,
  λ x g l. ground arith,
  covered_behind b a b xs (omega arith) ∙ covered_below b (b + 1) xs v (omega arith),
)

get_sector_end-Apart : (o lo : ℕ) (xs : Sectors) → Apart lo xs → EndsAt xs o (get_sector_end o xs)
get_sector_end-Apart o lo [] v = unfold get_sector_end upper_bound prev end_at in refl
get_sector_end-Apart o lo ((a, b) ∷ xs) v = elim (Bool-cases (leb a o)) [
  | inr f ↦
      rw (get_sector_end-before o a b xs (leb→gt a o f))
        (covered_below o a ((a, b) ∷ xs) (omega arith, v.1, v.2) (leb→gt a o f))
  | inl t ↦ elim (Bool-cases (leb o b)) [
    | inl k ↦
        rw (get_sector_end-in o a b xs (leb→le a o t) (leb→le o b k) v.2)
          (EndsAt-in o a b xs (leb→le a o t) (leb→le o b k) v.2)
    | inr k ↦
        rw (get_sector_end-behind o a b xs (leb→le a o t) (leb→gt o b k))
          (EndsAt-behind o a b xs _ (leb→gt o b k) (get_sector_end-Apart o (b + 1) xs v.2))
  ]
]

pub get_sector_end_lem : (o : ℕ) (xs : Sectors) → IsValid xs → EndsAt xs o (get_sector_end o xs)
get_sector_end_lem o xs v = get_sector_end-Apart o 0 xs v

-- What seekHole promises of its answer.
abbrev pub HoleAt : Sectors → ℕ → Option ℕ → Type 0
HoleAt xs o none = get_file_size xs < o
HoleAt xs o (some h) =
    (o ≤ h)
    × (h ≤ get_file_size xs)
    × ((x : ℕ) → o ≤ x → x < h → covered x xs ≡ true)
    × (covered h xs ≡ false)

-- A sector ends at `k`.
abbrev pub ends_at : ℕ → Sectors → Bool
ends_at k [] = false
ends_at k ((a, b) ∷ xs) = nat_beq b k || ends_at k xs

-- What seekData promises of its answer.
abbrev pub DataAt : Sectors → ℕ → Option ℕ → Type 0
DataAt xs o none = get_file_size xs < o
DataAt xs o (some d) =
    (o ≤ d)
    × (d ≤ get_file_size xs)
    × ((x : ℕ) → o ≤ x → x < d → covered x xs ≡ false)
    × ((covered d xs || ends_at d xs) ≡ true)

-- A sector that ends before the offset has no say in these promises.
HoleAt-behind :
    (o a b : ℕ) (xs : Sectors) (r : Option ℕ)
    → b < o
    → Apart (b + 1) xs
    → HoleAt xs o r
    → HoleAt ((a, b) ∷ xs) o r
HoleAt-behind o a b xs none h v p = omega (arith, get_file_size-cons a b xs v)
HoleAt-behind o a b xs (some e) h v p = (
  p.0,
  omega (arith, get_file_size-cons a b xs v),
  λ x g k. covered_behind x a b xs (omega arith) ∙ p.2 x g k,
  covered_behind e a b xs (omega arith) ∙ p.3,
)

DataAt-behind :
    (o a b : ℕ) (xs : Sectors) (r : Option ℕ)
    → b < o
    → Apart (b + 1) xs
    → DataAt xs o r
    → DataAt ((a, b) ∷ xs) o r
DataAt-behind o a b xs none h v p = omega (arith, get_file_size-cons a b xs v)
DataAt-behind o a b xs (some e) h v p = (
  p.0,
  omega (arith, get_file_size-cons a b xs v),
  λ x g k. covered_behind x a b xs (omega arith) ∙ p.2 x g k,
  ground (arith, p.3),
)

module _ (o lo a b : ℕ) (xs : Sectors) (v : Apart lo ((a, b) ∷ xs)) where
  size-ge : b ≤ get_file_size ((a, b) ∷ xs)
  size-ge = omega (arith, get_file_size-cons a b xs v.2)

  seek_hole-HoleAt : o ≤ b → HoleAt ((a, b) ∷ xs) o (seek_hole o ((a, b) ∷ xs))
  seek_hole-HoleAt k = elim (Bool-cases (leb a o)) [
    | inr f ↦ rw (seek_hole-before o a b xs (leb→gt a o f)) (
      omega arith,
      omega (arith, size-ge),
      λ x g h. absurd (omega arith),
      covered_below o a ((a, b) ∷ xs) (omega arith, v.1, v.2) (leb→gt a o f),
    )
    | inl t ↦
        let e : EndsAt ((a, b) ∷ xs) o (some b) = EndsAt-in o a b xs (leb→le a o t) k v.2 in
        rw (seek_hole-in o a b xs (leb→le a o t) k v.2) (k, size-ge, e.1, e.2)
  ]

  seek_data-DataAt : o ≤ b → DataAt ((a, b) ∷ xs) o (seek_data o ((a, b) ∷ xs))
  seek_data-DataAt k = elim (Bool-cases (leb a o)) [
    | inr f ↦ rw (seek_data-before o a b xs (leb→gt a o f)) (
      omega tests,
      omega (arith, size-ge),
      λ x g h. covered_below x a ((a, b) ∷ xs) (omega arith, v.1, v.2) h,
      ground arith,
    )
    | inl t ↦
        rw (seek_data-in o a b xs (leb→le a o t) k v.2)
          (omega arith, omega (arith, size-ge), λ x g h. absurd (omega arith), ground arith)
  ]

seek_hole-Apart :
    (o lo a b : ℕ) (xs : Sectors)
    → Apart lo ((a, b) ∷ xs)
    → HoleAt ((a, b) ∷ xs) o (seek_hole o ((a, b) ∷ xs))
seek_hole-Apart o lo a b [] v = elim (Bool-cases (leb o b)) [
  | inl k ↦ seek_hole-HoleAt o lo a b [] v (leb→le o b k)
  | inr k ↦
      rw (seek_hole-past o a b (omega tests) (leb→gt o b k))
        (unfold get_file_size prev in (leb→gt o b k))
]
seek_hole-Apart o lo a b ((c, d) ∷ xs) v = elim (Bool-cases (leb o b)) [
  | inl k ↦ seek_hole-HoleAt o lo a b ((c, d) ∷ xs) v (leb→le o b k)
  | inr k ↦ rw (seek_hole-behind o a b (omega tests) (leb→gt o b k) c d xs) (
      HoleAt-behind o a b ((c, d) ∷ xs) (seek_hole o ((c, d) ∷ xs)) (leb→gt o b k) v.2
        (seek_hole-Apart o (b + 1) c d xs v.2))
]

seek_data-Apart :
    (o lo a b : ℕ) (xs : Sectors)
    → Apart lo ((a, b) ∷ xs)
    → DataAt ((a, b) ∷ xs) o (seek_data o ((a, b) ∷ xs))
seek_data-Apart o lo a b [] v = elim (Bool-cases (leb o b)) [
  | inl k ↦ seek_data-DataAt o lo a b [] v (leb→le o b k)
  | inr k ↦
      rw (seek_data-past o a b (omega tests) (leb→gt o b k))
        (unfold get_file_size prev in (leb→gt o b k))
]
seek_data-Apart o lo a b ((c, d) ∷ xs) v = elim (Bool-cases (leb o b)) [
  | inl k ↦ seek_data-DataAt o lo a b ((c, d) ∷ xs) v (leb→le o b k)
  | inr k ↦ rw (seek_data-behind o a b (omega tests) (leb→gt o b k) c d xs) (
      DataAt-behind o a b ((c, d) ∷ xs) (seek_data o ((c, d) ∷ xs)) (leb→gt o b k) v.2
        (seek_data-Apart o (b + 1) c d xs v.2))
]

-- On a set with sectors, seekHole answers with the first byte from the offset on that is no data,
-- and within the file or at its end; it answers with -1 exactly if the offset is past the end.
pub seek_hole_lem :
    (o : ℕ) (x : Sector) (xs : Sectors)
    → IsValid (x ∷ xs)
    → HoleAt (x ∷ xs) o (seek_hole o (x ∷ xs))
seek_hole_lem o (a, b) xs v = seek_hole-Apart o 0 a b xs v

-- On a set with sectors, seekData answers with an offset that has no data between it and the given
-- one, and that is data itself or is the end of a sector; it answers with -1 exactly if the offset
-- is past the end of the file.
pub seek_data_lem :
    (o : ℕ) (x : Sector) (xs : Sectors)
    → IsValid (x ∷ xs)
    → DataAt (x ∷ xs) o (seek_data o (x ∷ xs))
seek_data_lem o (a, b) xs v = seek_data-Apart o 0 a b xs v

-- Between the start and the end of a sector, the end included, seekData stays where it is.
seek_data-sector :
    (o e lo : ℕ) (xs : Sectors)
    → Apart lo xs
    → get_sector_end o xs ≡ some e
    → seek_data o xs ≡ some o
seek_data-sector o e lo [] v h = unfold get_sector_end end_at upper_bound prev in cc h
seek_data-sector o e lo ((a, b) ∷ xs) v h = elim (Bool-cases (leb a o)) [
  | inr f ↦ cc (get_sector_end-before o a b xs (leb→gt a o f))
  | inl t ↦ elim (Bool-cases (leb o b)) [
    | inl k ↦ seek_data-in o a b xs (leb→le a o t) (leb→le o b k) v.2
    | inr k ↦
        let g : get_sector_end o xs ≡ some e =
          sym (get_sector_end-behind o a b xs (leb→le a o t) (leb→gt o b k)) ∙ h in
        seek_data-later xs (leb→le a o t) (leb→gt o b k) g (seek_data-sector o e (b + 1) xs v.2 g)
  ]
]
  where
    seek_data-later :
        (xs : Sectors)
        → a ≤ o
        → b < o
        → get_sector_end o xs ≡ some e
        → seek_data o xs ≡ some o
        → seek_data o ((a, b) ∷ xs) ≡ some o
    seek_data-later [] h k g ih = unfold get_sector_end end_at upper_bound prev in cc g
    seek_data-later ((c, d) ∷ xs) h k g ih = seek_data-behind o a b h k c d xs ∙ ih

-- At an offset where a sector ends, which is no data, seekData answers with that offset, and not
-- with the start of the next sector.
pub seek_data-sector_end :
    (o : ℕ) (xs : Sectors)
    → IsValid xs
    → get_sector_end o xs ≡ some o
    → (seek_data o xs ≡ some o) × (covered o xs ≡ false)
seek_data-sector_end o xs v h =
    (seek_data-sector o o 0 xs v h, (subst (EndsAt xs o) h (get_sector_end_lem o xs v)).2)
