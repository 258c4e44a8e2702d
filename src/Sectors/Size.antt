-- ===== src/Sectors/Size.antt =====
-- The end that getSectorEnd answers with lies within the file.
use capio.Base.{
  ℕ, ◌+◌, ◌≤◌, ◌≡◌, [], ◌∷◌, some, leb, arith, Bool-cases, inl, inr, leb→le, leb→gt, sym, ◌∙◌,
}
use mathlib.Core.Option.{some-injective}
use capio.Sectors.{Sectors, get_sector_end, get_file_size, upper_bound, prev, end_at}
use capio.Sectors.Order.{Apart, IsValid, get_file_size-cons}
use capio.Sectors.Seek.{get_sector_end-before, get_sector_end-in, get_sector_end-behind}

get_sector_end-size :
    (o e lo : ℕ) (xs : Sectors)
    → Apart lo xs
    → get_sector_end o xs ≡ some e
    → (o ≤ e) × (e ≤ get_file_size xs)
get_sector_end-size o e lo [] v h = unfold get_sector_end end_at upper_bound prev in cc h
get_sector_end-size o e lo ((a, b) ∷ xs) v h = elim (Bool-cases (leb a o)) [
  | inr f ↦ cc (get_sector_end-before o a b xs (leb→gt a o f))
  | inl t ↦ elim (Bool-cases (leb o b)) [
    | inl k ↦
        let p : b ≡ e =
          some-injective b e
            (sym (get_sector_end-in o a b xs (leb→le a o t) (leb→le o b k) v.2) ∙ h) in
        (omega (arith, leb→le o b k), omega (arith, get_file_size-cons a b xs v.2))
    | inr k ↦
        let g : get_sector_end o xs ≡ some e =
          sym (get_sector_end-behind o a b xs (leb→le a o t) (leb→gt o b k)) ∙ h in
        let (p, q) = get_sector_end-size o e (b + 1) xs v.2 g in
        (p, omega (arith, get_file_size-cons a b xs v.2))
  ]
]

-- An offset that getSectorEnd finds a sector for is followed by the sector's end, which is not past
-- the end of the file.
pub get_sector_end-in_file :
    (o e : ℕ) (xs : Sectors)
    → IsValid xs
    → get_sector_end o xs ≡ some e
    → (o ≤ e) × (e ≤ get_file_size xs)
get_sector_end-in_file o e xs v h = get_sector_end-size o e 0 xs v h
