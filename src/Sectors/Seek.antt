-- ===== src/Sectors/Seek.antt =====
-- getSectorEnd, seekData and seekHole on a set with one more sector in front.
use capio.Base.{
  ℕ, ◌+◌, ◌≤◌, ◌<◌, ◌≡◌, refl, inl, inr, Bool-cases, [], ◌∷◌, none, some, leb, arith, le→leb,
  gt→leb, leb→le, leb→gt,
}
use capio.Sectors.{
  Sector, Sectors, end_at, upper_bound, prev, get_sector_end, seek_data, seek_hole, data_after,
  hole_after,
}
use capio.Sectors.Order.{Apart, Apart-mono, prev-tail, upper_bound_above}

module _ (o a b : ℕ) (xs : Sectors) where
  upper_bound-before : o < a → upper_bound o ((a, b) ∷ xs) ≡ ([], (a, b) ∷ xs)
  unfolding upper_bound
  upper_bound-before h = rw (gt→leb a o h)

  upper_bound-behind :
      a ≤ o → upper_bound o ((a, b) ∷ xs) ≡ ((a, b) ∷ (upper_bound o xs).0, (upper_bound o xs).1)
  unfolding upper_bound
  upper_bound-behind h = rw (le→leb a o h)

  upper_bound-in :
      a ≤ o → o ≤ b → Apart (b + 1) xs → upper_bound o ((a, b) ∷ xs) ≡ ((a, b) ∷ [], xs)
  upper_bound-in h k v =
      rw (upper_bound-behind h, upper_bound_above o xs (Apart-mono xs (omega arith) v))

  pub get_sector_end-before : o < a → get_sector_end o ((a, b) ∷ xs) ≡ none
  unfolding get_sector_end end_at prev
  get_sector_end-before h = rw (upper_bound-before h)

  pub get_sector_end-in : a ≤ o → o ≤ b → Apart (b + 1) xs → get_sector_end o ((a, b) ∷ xs) ≡ some b
  unfolding get_sector_end end_at prev
  get_sector_end-in h k v = rw (upper_bound-in h k v, le→leb o b k)

  pub get_sector_end-behind : a ≤ o → b < o → get_sector_end o ((a, b) ∷ xs) ≡ get_sector_end o xs
  unfolding get_sector_end end_at prev
  get_sector_end-behind h k = rw (upper_bound-behind h) (ground (arith, gt→leb o b k))

  pub seek_data-before : o < a → seek_data o ((a, b) ∷ xs) ≡ some a
  unfolding seek_data data_after prev
  seek_data-before h = rw (upper_bound-before h)

  pub seek_data-in : a ≤ o → o ≤ b → Apart (b + 1) xs → seek_data o ((a, b) ∷ xs) ≡ some o
  unfolding seek_data data_after prev
  seek_data-in h k v = rw (upper_bound-in h k v) (ground (arith, le→leb o b k))

  pub seek_hole-before : o < a → seek_hole o ((a, b) ∷ xs) ≡ some o
  unfolding seek_hole hole_after prev
  seek_hole-before h = rw (upper_bound-before h)

  pub seek_hole-in : a ≤ o → o ≤ b → Apart (b + 1) xs → seek_hole o ((a, b) ∷ xs) ≡ some b
  unfolding seek_hole hole_after prev
  seek_hole-in h k v = rw (upper_bound-in h k v) (ground (arith, le→leb o b k))

-- Only the last sector before the iterator has a say.
data_after_last :
    (o : ℕ) (x : Sector) (p q after : Sectors)
    → data_after o (some (p, x)) after ≡ data_after o (some (q, x)) after
unfolding data_after
data_after_last o x p q [] = refl
data_after_last o x p q (y ∷ after) = refl

hole_after_last :
    (o : ℕ) (x : Sector) (p q after : Sectors)
    → hole_after o (some (p, x)) after ≡ hole_after o (some (q, x)) after
unfolding hole_after
hole_after_last o x p q [] = refl
hole_after_last o x p q (y ∷ after) = refl

module _ (o a b : ℕ) (h : a ≤ o) (k : b < o) where
  pub seek_data-past : seek_data o ((a, b) ∷ []) ≡ none
  unfolding seek_data data_after prev upper_bound
  seek_data-past = rw (le→leb a o h) (rw (gt→leb o b k))

  pub seek_hole-past : seek_hole o ((a, b) ∷ []) ≡ none
  unfolding seek_hole hole_after prev upper_bound
  seek_hole-past = rw (le→leb a o h) (rw (gt→leb o b k))

  pub seek_data-behind :
      (c d : ℕ) (xs : Sectors) → seek_data o ((a, b) ∷ (c, d) ∷ xs) ≡ seek_data o ((c, d) ∷ xs)
  unfolding seek_data data_after prev
  seek_data-behind c d xs = elim (Bool-cases (leb c o)) [
    | inr f ↦
        rw (upper_bound-behind o a b ((c, d) ∷ xs) h, upper_bound-before o c d xs (leb→gt c o f))
          (rw (gt→leb o b k))
    | inl t ↦
        rw (upper_bound-behind o a b ((c, d) ∷ xs) h, upper_bound-behind o c d xs (leb→le c o t))
          (let (p, q, z, e, f) = prev-tail (a, b) (c, d) (upper_bound o xs).0 in
            rw (e, f) (data_after_last o z p q (upper_bound o xs).1))
  ]

  pub seek_hole-behind :
      (c d : ℕ) (xs : Sectors) → seek_hole o ((a, b) ∷ (c, d) ∷ xs) ≡ seek_hole o ((c, d) ∷ xs)
  unfolding seek_hole hole_after prev
  seek_hole-behind c d xs = elim (Bool-cases (leb c o)) [
    | inr f ↦
        rw (upper_bound-behind o a b ((c, d) ∷ xs) h, upper_bound-before o c d xs (leb→gt c o f))
          (rw (gt→leb o b k))
    | inl t ↦
        rw (upper_bound-behind o a b ((c, d) ∷ xs) h, upper_bound-behind o c d xs (leb→le c o t))
          (let (p, q, z, e, f) = prev-tail (a, b) (c, d) (upper_bound o xs).0 in
            rw (e, f) (hole_after_last o z p q (upper_bound o xs).1))
  ]
