-- ===== src/Sectors/Cover.antt =====
-- What insertSector does to the set of bytes that count as data, and to the invariant.
use capio.Base.{
  ℕ, ◌+◌, ◌≤◌, ◌<◌, max, ◌≡◌, refl, ap, ◌⊎◌, inl, inr, Bool-cases, [], ◌∷◌, ltb, leb, nat_beq,
  if◌then◌else◌, arith, tests, Bool, false, ◌&&◌, ◌||◌, sym, ◌∙◌, subst, subst₂, ltb→lt, ltb→ge,
}
use capio.Sectors.{Sectors, get_file_size, insert_sector}
use capio.Sectors.Order.{Apart, IsValid, get_file_size-cons}
use capio.Sectors.Merge.{swallow, merge, insert_sector-merge}

swallow-Apart :
    (s lim e lo lo' : ℕ) (xs : Sectors)
    → Apart lo xs
    → lo' ≤ s
    → s ≤ lim
    → lim ≤ e
    → (e < lo) ⊎ (e ≤ lim + 1)
    → Apart lo' (swallow s lim e xs)
unfolding swallow
swallow-Apart s lim e lo lo' [] v h i j k = omega arith
swallow-Apart s lim e lo lo' ((a, b) ∷ xs) v h i j k =
    ground (arith, swallow-Apart s lim (max e b) (b + 1) lo' xs v.2 h i)

merge-Apart : (s e lo : ℕ) (xs : Sectors) → s ≤ e → lo ≤ s → Apart lo xs → Apart lo (merge s e xs)
unfolding merge
merge-Apart s e lo [] h k v = omega arith
merge-Apart s e lo ((a, b) ∷ xs) h k v = ground (
  arith,
  merge-Apart s e (b + 1) xs h,
  swallow-Apart a (max e b) (max e b) lo lo ((a, b) ∷ xs) v,
  swallow-Apart s e e lo lo ((a, b) ∷ xs) v,
)

-- insertSector keeps the sectors in order, disjoint and with a gap behind each.
pub insert_sector-IsValid :
    (s e : ℕ) (xs : Sectors) → s ≤ e → IsValid xs → IsValid (insert_sector s e xs)
insert_sector-IsValid s e xs h v =
    subst IsValid (sym (insert_sector-merge s e 0 xs h v)) (merge-Apart s e 0 xs h (omega arith) v)

-- Byte `x` lies in a sector.
abbrev pub covered : ℕ → Sectors → Bool
covered x [] = false
covered x ((a, b) ∷ xs) = leb a x && ltb x b || covered x xs

-- A sector starts at `k`.
abbrev pub starts_at : ℕ → Sectors → Bool
starts_at k [] = false
starts_at k ((a, b) ∷ xs) = nat_beq a k || starts_at k xs

-- The end of the new sector once the sector that holds or touches its start is taken in.
pub reach : ℕ → ℕ → Sectors → ℕ
reach s e [] = e
reach s e ((a, b) ∷ xs) = if ltb b s then reach s e xs else if ltb a s then max e b else e

starts_at_below : (k lo : ℕ) (xs : Sectors) → k < lo → Apart lo xs → starts_at k xs ≡ false
starts_at_below k lo [] h v = refl
starts_at_below k lo ((a, b) ∷ xs) h v =
    ground (arith, starts_at_below k (b + 1) xs (omega arith) v.2)

covered-swallow :
    (x s lim e lo : ℕ) (xs : Sectors)
    → Apart lo xs
    → s ≤ lo
    → s ≤ lim
    → lim ≤ e
    → covered x (swallow s lim e xs)
      ≡ (covered x xs || (leb s x && ltb x e) || (nat_beq x lim && starts_at (lim + 1) xs))
unfolding swallow
covered-swallow x s lim e lo [] v g h k = ground arith
covered-swallow x s lim e lo ((a, b) ∷ xs) v g h k = elim (Bool-cases (leb a (lim + 1))) [
  | inl t ↦
      rw (t, covered-swallow x s lim (max e b) (b + 1) xs v.2 (omega arith) h (omega arith))
        (ground arith)
  | inr f ↦ rw (f, starts_at_below (lim + 1) (b + 1) xs (omega tests) v.2) (ground arith)
]

reach-ge : (s e : ℕ) (xs : Sectors) → e ≤ reach s e xs
unfolding reach
reach-ge s e [] = omega arith
reach-ge s e ((a, b) ∷ xs) = ground (arith, reach-ge s e xs)

-- `ys` has the bytes of `xs`, those of the new sector, and the byte of the gap at `r`, if there is.
abbrev Merged : ℕ → ℕ → ℕ → ℕ → Sectors → Sectors → Type 0
Merged x s e r xs ys =
    covered x ys ≡ (covered x xs || (leb s x && ltb x e) || (nat_beq x r && starts_at (r + 1) xs))

module _ (x s e a b : ℕ) (xs : Sectors) (h : s ≤ e) (w : a ≤ b) (v : Apart (b + 1) xs) where
  Merged-behind :
      (r : ℕ) (ys : Sectors)
      → b < s
      → e ≤ r
      → Merged x s e r xs ys
      → Merged x s e r ((a, b) ∷ xs) ((a, b) ∷ ys)
  Merged-behind r ys g k ih = ground (arith, ih)

  Merged-touching :
      a < s
      → s ≤ b
      → Merged x s e (max e b) ((a, b) ∷ xs) (swallow a (max e b) (max e b) ((a, b) ∷ xs))
  Merged-touching g k =
      covered-swallow x a (max e b) (max e b) a ((a, b) ∷ xs) (omega arith, w, v) (omega arith)
        (omega arith) (omega arith)
      ∙ (ground arith)

  Merged-ahead : s ≤ a → Merged x s e e ((a, b) ∷ xs) (swallow s e e ((a, b) ∷ xs))
  Merged-ahead g = covered-swallow x s e e s ((a, b) ∷ xs) (g, w, v) (omega arith) h (omega arith)

Merged-step :
    (x s e r : ℕ) (xs ys : Sectors)
    → reach s e xs ≡ r
    → merge s e xs ≡ ys
    → Merged x s e r xs ys
    → Merged x s e (reach s e xs) xs (merge s e xs)
Merged-step x s e r xs ys p q = subst₂ (λ r' ys'. Merged x s e r' xs ys') (sym p) (sym q)

covered-merge :
    (x s e lo : ℕ) (xs : Sectors)
    → s ≤ e
    → Apart lo xs
    → Merged x s e (reach s e xs) xs (merge s e xs)
unfolding merge reach
covered-merge x s e lo [] h v = ground arith
covered-merge x s e lo ((a, b) ∷ xs) h v = elim (Bool-cases (ltb b s)) [
  | inl t ↦ Merged-step x s e (reach s e xs) ((a, b) ∷ xs) ((a, b) ∷ merge s e xs) (rw t) (rw t) (
      Merged-behind x s e a b xs h v.1 v.2 (reach s e xs) (merge s e xs) (ltb→lt b s t)
        (reach-ge s e xs) (covered-merge x s e (b + 1) xs h v.2))
  | inr f ↦ elim (Bool-cases (ltb a s)) [
    | inl t ↦
        Merged-step x s e (max e b) ((a, b) ∷ xs) (swallow a (max e b) (max e b) ((a, b) ∷ xs))
          (rw (f, t)) (rw (f, t))
          (Merged-touching x s e a b xs h v.1 v.2 (ltb→lt a s t) (ltb→ge b s f))
    | inr g ↦
        Merged-step x s e e ((a, b) ∷ xs) (swallow s e e ((a, b) ∷ xs)) (rw (f, g)) (rw (f, g))
          (Merged-ahead x s e a b xs h v.1 v.2 (ltb→ge a s g))
  ]
]

-- After insertSector exactly these bytes count as data: those that did, those of the new sector,
-- and, where the set has a sector that starts one byte behind the end of the new one (moved on by
-- the sector that touches its start), the byte of the gap between them.
pub covered-insert_sector :
    (x s e : ℕ) (xs : Sectors)
    → s ≤ e
    → IsValid xs
    → covered x (insert_sector s e xs) ≡ (
        covered x xs
        || (leb s x && ltb x e)
        || (nat_beq x (reach s e xs) && starts_at (reach s e xs + 1) xs))
covered-insert_sector x s e xs h v =
    ap (covered x) (insert_sector-merge s e 0 xs h v) ∙ covered-merge x s e 0 xs h v

get_file_size-swallow :
    (s lim e lo : ℕ) (xs : Sectors)
    → Apart lo xs
    → (e < lo) ⊎ (e ≤ lim + 1)
    → get_file_size (swallow s lim e xs) ≡ max e (get_file_size xs)
unfolding swallow
get_file_size-swallow s lim e lo [] v h = unfold get_file_size in (omega arith)
get_file_size-swallow s lim e lo ((a, b) ∷ xs) v h = elim (Bool-cases (leb a (lim + 1))) [
  | inl t ↦ rw t (
      omega (
        arith,
        get_file_size-swallow s lim (max e b) (b + 1) xs v.2 (omega tests),
        get_file_size-cons a b xs v.2,
      ))
  | inr f ↦ rw f (get_file_size-cons s e ((a, b) ∷ xs) (omega tests, v.1, v.2))
]

get_file_size-merge :
    (s e lo : ℕ) (xs : Sectors)
    → s ≤ e
    → Apart lo xs
    → get_file_size (merge s e xs) ≡ max e (get_file_size xs)
unfolding merge
get_file_size-merge s e lo [] h v = unfold get_file_size in (omega arith)
get_file_size-merge s e lo ((a, b) ∷ xs) h v = elim (Bool-cases (ltb b s)) [
  | inl t ↦ rw t (
      omega (
        arith,
        get_file_size-merge s e (b + 1) xs h v.2,
        get_file_size-cons a b xs v.2,
        get_file_size-cons a b (merge s e xs) (merge-Apart s e (b + 1) xs h (omega tests) v.2),
      ))
  | inr f ↦ rw f (elim (Bool-cases (ltb a s)) [
    | inl t ↦ rw t (
        omega (
          arith,
          get_file_size-swallow a (max e b) (max e b) lo ((a, b) ∷ xs) v (inr (omega arith)),
          get_file_size-cons a b xs v.2,
        ))
    | inr g ↦ rw g (get_file_size-swallow s e e lo ((a, b) ∷ xs) v (inr (omega arith)))
  ])
]

-- insertSector makes the file as large as the larger of its size and the end of the new sector.
pub get_file_size-insert_sector :
    (s e : ℕ) (xs : Sectors)
    → s ≤ e
    → IsValid xs
    → get_file_size (insert_sector s e xs) ≡ max e (get_file_size xs)
get_file_size-insert_sector s e xs h v =
    ap get_file_size (insert_sector-merge s e 0 xs h v) ∙ get_file_size-merge s e 0 xs h v
