-- ===== src/Sectors/Order.antt =====
-- The invariant of the sector set, and what the sizes and bounds are on such a set.
use capio.Base.{ℕ, ◌+◌, ◌≤◌, max, ◌≡◌, refl, inl, inr, Option-cases, [], ◌∷◌, none, some, arith}
use capio.Sectors.{Sector, Sectors, lower_bound, upper_bound, prev, get_file_size, right_edge}

-- Each sector starts at `lo` or later, does not end before it starts, and leaves a gap behind it.
abbrev pub Apart : ℕ → Sectors → Type 0
Apart lo [] = Unit {0}
Apart lo ((a, b) ∷ xs) = (lo ≤ a) × (a ≤ b) × Apart (b + 1) xs

abbrev pub IsValid : Sectors → Type 0
IsValid xs = Apart 0 xs

pub Apart-mono : {m n : ℕ} (xs : Sectors) → m ≤ n → Apart n xs → Apart m xs
Apart-mono [] h v = tt
Apart-mono ((a, b) ∷ xs) h v = (omega arith, v.1, v.2)

pub prev-none : (xs : Sectors) → prev xs ≡ none → xs ≡ []
unfolding prev
prev-none [] e = refl
prev-none (x ∷ xs) e = ground arith

-- A sector in front of others does not change the last one.
pub prev-tail :
    (x y : Sector) (xs : Sectors)
    → (p q : Sectors) × (z : Sector) × (prev (x ∷ y ∷ xs) ≡ some (p, z))
      × (prev (y ∷ xs) ≡ some (q, z))
unfolding prev
prev-tail x y xs = elim (Option-cases (prev xs)) [
  | inl e ↦ (x ∷ [], [], y, ground arith, ground arith)
  | inr (q, e) ↦ (x ∷ y ∷ q.0, y ∷ q.0, q.1, ground arith, ground arith)
]

-- The size of a file is the largest end.
pub get_file_size-cons :
    (a b : ℕ) (xs : Sectors)
    → Apart (b + 1) xs
    → get_file_size ((a, b) ∷ xs) ≡ max b (get_file_size xs)
unfolding get_file_size
get_file_size-cons a b [] v = omega arith
get_file_size-cons a b ((c, d) ∷ xs) v = ground (arith, get_file_size-cons c d xs v.2, prev-none xs)

pub right_edge_lem : (e : ℕ) (xs : Sectors) → right_edge e xs ≡ max e (get_file_size xs)
unfolding right_edge get_file_size
right_edge_lem e xs = ground arith

-- Sectors that all start at `k` or later are all from the iterator on.
pub lower_bound_above : (k : ℕ) (xs : Sectors) → Apart k xs → lower_bound k xs ≡ ([], xs)
unfolding lower_bound
lower_bound_above k [] v = refl
lower_bound_above k ((a, b) ∷ xs) v = ground arith

pub upper_bound_above : (k : ℕ) (xs : Sectors) → Apart (k + 1) xs → upper_bound k xs ≡ ([], xs)
unfolding upper_bound
upper_bound_above k [] v = refl
upper_bound_above k ((a, b) ∷ xs) v = ground arith

-- The two halves of a set at a bound.
pub upper_bound-Apart : (k lo : ℕ) (xs : Sectors) → Apart lo xs → Apart lo (upper_bound k xs).0
unfolding upper_bound
upper_bound-Apart k lo [] v = tt
upper_bound-Apart k lo ((a, b) ∷ xs) v = ground (arith, upper_bound-Apart k (b + 1) xs v.2)

-- A sector in front that does not reach further has no say in the right edge.
pub right_edge-cons :
    (e a b : ℕ) (xs : Sectors) → b ≤ e → right_edge e ((a, b) ∷ xs) ≡ right_edge e xs
unfolding right_edge prev
right_edge-cons e a b xs h = ground arith
