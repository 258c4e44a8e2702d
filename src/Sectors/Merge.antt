-- ===== src/Sectors/Merge.antt =====
-- insertSector against a description by recursion: one pass that keeps what ends before the new
-- sector, and swallows what the new sector touches.
use capio.Base.{
  ℕ, ◌+◌, ◌≤◌, ◌<◌, max, ◌≡◌, refl, ap, inl, inr, Bool-cases, Option-cases, [], ◌∷◌, ◌++◌, ltb, leb,
  if◌then◌else◌, arith, ltb→lt, ltb→ge, ge→ltb, lt→ltb, le→leb, sym, ◌∙◌,
}
use capio.Sectors.{
  Sectors, lower_bound, upper_bound, prev, get_file_size, absorb_right, absorb_left, insert_sector,
}
use capio.Sectors.Order.{
  Apart, Apart-mono, prev-none, get_file_size-cons, right_edge_lem, right_edge-cons,
  lower_bound_above, upper_bound-Apart,
}

-- Swallow each sector that starts at `lim + 1` or before, moving the end on.
unfoldable pub swallow : ℕ → ℕ → ℕ → Sectors → Sectors
swallow s lim e [] = (s, e) ∷ []
swallow s lim e ((a, b) ∷ xs) =
    let rest = swallow s lim (max e b) xs in if leb a (lim + 1) then rest else (s, e) ∷ (a, b) ∷ xs

unfoldable pub merge : ℕ → ℕ → Sectors → Sectors
merge s e [] = (s, e) ∷ []
merge s e ((a, b) ∷ xs) =
    let rest = merge s e xs in
    if ltb b s
    then (a, b) ∷ rest
    else if ltb a s
    then swallow a (max e b) (max e b) ((a, b) ∷ xs)
    else swallow s e e ((a, b) ∷ xs)

swallow_lem :
    (s lim e lo : ℕ) (xs : Sectors)
    → Apart lo xs
    → let (m, r) = upper_bound (lim + 1) xs in swallow s lim e xs ≡ (s, max e (get_file_size m)) ∷ r
unfolding swallow upper_bound get_file_size
swallow_lem s lim e lo [] v = ap (λ k. (s, k) ∷ []) (omega arith)
swallow_lem s lim e lo ((a, b) ∷ xs) v = elim (Bool-cases (leb a (lim + 1))) [
  | inl t ↦ rw t (
      swallow_lem s lim (max e b) (b + 1) xs v.2
      ∙ ap (λ k. (s, k) ∷ (upper_bound (lim + 1) xs).1)
          (omega (
            arith,
            get_file_size-cons a b (upper_bound (lim + 1) xs).0
                (upper_bound-Apart (lim + 1) (b + 1) xs v.2),
          )))
  | inr f ↦ rw f (ap (λ k. (s, k) ∷ (a, b) ∷ xs) (omega arith))
]

absorb_right-nil :
    (s e lo : ℕ) (xs : Sectors) → Apart lo xs → absorb_right s e [] xs ≡ swallow s e e xs
unfolding absorb_right
absorb_right-nil s e lo xs v =
    ap (λ k. (s, k) ∷ (upper_bound (e + 1) xs).1) (right_edge_lem e _)
    ∙ sym (swallow_lem s e e lo xs v)

absorb_right-cons :
    (s e a b : ℕ) (before after : Sectors)
    → b ≤ e
    → absorb_right s e ((a, b) ∷ before) after ≡ (a, b) ∷ absorb_right s e before after
unfolding absorb_right
absorb_right-cons s e a b before after h =
    ap (λ k. (a, b) ∷ (before ++ ((s, k) ∷ (upper_bound (e + 1) after).1)))
      (right_edge-cons e a b (before ++ (upper_bound (e + 1) after).0) h)

-- A sector that ends before the new one stays in front.
absorb_left-cons :
    (s e a b : ℕ) (before after : Sectors)
    → b < s
    → s ≤ e
    → absorb_left s e ((a, b) ∷ before) after ≡ (a, b) ∷ absorb_left s e before after
unfolding absorb_left
absorb_left-cons s e a b before after h k = elim (Option-cases (prev before)) [
  | inl p ↦ ground (arith, absorb_right-cons s e a b before after (omega arith), prev-none before p)
  | inr (q, p) ↦ ground (
    arith,
    absorb_right-cons s e a b before after (omega arith),
    absorb_right-cons q.1.0 (max e q.1.1) a b q.0 (q.1 ∷ after) (omega arith),
  )
]

insert_sector-behind :
    (s e a b : ℕ) (xs : Sectors)
    → a ≤ b
    → b < s
    → s ≤ e
    → insert_sector s e ((a, b) ∷ xs) ≡ (a, b) ∷ insert_sector s e xs
unfolding insert_sector lower_bound
insert_sector-behind s e a b xs g h k =
    let (before, after) = lower_bound s xs in
    rw (lt→ltb a s (omega arith)) (absorb_left-cons s e a b before after h k)

insert_sector-touching :
    (s e a b : ℕ) (xs : Sectors)
    → a < s
    → s ≤ b
    → Apart (b + 1) xs
    → insert_sector s e ((a, b) ∷ xs) ≡ absorb_right a (max e b) [] ((a, b) ∷ xs)
unfolding insert_sector lower_bound absorb_left
insert_sector-touching s e a b xs g h v =
    rw (lower_bound_above s xs (Apart-mono xs (omega arith) v), lt→ltb a s g, prev, le→leb s b h)
      refl

insert_sector-ahead :
    (s e a b : ℕ) (xs : Sectors)
    → s ≤ a
    → insert_sector s e ((a, b) ∷ xs) ≡ absorb_right s e [] ((a, b) ∷ xs)
unfolding insert_sector lower_bound absorb_left
insert_sector-ahead s e a b xs h = rw (ge→ltb a s h, prev) refl

insert_sector-nil : (s e : ℕ) → insert_sector s e [] ≡ (s, e) ∷ []
unfolding insert_sector lower_bound absorb_left absorb_right
insert_sector-nil s e = refl

-- On a valid set, the code does what the one pass does.
pub insert_sector-merge :
    (s e lo : ℕ) (xs : Sectors) → s ≤ e → Apart lo xs → insert_sector s e xs ≡ merge s e xs
unfolding merge
insert_sector-merge s e lo [] h v = insert_sector-nil s e
insert_sector-merge s e lo ((a, b) ∷ xs) h v = elim (Bool-cases (ltb b s)) [
  | inl t ↦ rw t (
      insert_sector-behind s e a b xs v.1 (ltb→lt b s t) h
      ∙ ap (◌∷◌ (a, b)) (insert_sector-merge s e (b + 1) xs h v.2))
  | inr f ↦ rw f (elim (Bool-cases (ltb a s)) [
    | inl t ↦ rw t (
        insert_sector-touching s e a b xs (ltb→lt a s t) (ltb→ge b s f) v.2
        ∙ absorb_right-nil a (max e b) lo ((a, b) ∷ xs) v)
    | inr g ↦
        rw g
          (insert_sector-ahead s e a b xs (ltb→ge a s g) ∙ absorb_right-nil s e lo ((a, b) ∷ xs) v)
  ])
]
