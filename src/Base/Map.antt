-- ===== src/Base/Map.antt =====
-- `std::unordered_map` with a key type that has equality, as an association list: the order of the
-- entries is not observed by the code that is modelled.
use capio.Base.Tests.{Key, ◌==◌, if◌then◌else◌, beq_self, beq_ne, eq_of_beq, ne_of_beq, Bool-cases}
use mathlib.Core.Path.{◌≡◌, refl, sym, ap, ◌∙◌}
use mathlib.Core.Logic.{inl, inr, ◌≢◌}
use mathlib.Core.Option.{Option, none, some}
use mathlib.Core.List.{List, [], ◌∷◌}

abbrev pub Map {ℓ κ} : Type ℓ → Type κ → Type (ℓ ⊔ κ)
Map K V = List (K × V)

module _ {ℓ κ} {K : Type ℓ} {V : Type κ} ⦃e : Key K⦄ where
  -- `find`
  unfoldable pub lookup : K → Map K V → Option V
  lookup k [] = none
  lookup k ((j, v) ∷ m) = if j == k then some v else lookup k m

  -- `m[k] = v`
  unfoldable pub insert : K → V → Map K V → Map K V
  insert k v [] = (k, v) ∷ []
  insert k v ((j, w) ∷ m) = if j == k then (k, v) ∷ m else (j, w) ∷ insert k v m

  -- `erase(k)`; every entry of the key goes.
  unfoldable pub erase : K → Map K V → Map K V
  erase k [] = []
  erase k ((j, w) ∷ m) = let rest = erase k m in if j == k then rest else (j, w) ∷ rest

  pub lookup-insert_self : (k : K) (v : V) (m : Map K V) → lookup k (insert k v m) ≡ some v
  unfolding lookup insert
  lookup-insert_self k v [] = rw (beq_self k)
  lookup-insert_self k v ((j, w) ∷ m) = elim (Bool-cases (j == k)) [
    | inl t ↦ rw t (rw (beq_self k))
    | inr f ↦ rw f (rw f (lookup-insert_self k v m))
  ]

  pub lookup-insert_ne :
      (k j : K) (v : V) (m : Map K V) → k ≢ j → lookup j (insert k v m) ≡ lookup j m
  unfolding lookup insert
  lookup-insert_ne k j v [] n = rw (beq_ne k j n)
  lookup-insert_ne k j v ((i, w) ∷ m) n = elim (Bool-cases (i == k)) [
    | inl t ↦ rw t (rw (beq_ne k j n, beq_ne i j (λ p. n (sym (eq_of_beq i k t) ∙ p))))
    | inr f ↦ rw f (ap (λ r. if i == j then some w else r) (lookup-insert_ne k j v m n))
  ]

  pub lookup-erase_self : (k : K) (m : Map K V) → lookup k (erase k m) ≡ none
  unfolding lookup erase
  lookup-erase_self k [] = refl
  lookup-erase_self k ((j, w) ∷ m) = elim (Bool-cases (j == k)) [
    | inl t ↦ rw t (lookup-erase_self k m)
    | inr f ↦ rw f (rw f (lookup-erase_self k m))
  ]

  pub lookup-erase_ne : (k j : K) (m : Map K V) → k ≢ j → lookup j (erase k m) ≡ lookup j m
  unfolding lookup erase
  lookup-erase_ne k j [] n = refl
  lookup-erase_ne k j ((i, w) ∷ m) n = elim (Bool-cases (i == k)) [
    | inl t ↦ rw t (rw (beq_ne i j (λ p. n (sym (eq_of_beq i k t) ∙ p))) (lookup-erase_ne k j m n))
    | inr f ↦ rw f (ap (λ r. if i == j then some w else r) (lookup-erase_ne k j m n))
  ]

  -- What a key is looked up to, whether it is the one that was changed or not.
  pub lookup-insert :
      (k j : K) (v : V) (m : Map K V)
      → lookup j (insert k v m) ≡ (if k == j then some v else lookup j m)
  lookup-insert k j v m = elim (Bool-cases (k == j)) [
    | inl t ↦
        rw t (ap (λ i. lookup i (insert k v m)) (sym (eq_of_beq k j t)) ∙ lookup-insert_self k v m)
    | inr f ↦ rw f (lookup-insert_ne k j v m (ne_of_beq k j f))
  ]

  pub lookup-erase :
      (k j : K) (m : Map K V) → lookup j (erase k m) ≡ (if k == j then none else lookup j m)
  lookup-erase k j m = elim (Bool-cases (k == j)) [
    | inl t ↦ rw t (ap (λ i. lookup i (erase k m)) (sym (eq_of_beq k j t)) ∙ lookup-erase_self k m)
    | inr f ↦ rw f (lookup-erase_ne k j m (ne_of_beq k j f))
  ]
