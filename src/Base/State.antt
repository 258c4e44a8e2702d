-- ===== src/Base/State.antt =====
-- Operations on a state that may end the server (ERR_EXIT) or fault; then there is no result.
use mathlib.Core.Option.{Option, none, some}
use mathlib.Core.Path.{◌≡◌}
use mathlib.Core.Bool.{Bool, true, false}

abbrev pub St : Type 0 → Type 0 → Type 0
St S A = S → Option (A × S)

infixl 5 ◌>>=◌ ◌>>◌
abbrev pub ◌>>=◌ : {S A B : Type 0} → St S A → (A → St S B) → St S B
◌>>=◌ m f s = elim (m s) [ none ↦ none | some (a, s') ↦ f a s' ]

abbrev pub ◌>>◌ : {S B : Type 0} → St S (Unit {0}) → St S B → St S B
m >> k = m >>= λ _. k

abbrev pub pure : {S A : Type 0} → A → St S A
pure a s = some (a, s)

abbrev pub exit : {S A : Type 0} → St S A
exit s = none

abbrev pub gets : {S A : Type 0} → (S → A) → St S A
gets f s = some (f s, s)

abbrev pub modify : {S : Type 0} → (S → S) → St S (Unit {0})
modify f s = some (tt, f s)

abbrev pub from_option : {S A : Type 0} → Option A → St S A
from_option none s = none
from_option (some a) s = some (a, s)

abbrev pub when : {S : Type 0} → Bool → St S (Unit {0}) → St S (Unit {0})
when true m = m
when false m = pure tt

-- The first step of a chain, when its result is known.
pub >>-run :
    {S B : Type 0} (m : St S (Unit {0})) (k : St S B) (s s' : S)
    → m s ≡ some (tt, s')
    → (m >> k) s ≡ k s'
>>-run m k s s' e = rw (e, ◌>>=◌)

pub >>=-run :
    {S A B : Type 0} (m : St S A) (k : A → St S B) (s s' : S) (a : A)
    → m s ≡ some (a, s')
    → (m >>= k) s ≡ k a s'
>>=-run m k s s' a e = rw (e, ◌>>=◌)
