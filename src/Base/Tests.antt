-- ===== src/Base/Tests.antt =====
-- Boolean tests on the native numbers, the conditional, and lists of guards.
use Prim.Native.Nat.{ℕ, compare, Ordering}
use mathlib.Core.Path.{◌≡◌, refl}
use mathlib.Core.Logic.{◌⊎◌, inl, inr}
use mathlib.Core.Bool.{Bool, true, false, ◌||◌}
use mathlib.Core.Option.{Option, none, some}
use mathlib.Core.List.{List, [], ◌∷◌}

abbrev pub ltb : ℕ → ℕ → Bool
ltb a b = elim (compare a b) [ Ordering.lt ↦ true | _ ↦ false ]

abbrev pub leb : ℕ → ℕ → Bool
leb a b = elim (compare a b) [ Ordering.gt ↦ false | _ ↦ true ]

infix 50 ◌==◌
abbrev pub ◌==◌ : ℕ → ℕ → Bool
a == b = elim (compare a b) [ Ordering.eq ↦ true | _ ↦ false ]

infix 1 if◌then◌else◌
abbrev pub if◌then◌else◌ {ℓ} : {A : Type ℓ} → Bool → A → A → A
if true then x else y = x
if false then x else y = y

pub Bool-cases : (b : Bool) → (b ≡ true) ⊎ (b ≡ false)
Bool-cases true = inl refl
Bool-cases false = inr refl

pub Option-cases {ℓ} : {A : Type ℓ} (o : Option A) → (o ≡ none) ⊎ ((a : A) × (o ≡ some a))
Option-cases none = inl refl
Option-cases (some a) = inr (a, refl)

-- The disjunction of a list of tests: a Go condition `a || b || ...`.
abbrev pub any : List Bool → Bool
any [] = false
any (b ∷ bs) = b || any bs

-- Every test of the list has failed.
abbrev pub AllFalse : List Bool → Type 0
AllFalse [] = Unit {0}
AllFalse (b ∷ bs) = (b ≡ false) × AllFalse bs

pub any-AllFalse : (bs : List Bool) → any bs ≡ false → AllFalse bs
any-AllFalse [] h = tt
any-AllFalse (false ∷ bs) h = (refl, any-AllFalse bs h)
any-AllFalse (true ∷ bs) h = cc

pub AllFalse-any : (bs : List Bool) → AllFalse bs → any bs ≡ false
AllFalse-any [] h = refl
AllFalse-any (false ∷ bs) h = AllFalse-any bs h.1
AllFalse-any (true ∷ bs) h = h.0
