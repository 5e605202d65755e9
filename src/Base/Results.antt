-- ===== src/Base/Results.antt =====
-- Go's pair of a value and an error: a computation succeeds or stops with its error.
use mathlib.Core.Path.{◌≡◌, refl}
use mathlib.Core.Logic.{◌⊎◌, inl, inr}
use mathlib.Core.Bool.{Bool, true, false}

pub data Result {ℓ κ} (E : Type κ) (A : Type ℓ) : Type (ℓ ⊔ κ) where
  ok : A → Result E A
  err : E → Result E A

-- `if b { return e }`.
abbrev pub reject_if {μ} : {E : Type μ} → Bool → E → Result E (Unit {0})
reject_if true why = err why
reject_if false why = ok tt

-- `fmt.Errorf("...: %w", err)` around the error of a step.
abbrev pub map_err {ℓ κ μ} :
    {E : Type κ} {F : Type μ} {A : Type ℓ} → (E → F) → Result E A → Result F A
map_err wrap (ok a) = ok a
map_err wrap (err why) = err (wrap why)

-- `x, err := step(); if err != nil { return err }`, then the rest.
module _ {μ} {E : Type μ} where
  infixl 5 ◌>>=◌ ◌>>◌
  abbrev pub ◌>>=◌ {ℓ κ} : {A : Type ℓ} {C : Type κ} → Result E A → (A → Result E C) → Result E C
  err why >>= rest = err why
  ok a >>= rest = rest a

  abbrev pub ◌>>◌ {κ} : {C : Type κ} → Result E (Unit {0}) → Result E C → Result E C
  step >> rest = step >>= λ _. rest

  pub >>=-eq-ok {ℓ κ} :
      {A : Type ℓ} {C : Type κ} (step : Result E A) (rest : A → Result E C) {c : C}
      → (step >>= rest) ≡ ok c
      → (a : A) × (step ≡ ok a) × (rest a ≡ ok c)
  >>=-eq-ok (err why) rest done = cc
  >>=-eq-ok (ok a) rest done = (a, refl, done)

  -- The step failed, or the rest did.
  pub >>=-eq-err {ℓ κ} :
      {A : Type ℓ} {C : Type κ} (step : Result E A) (rest : A → Result E C) {why : E}
      → (step >>= rest) ≡ err why
      → (step ≡ err why) ⊎ ((a : A) × (step ≡ ok a) × (rest a ≡ err why))
  >>=-eq-err (err e) rest failed = inl cc
  >>=-eq-err (ok a) rest failed = inr (a, refl, failed)

  -- A guard that did not stop the run has failed, and the rest has run.
  pub reject_if-eq-ok {κ} :
      {C : Type κ} (b : Bool) (why : E) (rest : Result E C) {c : C}
      → (reject_if b why >> rest) ≡ ok c
      → (b ≡ false) × (rest ≡ ok c)
  reject_if-eq-ok true why rest done = cc
  reject_if-eq-ok false why rest done = (refl, done)

pub map_err-eq-ok {ℓ κ μ} :
    {E : Type κ} {F : Type μ} {A : Type ℓ} (wrap : E → F) (step : Result E A) {a : A}
    → map_err wrap step ≡ ok a
    → step ≡ ok a
map_err-eq-ok wrap (err why) done = cc
map_err-eq-ok wrap (ok a) done = cc

pub ok_injective {ℓ κ} :
    {E : Type κ} {A : Type ℓ} {a b : A} (h : Path (Result E A) (ok a) (ok b)) → a ≡ b
ok_injective h = cc
