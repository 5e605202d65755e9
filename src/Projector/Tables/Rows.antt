-- ===== src/Projector/Tables/Rows.antt =====
-- What a SELECT finds after the other statements.
use byte_danceliveauctioni.Base.{
  Bool, true, false, List, [], ◌∷◌, ◌++◌, none, some, ◌≡◌, refl, ap, ◌∙◌, Bool-cases, inl, inr,
  arith,
}
use byte_danceliveauctioni.Projector.Tables.{select, update, insert_ignore, exists}

module _ {ℓ} {A : Type ℓ} where
  -- A row that is found has the key.
  pub select_sound :
      (here : A → Bool) (rows : List A) {row : A} → select here rows ≡ some row → here row ≡ true
  select_sound here [] h = cc
  select_sound here (r ∷ rows) h = elim (Bool-cases (here r)) [
    | inl k ↦ ground (arith)
    | inr k ↦ select_sound here rows (ground arith)
  ]

  -- A row that is found stays the first when rows are added.
  pub select-append :
      (here : A → Bool) (rows more : List A) {row : A}
      → select here rows ≡ some row
      → select here (rows ++ more) ≡ some row
  select-append here [] more h = cc
  select-append here (r ∷ rows) more {row} h = elim (Bool-cases (here r)) [
    | inl k ↦ ground arith
    | inr k ↦ let rest = select-append here rows more {row = row} (ground arith) in ground arith
  ]

  -- An added row is found when no other was.
  pub select-append_new :
      (here : A → Bool) (rows : List A) (row : A)
      → select here rows ≡ none
      → here row ≡ true
      → select here (rows ++ row ∷ []) ≡ some row
  select-append_new here [] row h k = ground arith
  select-append_new here (r ∷ rows) row h k = elim (Bool-cases (here r)) [
    | inl e ↦ absurd (ground arith)
    | inr e ↦ let rest = select-append_new here rows row (ground arith) k in ground arith
  ]

  -- The row that is found is the one that an UPDATE of its key changes.
  pub select-update :
      (here at : A → Bool) (set : A → A)
      → ((a : A) → at a ≡ true → here a ≡ true)
      → ((a : A) → at a ≡ true → here (set a) ≡ true)
      → (rows : List A) {row : A} → select here rows ≡ some row
      → at row ≡ true
      → select here (update at set rows) ≡ some (set row)
  select-update here at set narrow keeps [] h k = cc
  select-update here at set narrow keeps (r ∷ rows) {row} h k = elim (Bool-cases (here r)) [
    | inl e ↦
        let same : r ≡ row = ground arith in
        let found : at r ≡ true = ap at same ∙ k in
        let kept = keeps r found in let image = ap set same in ground arith
    | inr e ↦
        let rest = select-update here at set narrow keeps rows {row = row} (ground arith) k in
        elim (Bool-cases (at r)) [
          | inl f ↦ let clash = narrow r f in absurd (ground arith)
          | inr f ↦ ground arith
        ]
  ]

  -- An UPDATE of other rows is not seen.
  pub select-update_other :
      (here at : A → Bool) (set : A → A)
      → ((a : A) → at a ≡ true → here a ≡ false)
      → ((a : A) → at a ≡ true → here (set a) ≡ false)
      → (rows : List A) → select here (update at set rows) ≡ select here rows
  select-update_other here at set apart keeps [] = refl
  select-update_other here at set apart keeps (r ∷ rows) =
      let rest = select-update_other here at set apart keeps rows in
      elim (Bool-cases (at r)) [
        | inl f ↦ let before = apart r f in let after = keeps r f in ground arith
        | inr f ↦ ground arith
      ]

  -- INSERT IGNORE leaves the row that is there.
  pub select-insert_ignore :
      (here : A → Bool) (rows : List A) (new : A) {row : A}
      → select here rows ≡ some row
      → select here (insert_ignore here new rows) ≡ some row
  unfolding insert_ignore exists
  select-insert_ignore here rows new {row} h = ground arith

  pub exists-eq_true :
      (here : A → Bool) (rows : List A) {row : A}
      → select here rows ≡ some row
      → exists here rows ≡ true
  unfolding exists
  exists-eq_true here rows h = ground arith

  pub exists-eq_false :
      (here : A → Bool) (rows : List A) → select here rows ≡ none → exists here rows ≡ false
  unfolding exists
  exists-eq_false here rows h = ground arith
