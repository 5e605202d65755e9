-- ===== src/Projector/Finding/Fenced.antt =====
-- A lot that a finding has frozen takes no further event.
use byte_danceliveauctioni.Base.{
  String, Bool, true, not, ◌||◌, List, [], ◌∷◌, ◌++◌, Option, some, ok, ◌≡◌, refl, sym, ap, ◌∙◌,
  Option-cases, inl, inr, ◌⊎◌, if◌then◌else◌, arith, reject_if-eq-ok, >>=-eq-ok, ok_injective,
}
use byte_danceliveauctioni.Base.Int.{ℤ, pos, leb_ℤ}
use byte_danceliveauctioni.Base.Text.{str_eq, str_eq_iff}
use byte_danceliveauctioni.Proto.{RuntimeFact}
use byte_danceliveauctioni.Projector.Tables.{Database, ProjectionStateRow, select, update}
use byte_danceliveauctioni.Projector.Tables.Rows.{
  select-update, select_sound, select-append_new, select-insert_ignore, exists-eq_true,
  exists-eq_false,
}
use byte_danceliveauctioni.Projector.Errors.{
  DatabaseError, invalid_finding, encoding_failed, Encodings, Refusals, answered, encoded,
}
use byte_danceliveauctioni.Projector.Write.{DecodedRecord}
use byte_danceliveauctioni.Projector.Apply.{
  ApplyResult, is_state_of, initialize_state, apply_runtime_record,
}
use byte_danceliveauctioni.Projector.Apply.Event.{IsNewEvent}
use byte_danceliveauctioni.Projector.Apply.Ledger.{
  skipped, repeated, appended, apply_runtime_record-Applied,
}
use byte_danceliveauctioni.Projector.Finding.{
  valid_finding, freeze_row, frozen_row, freeze_state, record_projection_finding,
}

-- The lot has a state, and it is frozen.
pub record IsFenced (f : RuntimeFact) (db : Database) : Type 0 where
  pub row : ProjectionStateRow
  pub found : select (is_state_of f) db.states ≡ some row
  pub frozen : row.frozen ≡ true

freeze_row-parts :
    (f : RuntimeFact) (row : ProjectionStateRow)
    → is_state_of f row ≡ true
    → is_state_of f (freeze_row row) ≡ true
unfolding freeze_row is_state_of
freeze_row-parts f row h = h

freeze_row-frozen : (row : ProjectionStateRow) → (freeze_row row).frozen ≡ true
unfolding freeze_row
freeze_row-frozen row = refl

frozen_row-is_state_of : (f : RuntimeFact) → is_state_of f (frozen_row f) ≡ true
unfolding is_state_of frozen_row
frozen_row-is_state_of f = (str_eq_iff f.lot_id f.lot_id).1 refl

frozen_row-frozen : (f : RuntimeFact) → (frozen_row f).frozen ≡ true
unfolding frozen_row
frozen_row-frozen f = refl

freeze_state-frozen :
    (f : RuntimeFact) (rows : List ProjectionStateRow)
    → (row : ProjectionStateRow) × (select (is_state_of f) (freeze_state f rows) ≡ some row)
      × (row.frozen ≡ true)
unfolding freeze_state
freeze_state-frozen f rows =
    let here = is_state_of f in
    let whole = λ (b : Bool).
      select here (if b then update here freeze_row rows else rows ++ frozen_row f ∷ []) in
    elim (Option-cases (select here rows)) [
      | inl absent ↦ (
        frozen_row f,
        ap whole (exists-eq_false here rows absent)
            ∙ select-append_new here rows (frozen_row f) absent (frozen_row-is_state_of f),
        frozen_row-frozen f,
      )
      | inr (row, found) ↦ (
        freeze_row row,
        ap whole (exists-eq_true here rows found)
            ∙ select-update here here freeze_row (λ a h. h) (freeze_row-parts f) rows found
                (select_sound here rows found),
        freeze_row-frozen row,
      )
    ]

-- The finding with a freeze has fenced the lot.
record_projection_finding-IsFenced :
    (answers : Option DatabaseError × Option DatabaseError) (r : DecodedRecord)
    (kind severity : String) (detail : Option String) (at : ℤ) (db after : Database)
    → record_projection_finding answers r kind severity true detail at db ≡ ok after
    → IsFenced r.fact after
unfolding record_projection_finding
record_projection_finding-IsFenced (on_freeze, on_insert) r kind severity detail at db after h =
    let (u, run) =
      reject_if-eq-ok (not (valid_finding kind severity) || leb_ℤ at (pos 0)) invalid_finding _ h in
    let (v, _, next) = >>=-eq-ok (answered on_freeze) _ run in
    let (text, _, rest) = >>=-eq-ok (encoded encoding_failed detail) _ next in
    let (w, _, last) = >>=-eq-ok (answered on_insert) _ rest in
    let (row, found, is_frozen) = freeze_state-frozen r.fact db.states in
    record {
      row = row;
      found =
          ap (λ (z : Database). select (is_state_of r.fact) z.states) (sym (ok_injective last))
          ∙ found;
      frozen = is_frozen;
    }

-- No new event of the lot passes.
IsFenced-not-IsNewEvent :
    (x : Encodings) (r : DecodedRecord) (at : ℤ) (db after : Database)
    → IsFenced r.fact db
    → IsNewEvent x r at db after
    → ⊥
unfolding initialize_state
IsFenced-not-IsNewEvent x r at db after p n =
    let kept = select-insert_ignore (is_state_of r.fact) db.states _ p.found in
    let found = n.state_found in
    let same : some p.row ≡ some n.state = sym kept ∙ found in
    let row : p.row ≡ n.state = cc in
    let flag = ap (λ (z : ProjectionStateRow). z.frozen) row in
    let one = p.frozen in let two = n.not_frozen in ground arith

is_state_of-same : (f g : RuntimeFact) → g.lot_id ≡ f.lot_id → is_state_of g ≡ is_state_of f
unfolding is_state_of
is_state_of-same f g h = ap (λ (l : String). λ (row : ProjectionStateRow). str_eq row.lot_id l) h

-- For every record for which a finding with a freeze is kept, and every record of the same lot that comes
-- after it: a transaction of the later record commits only when it leaves all tables but that of the offsets
-- as they are, for a record that is behind the offset or whose event has been applied before.
pub record_projection_finding-fences :
    (x : Encodings) (answers : Option DatabaseError × Option DatabaseError)
    (r later : DecodedRecord) (kind severity : String) (detail : Option String) (at now : ℤ)
    (e : Refusals) (db frozen_db after : Database) (result : ApplyResult)
    → record_projection_finding answers r kind severity true detail at db ≡ ok frozen_db
    → later.fact.lot_id ≡ r.fact.lot_id
    → apply_runtime_record x e later now frozen_db ≡ ok (after, result)
    → (after ≡ record frozen_db { offsets = after.offsets })
      × ((result.already_advanced ≡ true) ⊎ (result.duplicate_event ≡ true))
record_projection_finding-fences x answers r later kind severity detail at now e db frozen_db after
      result kept same done =
    let fence =
      record_projection_finding-IsFenced answers r kind severity detail at db frozen_db kept in
    let fenced : IsFenced later.fact frozen_db = record {
      row = fence.row;
      found =
          ap (λ p. select p frozen_db.states) (is_state_of-same r.fact later.fact same)
          ∙ fence.found;
      frozen = fence.frozen;
    } in
    elim (apply_runtime_record-Applied x e later now frozen_db done) [
      | skipped row found below unchanged is ↦ (
        unchanged ∙ ap (λ (z : Database). record frozen_db { offsets = z.offsets }) (sym unchanged),
        inl (ap (λ (z : ApplyResult). z.already_advanced) is),
      )
      | repeated row earlier found at_offset present hash written is ↦ (
        written
            ∙ ap (λ o. record frozen_db { offsets = o })
                (sym (ap (λ (z : Database). z.offsets) written)),
        inr (ap (λ (z : ApplyResult). z.duplicate_event) is),
      )
      | appended row found at_offset absent new is ↦
          absurd (IsFenced-not-IsNewEvent x later now frozen_db after fenced new)
    ]
