-- ===== src/Projector/Apply/Projected.antt =====
-- The rows of the lot of a new event, before and after.
use byte_danceliveauctioni.Base.{String, true, false, some, ok, ◌≡◌, refl, ap, ◌∙◌, arith}
use byte_danceliveauctioni.Base.Int.{ℤ, pos, add64, eqb_ℤ_iff}
use byte_danceliveauctioni.Base.Text.{str_eq_iff}
use byte_danceliveauctioni.Proto.{RuntimeFact, LotRuntimeState}
use byte_danceliveauctioni.Contract.Checks.{Externals}
use byte_danceliveauctioni.Contract.Fact.{validate_runtime_fact}
use byte_danceliveauctioni.Projector.Tables.{Database, LotRow, ProjectionStateRow, select}
use byte_danceliveauctioni.Projector.Tables.Rows.{select-update, select_sound}
use byte_danceliveauctioni.Projector.Errors.{Encodings, Refusals}
use byte_danceliveauctioni.Projector.Payload.{Seconds}
use byte_danceliveauctioni.Projector.Write.{
  DecodedRecord, is_lot_at, set_lot, is_state_at, set_state,
}
use byte_danceliveauctioni.Projector.Apply.{
  ApplyResult, is_state_of, is_lot_of, initialize_state, apply_runtime_record,
}
use byte_danceliveauctioni.Projector.Apply.Event.{IsNewEvent}
use byte_danceliveauctioni.Projector.Apply.Ledger.{
  skipped, repeated, appended, apply_runtime_record-Applied,
}

-- The lot's row shows the state of the fact.
pub record Shows (f : RuntimeFact) (s : LotRuntimeState) (row : LotRow) : Type 0 where
  pub version : row.version ≡ f.lot_version
  pub config_version : row.config_version ≡ f.config_version
  pub status : row.status ≡ s.status
  pub current_price : row.current_price_amount ≡ s.current_price_fen
  pub leader : row.leading_user_id ≡ s.leading_user_id
  pub winner : row.winner_user_id ≡ s.winner_user_id
  pub final_price : row.final_price_amount ≡ s.final_price_fen
  pub ends_at : row.ends_at_unix_ms ≡ s.ends_at_unix_ms

-- The lot before and after its new event.
pub record IsProjected (r : DecodedRecord) (db after : Database) : Type 0 where
  pub fact_state : LotRuntimeState
  pub before_row : LotRow
  pub after_row : LotRow
  pub state_row : ProjectionStateRow
  pub of_fact : r.fact.state_after ≡ some fact_state
  pub found_before : select (is_lot_of r.fact) db.lots ≡ some before_row
  pub version_before : before_row.version ≡ r.fact.prev_lot_version
  pub one_more : r.fact.lot_version ≡ add64 r.fact.prev_lot_version (pos 1)
  pub found_after : select (is_lot_of r.fact) after.lots ≡ some after_row
  pub shows : Shows r.fact fact_state after_row
  pub identity_kept : (after_row.id ≡ before_row.id) × (after_row.room_id ≡ before_row.room_id)
  pub state_found : select (is_state_of r.fact) after.states ≡ some state_row
  pub state_version : state_row.last_lot_version ≡ r.fact.lot_version
  pub state_event : state_row.last_event_id ≡ some r.fact.event_id
  pub was_frozen : state_row.frozen ≡ false

set_lot-Shows :
    (f : RuntimeFact) (s : LotRuntimeState) (payload : String) (t : Seconds) (row : LotRow)
    → Shows f s (set_lot f s payload t row)
unfolding set_lot
set_lot-Shows f s payload t row = record {
  version = refl;
  config_version = refl;
  status = refl;
  current_price = refl;
  leader = refl;
  winner = refl;
  final_price = refl;
  ends_at = refl;
}

set_lot-identity :
    (f : RuntimeFact) (s : LotRuntimeState) (payload : String) (t : Seconds) (row : LotRow)
    → ((set_lot f s payload t row).id ≡ row.id)
      × ((set_lot f s payload t row).room_id ≡ row.room_id)
unfolding set_lot
set_lot-identity f s payload t row = (refl, refl)

lot_narrow :
    (f : RuntimeFact) (c : ℤ) (row : LotRow) → is_lot_at f c row ≡ true → is_lot_of f row ≡ true
unfolding is_lot_at is_lot_of
lot_narrow f c row h = ground arith

lot_keeps :
    (f : RuntimeFact) (s : LotRuntimeState) (payload : String) (t : Seconds) (c : ℤ) (row : LotRow)
    → is_lot_at f c row ≡ true
    → is_lot_of f (set_lot f s payload t row) ≡ true
unfolding is_lot_at is_lot_of set_lot
lot_keeps f s payload t c row h = ground arith

lot_at :
    (f : RuntimeFact) (row : LotRow)
    → is_lot_of f row ≡ true
    → row.version ≡ f.prev_lot_version
    → is_lot_at f row.config_version row ≡ true
unfolding is_lot_at is_lot_of
lot_at f row h k =
    let a = (eqb_ℤ_iff row.version f.prev_lot_version).1 k in
    let b = (eqb_ℤ_iff row.config_version row.config_version).1 refl in ground arith

state_narrow :
    (f : RuntimeFact) (row : ProjectionStateRow)
    → is_state_at f row ≡ true
    → is_state_of f row ≡ true
unfolding is_state_at is_state_of
state_narrow f row h = ground arith

state_keeps :
    (f : RuntimeFact) (hash : String) (at : ℤ) (row : ProjectionStateRow)
    → is_state_at f row ≡ true
    → is_state_of f (set_state f hash at row) ≡ true
unfolding is_state_at is_state_of set_state
state_keeps f hash at row h = ground arith

state_at :
    (f : RuntimeFact) (row : ProjectionStateRow)
    → is_state_of f row ≡ true
    → row.room_id ≡ f.room_id
    → row.last_lot_version ≡ f.prev_lot_version
    → row.frozen ≡ false
    → is_state_at f row ≡ true
unfolding is_state_at is_state_of
state_at f row h k l m =
    let a = (str_eq_iff row.room_id f.room_id).1 k in
    let b = (eqb_ℤ_iff row.last_lot_version f.prev_lot_version).1 l in ground arith

set_state-parts :
    (f : RuntimeFact) (hash : String) (at : ℤ) (row : ProjectionStateRow)
    → ((set_state f hash at row).last_lot_version ≡ f.lot_version)
      × ((set_state f hash at row).last_event_id ≡ some f.event_id)
      × ((set_state f hash at row).frozen ≡ row.frozen)
unfolding set_state
set_state-parts f hash at row = (refl, refl, refl)

-- The contract lets a fact advance the version by one.
validate_runtime_fact-version :
    (x : Externals) (f : RuntimeFact)
    → validate_runtime_fact x (some f) ≡ ok tt
    → f.lot_version ≡ add64 f.prev_lot_version (pos 1)
unfolding validate_runtime_fact
validate_runtime_fact-version x f h =
    (eqb_ℤ_iff f.lot_version (add64 f.prev_lot_version (pos 1))).0 (ground arith)

IsNewEvent-IsProjected :
    (x : Encodings) (r : DecodedRecord) (at : ℤ) (db after : Database)
    → IsNewEvent x r at db after
    → IsProjected r db after
IsNewEvent-IsProjected x r at db after n =
    let f = r.fact in
    let w = n.written in
    let t = set_state-parts f n.hash at n.state in
    record {
      fact_state = n.fact_state;
      before_row = n.lot;
      after_row = set_lot f n.fact_state n.payload n.seconds n.lot;
      state_row = set_state f n.hash at n.state;
      of_fact = n.state_after;
      found_before = n.lot_found;
      version_before = n.lot_version;
      one_more = validate_runtime_fact-version x.externals f n.valid;
      found_after =
          ap (select (is_lot_of f)) w.lots
          ∙ select-update (is_lot_of f) (is_lot_at f n.lot.config_version)
              (set_lot f n.fact_state n.payload n.seconds) (lot_narrow f n.lot.config_version)
              (lot_keeps f n.fact_state n.payload n.seconds n.lot.config_version) db.lots
              n.lot_found
              (lot_at f n.lot (select_sound (is_lot_of f) db.lots n.lot_found) n.lot_version);
      shows = set_lot-Shows f n.fact_state n.payload n.seconds n.lot;
      identity_kept = set_lot-identity f n.fact_state n.payload n.seconds n.lot;
      state_found =
          ap (select (is_state_of f)) w.states
          ∙ select-update (is_state_of f) (is_state_at f) (set_state f n.hash at) (state_narrow f)
              (state_keeps f n.hash at) (initialize_state f db.states) n.state_found
              (state_at f n.state
                (select_sound (is_state_of f) (initialize_state f db.states) n.state_found)
                n.state_room n.state_version n.not_frozen);
      state_version = t.0;
      state_event = t.1;
      was_frozen = t.2 ∙ n.not_frozen;
    }

-- For every record and database: if the transaction commits and reports neither an advanced offset nor a
-- duplicate, then the lot's row was at the version before the fact's, one less than the fact's, and it now
-- shows the fact's state (version, configuration, status, price, leader, winner, final price and end)
-- with its id and room kept; the lot's projection state has the fact's version and event and is not frozen.
pub apply_runtime_record-IsProjected :
    (x : Encodings) (e : Refusals) (r : DecodedRecord) (at : ℤ) (db after : Database)
    (result : ApplyResult)
    → apply_runtime_record x e r at db ≡ ok (after, result)
    → result.already_advanced ≡ false
    → result.duplicate_event ≡ false
    → IsProjected r db after
apply_runtime_record-IsProjected x e r at db after result done new once =
    elim (apply_runtime_record-Applied x e r at db done) [
      | skipped row found below same is ↦ absurd (ground arith)
      | repeated row earlier found same present hash written is ↦ absurd (ground arith)
      | appended row found same absent event is ↦ IsNewEvent-IsProjected x r at db after event
    ]
