-- ===== src/Projector/Apply/Event.antt =====
-- A record whose event is new: what it has passed, and the rows it leaves.
use byte_danceliveauctioni.Base.{
  String, false, not, List, some, ok, >>=-eq-ok, Result, map_err-eq-ok, ◌≡◌, arith,
}
use byte_danceliveauctioni.Base.Int.{ℤ, eqb_ℤ, eqb_ℤ_iff}
use byte_danceliveauctioni.Base.Text.{str_eq, str_eq_iff}
use byte_danceliveauctioni.Proto.{RuntimeFact, LotRuntimeState}
use byte_danceliveauctioni.Contract.Fact.{validate_runtime_fact}
use byte_danceliveauctioni.Projector.Tables.{Database, LotRow, ProjectionStateRow, select}
use byte_danceliveauctioni.Projector.Errors.{
  Encodings, Refusals, answered, encoded, init_state, invalid_projection,
}
use byte_danceliveauctioni.Projector.Build.{
  Built, LotMetadata, build_projection, fact_state_of, invalid,
}
use byte_danceliveauctioni.Projector.Payload.{Seconds, project_lot_payload}
use byte_danceliveauctioni.Projector.Write.{DecodedRecord}
use byte_danceliveauctioni.Projector.Apply.{
  is_state_of, is_lot_of, metadata_of, check_state, check_lot, lock_projection_state, found_state,
  found_lot, expected_config_version, lock_projection_lot, apply_new_event, initialize_state,
}
use byte_danceliveauctioni.Projector.Apply.Passed.{IsWritten, write_projection-IsWritten}

pub record IsNewEvent (x : Encodings) (r : DecodedRecord) (at : ℤ) (db after : Database)
    : Type 0 where
  pub state : ProjectionStateRow
  pub lot : LotRow
  pub fact_state : LotRuntimeState
  pub hash : String
  pub payload : String
  pub seconds : Seconds
  pub state_found : select (is_state_of r.fact) (initialize_state r.fact db.states) ≡ some state
  pub state_room : state.room_id ≡ r.fact.room_id
  pub not_frozen : state.frozen ≡ false
  pub state_version : state.last_lot_version ≡ r.fact.prev_lot_version
  pub lot_found : select (is_lot_of r.fact) db.lots ≡ some lot
  pub lot_room : lot.room_id ≡ r.fact.room_id
  pub lot_version : lot.version ≡ r.fact.prev_lot_version
  pub config_version : lot.config_version ≡ expected_config_version r.fact
  pub valid : validate_runtime_fact x.externals (some r.fact) ≡ ok tt
  pub state_after : r.fact.state_after ≡ some fact_state
  pub written :
      IsWritten r at lot fact_state hash payload seconds
        (initialize_state r.fact db.states)
        db
        after

lock_projection_state-eq-ok :
    (e : Refusals) (f : RuntimeFact) (rows : List ProjectionStateRow) {row : ProjectionStateRow}
    → lock_projection_state e f rows ≡ ok row
    → select (is_state_of f) rows ≡ some row
unfolding lock_projection_state found_state
lock_projection_state-eq-ok e f rows h = ground arith

lock_projection_lot-eq-ok :
    (e : Refusals) (f : RuntimeFact) (rows : List LotRow) {row : LotRow}
    → lock_projection_lot e f rows ≡ ok row
    → select (is_lot_of f) rows ≡ some row
unfolding lock_projection_lot found_lot
lock_projection_lot-eq-ok e f rows h = ground arith

equal_of_not : (a b : String) → not (str_eq a b) ≡ false → a ≡ b
equal_of_not a b h = (str_eq_iff a b).0 (ground arith)

same_of_not : (a b : ℤ) → not (eqb_ℤ a b) ≡ false → a ≡ b
same_of_not a b h = (eqb_ℤ_iff a b).0 (ground arith)

check_state-eq-ok :
    (f : RuntimeFact) (state : ProjectionStateRow)
    → check_state f state ≡ ok tt
    → (state.room_id ≡ f.room_id)
      × (state.frozen ≡ false)
      × (state.last_lot_version ≡ f.prev_lot_version)
unfolding check_state
check_state-eq-ok f state h = (
  equal_of_not state.room_id f.room_id (ground arith),
  ground arith,
  same_of_not state.last_lot_version f.prev_lot_version (ground arith),
)

check_lot-eq-ok :
    (f : RuntimeFact) (lot : LotRow)
    → check_lot f lot ≡ ok tt
    → (lot.room_id ≡ f.room_id)
      × (lot.version ≡ f.prev_lot_version)
      × (lot.config_version ≡ expected_config_version f)
unfolding check_lot
check_lot-eq-ok f lot h = (
  equal_of_not lot.room_id f.room_id (ground arith),
  same_of_not lot.version f.prev_lot_version (ground arith),
  same_of_not lot.config_version (expected_config_version f) (ground arith),
)

invalid-eq-ok : {A E : Type 0} (step : Result E A) {a : A} → invalid step ≡ ok a → step ≡ ok a
unfolding invalid
invalid-eq-ok step h = map_err-eq-ok (λ _. invalid_projection) step h

build_projection-valid :
    (x : Encodings) (f : RuntimeFact) (m : LotMetadata) {built : Built}
    → build_projection x f m ≡ ok built
    → validate_runtime_fact x.externals (some f) ≡ ok tt
unfolding build_projection
build_projection-valid x f m h =
    let a = >>=-eq-ok (invalid (validate_runtime_fact x.externals (some f))) _ h in
    invalid-eq-ok (validate_runtime_fact x.externals (some f)) a.1

fact_state_of-eq-ok :
    (f : RuntimeFact) {s : LotRuntimeState} → fact_state_of f ≡ ok s → f.state_after ≡ some s
unfolding fact_state_of encoded
fact_state_of-eq-ok f h = ground arith

pub apply_new_event-IsNewEvent :
    (x : Encodings) (e : Refusals) (r : DecodedRecord) (at : ℤ) (db : Database) {after : Database}
    → apply_new_event x e r at db ≡ ok after
    → IsNewEvent x r at db after
unfolding apply_new_event
apply_new_event-IsNewEvent x e r at db {after} h =
    let rows = initialize_state r.fact db.states in
    let (u, _, h1) = >>=-eq-ok (answered (e init_state)) _ h in
    let (state, found, h2) = >>=-eq-ok (lock_projection_state e r.fact rows) _ h1 in
    let (v, checked, h3) = >>=-eq-ok (check_state r.fact state) _ h2 in
    let (lot, found_lot, h4) = >>=-eq-ok (lock_projection_lot e r.fact db.lots) _ h3 in
    let (w, checked_lot, h5) = >>=-eq-ok (check_lot r.fact lot) _ h4 in
    let (built, is_built, h6) = >>=-eq-ok (build_projection x r.fact (metadata_of lot)) _ h5 in
    let (s, is_state, h7) = >>=-eq-ok (fact_state_of r.fact) _ h6 in
    let (payload, is_payload, h8) = >>=-eq-ok (project_lot_payload x lot.payload r.fact s) _ h7 in
    let a = check_state-eq-ok r.fact state checked in
    let b = check_lot-eq-ok r.fact lot checked_lot in
    record {
      state = state;
      lot = lot;
      fact_state = s;
      hash = built.canonical_state_hash;
      payload = payload.0;
      seconds = payload.1;
      state_found = lock_projection_state-eq-ok e r.fact rows found;
      state_room = a.0;
      not_frozen = a.1;
      state_version = a.2;
      lot_found = lock_projection_lot-eq-ok e r.fact db.lots found_lot;
      lot_room = b.0;
      lot_version = b.1;
      config_version = b.2;
      valid = build_projection-valid x r.fact (metadata_of lot) is_built;
      state_after = fact_state_of-eq-ok r.fact is_state;
      written = write_projection-IsWritten x e r at lot s built payload rows db h8;
    }
