-- ===== src/Projector/Apply/Passed.antt =====
-- What a transaction that commits has passed, and the rows it leaves.
use byte_danceliveauctioni.Base.{
  String, List, [], ◌∷◌, ◌++◌, Option, ok, ◌>>◌, ℕ, reject_if-eq-ok, ok_injective, >>=-eq-ok, ◌≡◌,
  sym, ap, ◌∙◌,
}
use byte_danceliveauctioni.Base.Int.{ℤ}
use byte_danceliveauctioni.Proto.{RuntimeFact, LotRuntimeState}
use byte_danceliveauctioni.Projector.Tables.{
  Database, InboxRow, LotRow, OffsetRow, ProjectionStateRow, update, exists,
}
use byte_danceliveauctioni.Projector.Errors.{
  Encodings, insert_inbox, duplicate_entry, Refusals, answered, require_one_row, DatabaseError,
}
use byte_danceliveauctioni.Projector.Build.{Built}
use byte_danceliveauctioni.Projector.Payload.{Seconds}
use byte_danceliveauctioni.Projector.Write.{
  DecodedRecord, is_inbox, is_lot_at, set_lot, update_projection_lot, update_room_projection,
  is_state_at, set_state, advance_projection_state, inbox_row, insert_projection_inbox,
  insert_domain_messages, is_partition_at, set_offset, advance_partition_offset,
}
use byte_danceliveauctioni.Projector.Sales.{
  insert_accepted_bid, upsert_lot_stats, insert_order_draft,
}
use byte_danceliveauctioni.Projector.Apply.{write_projection}

-- The rows that the writes leave, in the tables that tell what has been applied.
pub record IsWritten (r : DecodedRecord) (at : ℤ) (lot : LotRow) (s : LotRuntimeState)
    (hash payload : String) (seconds : Seconds) (initial : List ProjectionStateRow)
    (db after : Database) : Type 0 where
  pub offsets : after.offsets ≡ update (is_partition_at r) (set_offset r at) db.offsets
  pub inbox : after.inbox ≡ db.inbox ++ inbox_row r at ∷ []
  pub states : after.states ≡ update (is_state_at r.fact) (set_state r.fact hash at) initial
  pub lots :
      after.lots
      ≡ update (is_lot_at r.fact lot.config_version) (set_lot r.fact s payload seconds) db.lots
  pub findings : after.findings ≡ db.findings

-- An UPDATE that must change one row.
updated :
    {A : Type 0} (o : Option DatabaseError) (rows : ℕ) (a : A) {b : A}
    → (answered o >> (require_one_row rows >> ok a)) ≡ ok b
    → b ≡ a
updated o rows a h =
    let p = >>=-eq-ok (answered o) _ h in let q = >>=-eq-ok (require_one_row rows) _ p.2 in cc

pub advance_partition_offset-eq-ok :
    (e : Refusals) (r : DecodedRecord) (at : ℤ) (rows : List OffsetRow) {rows' : List OffsetRow}
    → advance_partition_offset e r at rows ≡ ok rows'
    → rows' ≡ update (is_partition_at r) (set_offset r at) rows
unfolding advance_partition_offset
advance_partition_offset-eq-ok e r at rows h = updated (e _) _ _ h

update_projection_lot-eq-ok :
    (e : Refusals) (f : RuntimeFact) (s : LotRuntimeState) (payload : String) (t : Seconds) (c : ℤ)
    (rows : List LotRow) {rows' : List LotRow}
    → update_projection_lot e f s payload t c rows ≡ ok rows'
    → rows' ≡ update (is_lot_at f c) (set_lot f s payload t) rows
unfolding update_projection_lot
update_projection_lot-eq-ok e f s payload t c rows h = updated (e _) _ _ h

advance_projection_state-eq-ok :
    (e : Refusals) (f : RuntimeFact) (hash : String) (at : ℤ) (rows : List ProjectionStateRow)
    {rows' : List ProjectionStateRow}
    → advance_projection_state e f hash at rows ≡ ok rows'
    → rows' ≡ update (is_state_at f) (set_state f hash at) rows
unfolding advance_projection_state
advance_projection_state-eq-ok e f hash at rows h = updated (e _) _ _ h

insert_projection_inbox-eq-ok :
    (e : Refusals) (r : DecodedRecord) (at : ℤ) (rows : List InboxRow) {rows' : List InboxRow}
    → insert_projection_inbox e r at rows ≡ ok rows'
    → rows' ≡ rows ++ inbox_row r at ∷ []
unfolding insert_projection_inbox is_inbox
insert_projection_inbox-eq-ok e r at rows h =
    let p = >>=-eq-ok (answered (e insert_inbox)) _ h in
    sym (
      ok_injective
        (reject_if-eq-ok (exists (is_inbox r) rows) duplicate_entry
          (ok (rows ++ inbox_row r at ∷ [])) p.2).1)

pub write_projection-IsWritten :
    (x : Encodings) (e : Refusals) (r : DecodedRecord) (at : ℤ) (lot : LotRow) (s : LotRuntimeState)
    (built : Built) (payload : String × Seconds) (states : List ProjectionStateRow) (db : Database)
    {after : Database}
    → write_projection x e r at lot s built payload states db ≡ ok after
    → IsWritten r at lot s built.canonical_state_hash payload.0 payload.1 states db after
unfolding write_projection
write_projection-IsWritten x e r at lot s built (payload, seconds) states db {after} h =
    let a =
      >>=-eq-ok (update_projection_lot e r.fact s payload seconds lot.config_version db.lots) _ h in
    let b = >>=-eq-ok (update_room_projection e r.fact s lot.main_account_id db.rooms) _ a.2 in
    let c =
      >>=-eq-ok
        (insert_accepted_bid x e r.fact s lot.main_account_id r.fact.accepted_bid
          (db.bids, db.participants))
        _ b.2 in
    let d = >>=-eq-ok (upsert_lot_stats e r.fact s lot.main_account_id db.stats) _ c.2 in
    let f =
      >>=-eq-ok (insert_order_draft x e r.fact r.fact.order_draft (db.orders, db.order_items)) _
        d.2 in
    let g =
      >>=-eq-ok (advance_projection_state e r.fact built.canonical_state_hash at states) _ f.2 in
    let i = >>=-eq-ok (insert_projection_inbox e r at db.inbox) _ g.2 in
    let j = >>=-eq-ok (insert_domain_messages x e built.domain_messages db.outbox) _ i.2 in
    let k = >>=-eq-ok (advance_partition_offset e r at db.offsets) _ j.2 in
    let whole = ok_injective k.2 in
    record {
      offsets =
          sym (ap (λ (z : Database). z.offsets) whole)
          ∙ advance_partition_offset-eq-ok e r at db.offsets k.1;
      inbox =
          sym (ap (λ (z : Database). z.inbox) whole)
          ∙ insert_projection_inbox-eq-ok e r at db.inbox i.1;
      states =
          sym (ap (λ (z : Database). z.states) whole)
          ∙ advance_projection_state-eq-ok e r.fact built.canonical_state_hash at states g.1;
      lots =
          sym (ap (λ (z : Database). z.lots) whole)
          ∙ update_projection_lot-eq-ok e r.fact s payload seconds lot.config_version db.lots a.1;
      findings = sym (ap (λ (z : Database). z.findings) whole);
    }
