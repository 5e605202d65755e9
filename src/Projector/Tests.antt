-- ===== src/Projector/Tests.antt =====
-- The start of a lot, projected: tests, and the theorems at them.
pub mod Intake
use byte_danceliveauctioni.Base.{
  ℕ, ◌+◌, ◌*◌, ◌^◌, ◌-◌, ◌≤◌, ◌≡◌, ◌⊎◌, refl, arith, Bool, true, false, String, List, [], ◌∷◌,
  Option, none, some, ok, err,
}
use byte_danceliveauctioni.Base.Int.{ℤ, pos, add64, wrap64, ◌≤ℤ◌, ◌<ℤ◌}
use byte_danceliveauctioni.Base.Text.{str_eq, is_empty, is_blank, trim_space, len}
use byte_danceliveauctioni.Proto.{LotRuntimeState, RuntimeFact, live, queued, start_lot}
use byte_danceliveauctioni.Proto.Lot.{is_queued}
use byte_danceliveauctioni.Projection.{empty_lot}
use byte_danceliveauctioni.Contract.Fact.{
  validate_runtime_fact, validate_state_after, validate_size, valid_optional,
}
use byte_danceliveauctioni.Contract.State.{
  validate_fact_state, validate_status_fields, valid_cap_price, valid_ranking_from,
}
use byte_danceliveauctioni.Contract.Command.{
  validate_fact_command, validate_command_result, validate_accepted_bid, validate_order_draft,
  validate_draft_fields,
}
use byte_danceliveauctioni.Contract.Checks.{
  valid_required_text, valid_redis_positive, valid_redis_non_negative, valid_currency,
  validate_event_id,
}
use byte_danceliveauctioni.Contract.Message.{
  valid_event_type, domain_message_id, payload_hash, lot_state_content_hash, canonical_state_hash,
}
use byte_danceliveauctioni.Projector.Tables.{
  OffsetRow, LotRow, RoomRow, Database, exists, insert_ignore,
}
use byte_danceliveauctioni.Projector.Errors.{
  Encodings, Refusals, DatabaseError, bad_conn, Statement, commit, answered, encoded,
  require_one_row, transient, errors_of, is_transient_database_error, lock_offset, Step,
}
use byte_danceliveauctioni.Projector.Build.{
  invalid, set_domain_metadata, domain_message, bid_messages, settled_messages, order_messages,
  lot_state_event, lot_state_messages, enrichment_messages, metadata_lot_document, build_from_state,
  fact_state_of, build_projection,
}
use byte_danceliveauctioni.Projector.Payload.{
  is_terminal_lot_status, starts_lot, clears_queue, exact_seconds, seconds_of_state, project_lot,
  project_lot_payload,
}
use byte_danceliveauctioni.Projector.Write.{
  DecodedRecord, is_lot_at, set_lot, update_projection_lot, is_room_of, set_room,
  update_room_projection, is_state_at, set_state, advance_projection_state, is_inbox, inbox_row,
  insert_projection_inbox, insert_domain_messages, is_partition, is_partition_at, set_offset,
  advance_partition_offset,
}
use byte_danceliveauctioni.Projector.Sales.{
  insert_accepted_bid, upsert_lot_stats, insert_order_draft,
}
use byte_danceliveauctioni.Projector.Apply.{
  ApplyResult, next_offset_of, lock_partition_offset, is_event, same_payload, find_projection_inbox,
  is_state_of, initialize_state, found_state, lock_projection_state, is_lot_of, found_lot,
  lock_projection_lot, metadata_of, expected_config_version, check_state, check_lot,
  write_projection, apply_new_event, skip_duplicate, apply_event, apply_at_offset, apply_from,
  apply_runtime_record,
}
use byte_danceliveauctioni.Projector.Apply.Refines.{
  LedgerStep, ledger_of, apply_runtime_record-LedgerStep,
}
use byte_danceliveauctioni.Projector.Apply.Again.{IsPast, apply_runtime_record-again}
use byte_danceliveauctioni.Projector.Apply.Projected.{IsProjected, apply_runtime_record-IsProjected}
use byte_danceliveauctioni.Projector.Store.{
  Attempt, begun, waited, rolled_back, validate_apply_record, committed, concluded, apply_once,
  retried, apply_attempts, checked_apply, apply, doubled, retry_limit,
}
use byte_danceliveauctioni.Projector.Store.Once.{AtMostOnce, apply-AtMostOnce, apply-IsPast}
use byte_danceliveauctioni.Projector.Store.Delay.{minimum, retry_limit-minimum}
use byte_danceliveauctioni.Projector.Finding.{
  valid_finding, freeze_row, frozen_row, freeze_state, record_projection_finding,
}
use byte_danceliveauctioni.Projector.Finding.Fenced.{record_projection_finding-fences}

abbrev started_after : LotRuntimeState
started_after = record {
  lot_id = "lot-1";
  room_id = "room-1";
  status = live;
  currency = "CNY";
  start_price_fen = pos 1000;
  min_increment_fen = pos 100;
  cap_price_fen = some (pos 5000);
  current_price_fen = pos 1000;
  leading_user_id = "";
  leading_nickname = "";
  winner_user_id = "";
  winner_nickname = "";
  final_price_fen = pos 0;
  started_at_unix_ms = pos 1000000;
  ends_at_unix_ms = pos 1060000;
  settled_at_unix_ms = pos 0;
  cancelled_at_unix_ms = pos 0;
  cancel_reason = "";
  bid_count = pos 0;
  participant_count = pos 0;
  extend_count = pos 0;
  max_extend_count = pos 3;
  order_id = "";
  top_ranking = [];
  duration_ms = some (pos 60000);
  anti_snipe_window_ms = some (pos 10000);
  anti_snipe_extend_ms = some (pos 15000);
}

abbrev pub started : RuntimeFact
started = record {
  event_id = "e0";
  trace_id = "";
  lot_id = "lot-1";
  room_id = "room-1";
  prev_lot_version = pos 4;
  lot_version = pos 5;
  occurred_at_unix_ms = pos 1000000;
  config_version = pos 1;
  command = start_lot;
  state_after = some started_after;
  accepted_bid = none;
  order_draft = none;
  idempotency_key = "e0";
  schema_version = pos 1;
}

-- Encodings that take every text, and a hash that is the text itself.
abbrev pub plain : Encodings
plain = record {
  externals = record {
    parse_uuid = λ s. some (record { version = 7; text = s });
    encoded_size = λ f. some 100;
  };
  codec = record {
    event_bytes = λ e. some "event";
    state_bytes = λ s. some "state";
    sha256_hex = λ s. s;
    sha256_hex_16 = λ s. s;
  };
  decode_lot = λ s. some empty_lot;
  encode_lot = λ l. some "{}";
  encode_bid = λ b. some "{}";
  encode_draft = λ d. some "{}";
  encode_headers = λ h. some "{}";
  valid_json = λ s. true;
  decode_fact = λ s. some started;
  equal_fact = λ f g. str_eq f.event_id g.event_id;
}

abbrev pub first : DecodedRecord
first = record {
  topic = "auction.runtime.projection.v1";
  partition = pos 0;
  offset = pos 7;
  fact = started;
  payload = "fact";
  payload_hash = "fact";
  owner_epoch = pos 1;
  outbox_shard = pos 0;
}

abbrev vase : LotRow
vase = record {
  id = "lot-1";
  room_id = "room-1";
  main_account_id = "acc-1";
  title = "vase";
  description = "";
  image_url = "";
  payload = "{}";
  status = queued;
  queue_status = is_queued;
  queue_position = pos 1;
  currency = "CNY";
  start_price_amount = pos 1000;
  min_increment_amount = pos 100;
  cap_price_amount = some (pos 5000);
  duration_seconds = pos 60;
  anti_snipe_window_seconds = pos 10;
  anti_snipe_extend_seconds = pos 15;
  max_extend_count = pos 3;
  current_price_amount = pos 1000;
  leading_user_id = "";
  leading_nickname = "";
  started_at_unix_ms = pos 0;
  ends_at_unix_ms = pos 0;
  settled_at_unix_ms = pos 0;
  cancel_reason = "";
  cancelled_at_unix_ms = pos 0;
  winner_user_id = "";
  winner_nickname = "";
  final_price_amount = pos 0;
  version = pos 4;
  config_version = pos 1;
}

abbrev pub before : Database
before = record {
  offsets =
      record {
        topic = "auction.runtime.projection.v1";
        kafka_partition = pos 0;
        next_offset = pos 7;
        updated_at_ms = pos 1;
      }
      ∷ [];
  inbox = [];
  states = [];
  lots = vase ∷ [];
  rooms =
      record {
        room_id = "room-1";
        main_account_id = "acc-1";
        active_lot_id = "";
        display_lot_id = "";
        active_lot_version = pos 0;
        updated_at_unix_ms = pos 0;
      }
      ∷ [];
  bids = [];
  participants = [];
  stats = [];
  orders = [];
  order_items = [];
  outbox = [];
  findings = [];
}

abbrev pub willing : Refusals
willing = λ s. none

-- What a run unfolds.
unfoldable pub projector : Bool
unfolding apply_runtime_record apply_from apply_at_offset apply_event skip_duplicate apply_new_event
    write_projection check_lot check_state expected_config_version metadata_of lock_projection_lot
    found_lot is_lot_of lock_projection_state found_state initialize_state is_state_of
    find_projection_inbox same_payload is_event lock_partition_offset next_offset_of
    advance_partition_offset set_offset is_partition_at is_partition insert_domain_messages
    insert_projection_inbox inbox_row is_inbox advance_projection_state set_state is_state_at
    insert_order_draft upsert_lot_stats insert_accepted_bid update_room_projection set_room
    is_room_of update_projection_lot set_lot is_lot_at project_lot_payload project_lot
    seconds_of_state exact_seconds clears_queue starts_lot is_terminal_lot_status build_projection
    fact_state_of build_from_state metadata_lot_document enrichment_messages lot_state_messages
    lot_state_event order_messages settled_messages bid_messages domain_message set_domain_metadata
    invalid encoded answered require_one_row exists insert_ignore domain_message_id valid_event_type
    payload_hash lot_state_content_hash canonical_state_hash validate_runtime_fact
    validate_state_after validate_size valid_optional validate_fact_state validate_status_fields
    valid_cap_price valid_ranking_from validate_fact_command validate_command_result
    validate_accepted_bid validate_order_draft validate_draft_fields valid_required_text
    valid_redis_positive valid_redis_non_negative valid_currency validate_event_id str_eq is_empty
    is_blank trim_space len add64 wrap64
projector = true

outcome_of : Step (Database × ApplyResult) → Database × ApplyResult
outcome_of (ok done) = done
outcome_of (err why) =
    (before, record { next_offset = pos 0; already_advanced = false; duplicate_event = true })

abbrev outcome : Database × ApplyResult
outcome = outcome_of (apply_runtime_record plain willing first (pos 9) before)

runs : apply_runtime_record plain willing first (pos 9) before ≡ ok outcome
unfolding projector outcome_of
runs = refl

tells :
    outcome.1 ≡ record { next_offset = pos 8; already_advanced = false; duplicate_event = false }
unfolding projector outcome_of
tells = refl

apply_runtime_record-again_example :
    apply_runtime_record plain willing first (pos 20) outcome.0
    ≡ ok (
      outcome.0,
      record {
        next_offset = outcome.1.next_offset;
        already_advanced = true;
        duplicate_event = false;
      },
    )
apply_runtime_record-again_example =
    apply_runtime_record-again plain willing willing first (pos 9) (pos 20) before outcome.0
      outcome.1 (omega arith) (omega arith) refl (omega arith) runs

apply_runtime_record-IsProjected_example : IsProjected first before outcome.0
unfolding projector outcome_of
apply_runtime_record-IsProjected_example =
    apply_runtime_record-IsProjected plain willing first (pos 9) before outcome.0 outcome.1 runs
      refl refl

refused : Statement → Option DatabaseError
refused commit = some bad_conn
refused _ = none

-- The COMMIT of the first attempt reports a lost connection, and has taken effect.
abbrev lost : Attempt
lost = record { now_ms = pos 9; refusals = refused; landed = true; rollback = none; wait = none }

abbrev pub fine : Attempt
fine = record { now_ms = pos 10; refusals = willing; landed = true; rollback = none; wait = none }

apply-AtMostOnce_example :
    AtMostOnce plain first before (apply plain first lost (fine ∷ []) before).0
apply-AtMostOnce_example = apply-AtMostOnce plain first lost (fine ∷ []) before (omega arith)

abbrev told : ApplyResult
told = record { next_offset = pos 8; already_advanced = true; duplicate_event = false }

apply-IsPast_example : IsPast first (pos 8) (apply plain first lost (fine ∷ []) before).0
unfolding projector refused apply checked_apply apply_attempts retried waited apply_once begun
    rolled_back errors_of concluded committed validate_apply_record is_transient_database_error
    transient
apply-IsPast_example = apply-IsPast plain first lost (fine ∷ []) before told (omega arith) refl

retry_limit-minimum_example : retry_limit 20 1000 7 ≡ minimum (20 * 2 ^ (7 - 1)) 1000
retry_limit-minimum_example = retry_limit-minimum 20 1000 7 (omega arith)

retry_limit_test : retry_limit 20 1000 7 ≡ 1000
unfolding retry_limit doubled
retry_limit_test = refl

abbrev fenced : Database
fenced = record outcome.0 {
  states = freeze_state started outcome.0.states;
  findings =
      record {
        kind = "PROJECTION_CONFLICT";
        lot_id = "lot-1";
        severity = "P0";
        detail_json = "{}";
        detected_at_ms = pos 30;
      }
      ∷ [];
}

fences :
    record_projection_finding
      (none, none)
      first
      "PROJECTION_CONFLICT"
      "P0"
      true
      (some "{}")
      (pos 30)
      outcome.0
    ≡ ok fenced
unfolding projector outcome_of record_projection_finding valid_finding
fences = refl

record_projection_finding-fences_example :
    (fenced ≡ record fenced { offsets = fenced.offsets }) × ((true ≡ true) ⊎ (false ≡ true))
unfolding projector outcome_of record_projection_finding valid_finding freeze_state freeze_row
    frozen_row
record_projection_finding-fences_example =
    record_projection_finding-fences plain (none, none) first first "PROJECTION_CONFLICT" "P0"
      (some "{}") (pos 30) (pos 40) willing outcome.0 fenced fenced told fences refl refl

apply_runtime_record-LedgerStep_example :
    LedgerStep "e0" (pos 7) (ledger_of first before) (ledger_of first outcome.0)
apply_runtime_record-LedgerStep_example =
    apply_runtime_record-LedgerStep plain willing first (pos 9) before outcome.0 outcome.1 runs
