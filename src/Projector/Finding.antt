-- ===== src/Projector/Finding.antt =====
-- finding.go: why a record could not be applied, kept for the operators, and the lot's freeze.
pub mod Fenced
use byte_danceliveauctioni.Base.{
  String, Bool, true, false, not, ◌||◌, ltb, List, [], ◌∷◌, ◌++◌, Option, none, some, ok, err, ◌>>◌,
  ◌>>=◌, reject_if, if◌then◌else◌,
}
use byte_danceliveauctioni.Base.Int.{ℤ, pos, leb_ℤ}
use byte_danceliveauctioni.Base.Text.{str_eq, len, is_empty, trim_space}
use byte_danceliveauctioni.Proto.{RuntimeFact}
use byte_danceliveauctioni.Projector.Tables.{
  Database, ProjectionStateRow, FindingRow, exists, update,
}
use byte_danceliveauctioni.Projector.Errors.{
  invalid_finding, encoding_failed, DatabaseError, Encodings, Step, answered, encoded,
}
use byte_danceliveauctioni.Projector.Write.{DecodedRecord}
use byte_danceliveauctioni.Projector.Apply.{is_state_of}

unfoldable pub valid_finding : String → String → Bool
valid_finding kind severity =
    if not (str_eq (trim_space kind) kind) || is_empty kind || ltb 32 (len kind)
    then false
    else str_eq severity "P0" || str_eq severity "P1"

unfoldable pub freeze_row : ProjectionStateRow → ProjectionStateRow
freeze_row row = record row { frozen = true }

unfoldable pub frozen_row : RuntimeFact → ProjectionStateRow
frozen_row f = record {
  lot_id = f.lot_id;
  room_id = f.room_id;
  last_event_id = none;
  last_lot_version = pos 0;
  canonical_hash = "";
  frozen = true;
  last_applied_ms = pos 0;
}

-- INSERT ... ON DUPLICATE KEY UPDATE frozen = 1.
unfoldable pub freeze_state : RuntimeFact → List ProjectionStateRow → List ProjectionStateRow
unfolding freeze_row frozen_row
freeze_state f states =
    if exists (is_state_of f) states
    then update (is_state_of f) freeze_row states
    else states ++ frozen_row f ∷ []

-- `recordProjectionFinding`, with the answers of the database to the two statements; the detail, a JSON
-- document on the record and the cause, is given.
unfoldable pub record_projection_finding :
    Option DatabaseError × Option DatabaseError
    → DecodedRecord
    → String
    → String
    → Bool
    → Option String
    → ℤ
    → Database
    → Step Database
record_projection_finding (on_freeze, on_insert) r kind severity freeze detail at db = do
  reject_if (not (valid_finding kind severity) || leb_ℤ at (pos 0)) invalid_finding
  answered (if freeze then on_freeze else none)
  text ← encoded encoding_failed detail
  answered on_insert
  ok (record db {
    states = if freeze then freeze_state r.fact db.states else db.states;
    findings =
        db.findings
        ++ record {
          kind = kind;
          lot_id = r.fact.lot_id;
          severity = severity;
          detail_json = text;
          detected_at_ms = at;
        }
          ∷ [];
  })
