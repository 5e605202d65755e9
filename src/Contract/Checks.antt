-- ===== src/Contract/Checks.antt =====
-- contract.go: the limits, the errors, and the tests of single fields. What the code takes from
-- other packages is a parameter: the parse of a UUID (github.com/google/uuid) with what the code reads
-- of the result, and the size of the deterministic encoding (google.golang.org/protobuf).
use byte_danceliveauctioni.Base.{
  ℕ, ◌-◌, ◌*◌, ◌^◌, Bool, true, false, not, ◌&&◌, String, Option, none, some, leb, ◌==◌, all,
  Result,
}
use byte_danceliveauctioni.Base.Int.{ℤ, pos, ltb_ℤ, leb_ℤ}
use byte_danceliveauctioni.Base.Text.{codes, len, str_eq, is_empty, trim_space}
use byte_danceliveauctioni.Proto.{RuntimeFact}

abbrev pub max_redis_exact_integer : ℤ
max_redis_exact_integer = pos (2 ^ 53 - 1)

abbrev pub runtime_schema_version : ℤ
runtime_schema_version = pos 1

abbrev pub max_runtime_fact_bytes : ℕ
max_runtime_fact_bytes = 256 * 1024

abbrev pub max_runtime_ranking_items : ℕ
max_runtime_ranking_items = 50

-- What the code reads of a parsed UUID.
pub record Uuid : Type 0 where
  pub version : ℕ
  pub text : String

-- The calls of other packages.
pub record Externals : Type 0 where
  pub parse_uuid : String → Option Uuid
  pub encoded_size : RuntimeFact → Option ℕ

pub data ContractError : Type 0 where
  fact_required unsupported_schema invalid_event_id identity_required trace_id_invalid :
      ContractError
  version_must_advance occurred_at_invalid config_version_invalid command_required : ContractError
  state_required identity_mismatch status_required currency_invalid duration_invalid : ContractError
  window_invalid extend_invalid monetary_invalid cap_price_invalid time_or_count_invalid :
      ContractError
  counters_inconsistent ranking_too_long ranking_item_invalid string_too_long : ContractError
  auction_window_invalid settled_incomplete closed_incomplete not_runtime_status : ContractError
  start_lot_inconsistent place_bid_inconsistent cancel_lot_inconsistent : ContractError
  close_inconsistent sync_inconsistent command_unsupported accepted_bid_invalid : ContractError
  accepted_bid_mismatch draft_unexpected draft_missing draft_invalid draft_mismatch : ContractError
  encoding_failed encoded_too_large : ContractError

unfoldable pub valid_redis_non_negative : ℤ → Bool
valid_redis_non_negative v = leb_ℤ (pos 0) v && leb_ℤ v max_redis_exact_integer

unfoldable pub valid_redis_positive : ℤ → Bool
valid_redis_positive v = ltb_ℤ (pos 0) v && leb_ℤ v max_redis_exact_integer

unfoldable pub valid_required_text : String → ℕ → Bool
valid_required_text value max_bytes =
    not (is_empty value) && leb (len value) max_bytes && str_eq (trim_space value) value

-- The loop reads the first byte of each character, which is its code point or at least 0xC2.
unfoldable pub valid_currency : String → Bool
valid_currency value = len value == 3 && all (λ c. leb b'A' c && leb c b'Z') (codes value)

abbrev pub is_some {ℓ} : {A : Type ℓ} → Option A → Bool
is_some none = false
is_some (some a) = true

-- `uuid.Parse` succeeds with version 7 and gives the trimmed text back.
unfoldable pub is_canonical_v7 : Option Uuid → String → Bool
is_canonical_v7 none value = false
is_canonical_v7 (some id) value = id.version == 7 && str_eq id.text value

unfoldable pub validate_event_id : Externals → String → Bool
unfolding is_canonical_v7
validate_event_id x value = is_canonical_v7 (x.parse_uuid (trim_space value)) (trim_space value)

abbrev pub Check : Type 0
Check = Result ContractError (Unit {0})
