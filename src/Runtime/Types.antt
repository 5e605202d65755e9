-- ===== src/Runtime/Types.antt =====
-- runtime_state_machine.go: the state of a running auction, the commands and the errors. The set of
-- participants (a Go map to empty structs) is a list without repetitions.
use byte_danceliveauctioni.Base.{ℕ, String, List, Option, Result}
use byte_danceliveauctioni.Base.Int.{ℤ, pos}
use byte_danceliveauctioni.Proto.{LotStatus, RuntimeFact}
use byte_danceliveauctioni.Contract.Checks.{ContractError}

pub data RuntimeCode : Type 0 where
  invalid_argument state_missing not_active state_already_exists : RuntimeCode
  config_version_conflict bid_not_live bid_ended lot_cancelled : RuntimeCode
  bid_currency_mismatch bid_already_leading bid_too_low not_live : RuntimeCode
  not_expired already_terminal config_frozen lot_frozen : RuntimeCode

abbrev pub expired_no_bid_reason : String
expired_no_bid_reason = "auction expired without accepted bid"

abbrev pub max_runtime_ranking_limit : ℕ
max_runtime_ranking_limit = 100

pub record RuntimeDecisionError : Type 0 where
  pub code : RuntimeCode
  pub ends_at_unix_ms : ℤ
  pub current_price : ℤ
  pub min_increment : ℤ
  pub minimum_bid : ℤ
  pub lot_version : ℤ

-- An error of a decision: a rejection, or a fact that the contract refuses.
pub data RuntimeError : Type 0 where
  rejected : RuntimeDecisionError → RuntimeError
  build_fact : ContractError → RuntimeError

pub record RuntimeConfig : Type 0 where
  pub lot_id : String
  pub room_id : String
  pub main_account_id : String
  pub title : String
  pub image_url : String
  pub config_version : ℤ
  pub currency : String
  pub start_price_fen : ℤ
  pub min_increment_fen : ℤ
  pub cap_price_fen : Option ℤ
  pub duration_ms : ℤ
  pub anti_snipe_window_ms : ℤ
  pub anti_snipe_extend_ms : ℤ
  pub max_extend_count : ℤ

pub record RankingEntry : Type 0 where
  pub user_id : String
  pub masked_nickname : String
  pub avatar_url : String
  pub amount_fen : ℤ
  pub bid_at_unix_ms : ℤ

pub record RuntimeState : Type 0 where
  pub config : RuntimeConfig
  pub status : LotStatus
  pub version : ℤ
  pub current_price_fen : ℤ
  pub leading_user_id : String
  pub leading_nickname : String
  pub winner_user_id : String
  pub winner_nickname : String
  pub final_price_fen : ℤ
  pub started_at_unix_ms : ℤ
  pub ends_at_unix_ms : ℤ
  pub settled_at_unix_ms : ℤ
  pub cancelled_at_unix_ms : ℤ
  pub cancel_reason : String
  pub bid_count : ℤ
  pub participant_ids : List String
  pub extend_count : ℤ
  pub order_id : String
  pub top_ranking : List RankingEntry

pub record CommandMeta : Type 0 where
  pub event_id : String
  pub trace_id : String
  pub idempotency_key : String

pub record StartLot : Type 0 where
  pub meta : CommandMeta
  pub config : RuntimeConfig
  pub previous_status : LotStatus
  pub previous_lot_version : ℤ
  pub now_unix_ms : ℤ

pub record PlaceBid : Type 0 where
  pub meta : CommandMeta
  pub bid_id : String
  pub user_id : String
  pub nickname : String
  pub avatar_url : String
  pub amount_fen : ℤ
  pub currency : String
  pub order_id : String
  pub ranking_limit : ℤ
  pub now_unix_ms : ℤ

pub record CancelLot : Type 0 where
  pub meta : CommandMeta
  pub reason : String
  pub operator_id : String
  pub now_unix_ms : ℤ

pub record CloseIfExpired : Type 0 where
  pub meta : CommandMeta
  pub order_id : String
  pub now_unix_ms : ℤ

pub record SyncLotConfig : Type 0 where
  pub meta : CommandMeta
  pub expected_config_version : ℤ
  pub next_config : RuntimeConfig
  pub now_unix_ms : ℤ

pub record RuntimeDecision : Type 0 where
  pub state : RuntimeState
  pub fact : RuntimeFact

abbrev pub Decision : Type 0
Decision = Result RuntimeError RuntimeDecision

-- `runtimeReject`.
abbrev pub runtime_reject : RuntimeCode → RuntimeError
runtime_reject code = rejected (record {
  code = code;
  ends_at_unix_ms = pos 0;
  current_price = pos 0;
  min_increment = pos 0;
  minimum_bid = pos 0;
  lot_version = pos 0;
})
