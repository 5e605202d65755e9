-- ===== src/Lot/Messages.antt =====
-- lot.go: the getters of the messages, which answer for a nil pointer too, the errors, and the parts
-- of the code that copy messages. proto.Clone copies a value, so it has no counterpart.
use byte_danceliveauctioni.Base.{
  ℕ, suc, Bool, true, false, String, List, [], ◌∷◌, Option, none, some, if◌then◌else◌,
}
use byte_danceliveauctioni.Base.Int.{pos}
use byte_danceliveauctioni.Base.Text.{is_empty, trim_space}
use byte_danceliveauctioni.Proto.{LotStatus, draft, ready, queued}
use byte_danceliveauctioni.Proto.Lot.{
  Money, BidRule, TrustRevealCard, DuelState, LotQueueStatus, no_queue_status, not_queued,
  is_queued,
}

pub data LotError : Type 0 where
  create_request_required room_id_required title_required image_url_required url_too_long : LotError
  url_invalid rule_required currency_required currency_mismatch start_price_negative : LotError
  min_increment_not_positive duration_too_short anti_snipe_window_not_positive : LotError
  anti_snipe_extend_out_of_range max_extend_count_not_positive cap_price_currency_required :
      LotError
  cap_price_currency_mismatch cap_price_too_low stock_too_low money_negative : LotError
  money_currency_required too_many_images lot_required patch_request_required : LotError
  not_editable lot_is_queued config_version_exhausted not_queueable queue_position_required :
      LotError
  card_id_required not_live card_not_found nil_card too_few_bidders : LotError
  duel_user_a_missing duel_user_b_missing duel_users_equal no_distinct_bidders : LotError

abbrev pub is_none {ℓ} : {A : Type ℓ} → Option A → Bool
is_none none = true
is_none (some a) = false

abbrev pub empty_money : Money
empty_money = record { amount = pos 0; currency = "" }

abbrev pub empty_rule : BidRule
empty_rule = record {
  start_price = none;
  min_increment = none;
  duration_seconds = pos 0;
  anti_snipe_window_seconds = pos 0;
  anti_snipe_extend_seconds = pos 0;
  max_extend_count = pos 0;
  cap_price = none;
}

-- What the getters read: a nil message has its fields' zero values.
abbrev pub money_of : Option Money → Money
money_of none = empty_money
money_of (some m) = m

abbrev pub rule_of : Option BidRule → BidRule
rule_of none = empty_rule
rule_of (some r) = r

-- `&v1.Money{Currency: price.GetCurrency()}`.
abbrev pub zero_in_currency_of : Option Money → Option Money
zero_in_currency_of price = some (record { amount = pos 0; currency = (money_of price).currency })

abbrev pub is_pre_start_cancellable_status : LotStatus → Bool
is_pre_start_cancellable_status draft = true
is_pre_start_cancellable_status ready = true
is_pre_start_cancellable_status queued = true
is_pre_start_cancellable_status _ = false

-- `QueueStatus != UNSPECIFIED && QueueStatus != NONE`.
abbrev pub is_in_queue : LotQueueStatus → Bool
is_in_queue no_queue_status = false
is_in_queue not_queued = false
is_in_queue _ = true

-- `QueueStatus == QUEUED`.
abbrev pub is_status_queued : LotQueueStatus → Bool
is_status_queued is_queued = true
is_status_queued _ = false

unfoldable pub clone_string_slice : List String → List String
clone_string_slice [] = []
clone_string_slice (v ∷ vs) =
    let rest = clone_string_slice vs in
    if is_empty (trim_space v) then rest else trim_space v ∷ rest

unfoldable pub clone_trust_cards : List (Option TrustRevealCard) → List (Option TrustRevealCard)
clone_trust_cards [] = []
clone_trust_cards (none ∷ cards) = clone_trust_cards cards
clone_trust_cards (some c ∷ cards) = some c ∷ clone_trust_cards cards

-- The loop of normalizeTrustCards; `new_card_id n` is the id that idgen.New("card") gives when the
-- card at index n needs one. The callers have dropped nil cards.
unfoldable pub normalize_trust_cards :
    (ℕ → String) → ℕ → String → List (Option TrustRevealCard) → List (Option TrustRevealCard)
normalize_trust_cards new_card_id n lot_id [] = []
normalize_trust_cards new_card_id n lot_id (none ∷ cards) =
    none ∷ normalize_trust_cards new_card_id (suc n) lot_id cards
normalize_trust_cards new_card_id n lot_id (some c ∷ cards) =
    some (record c {
      id = if is_empty c.id then new_card_id n else c.id;
      lot_id = lot_id;
      revealed = false;
      revealed_at_unix_ms = pos 0;
    })
    ∷ normalize_trust_cards new_card_id (suc n) lot_id cards

abbrev pub empty_duel : DuelState
empty_duel = record {
  active = false;
  lot_id = "";
  user_a_id = "";
  user_a_nickname = "";
  user_b_id = "";
  user_b_nickname = "";
  started_at_unix_ms = pos 0;
  ends_at_unix_ms = pos 0;
  extend_count = pos 0;
  max_extend_count = pos 0;
}
