-- ===== src/Lot/Draft.antt =====
-- lot.go: NewLotDraftFromRequest and ApplyDraftPatch.
pub mod Versions
pub mod Ready
use byte_danceliveauctioni.Base.{
  ℕ, Bool, true, false, not, ◌&&◌, ◌||◌, String, List, [], ◌∷◌, Option, none, some, if◌then◌else◌,
  Result, ok, err, reject_if, ◌>>◌, ◌>>=◌,
}
use byte_danceliveauctioni.Base.Int.{ℤ, pos, leb_ℤ, ltb_ℤ, eqb_ℤ, add64}
use byte_danceliveauctioni.Base.Text.{is_empty}
use byte_danceliveauctioni.Proto.{draft}
use byte_danceliveauctioni.Proto.Lot.{
  Money, BidRule, Lot, TrustRevealCard, CreateLotRequest, PatchLotDraftRequest, LotQueueStatus,
  no_queue_status, not_queued, warm_up,
}
use byte_danceliveauctioni.Contract.Checks.{max_redis_exact_integer}
use byte_danceliveauctioni.Lot.Messages.{
  LotError, create_request_required, room_id_required, lot_required, patch_request_required,
  not_editable, lot_is_queued, config_version_exhausted, is_none, money_of, rule_of, empty_duel,
  zero_in_currency_of, is_pre_start_cancellable_status, is_in_queue, clone_string_slice,
  clone_trust_cards, normalize_trust_cards,
}
use byte_danceliveauctioni.Lot.Ready.{
  UrlParser, validate_lot_ready, validate_lot_media, validate_optional_money, normalize_stock,
  validate_http_image_url,
}

-- The rule of a new lot, and its current price: a missing message becomes an empty one.
abbrev pub current_price_of : Option BidRule → Option Money
current_price_of rule = some (money_of (rule_of rule).start_price)

unfoldable pub draft_lot : (ℕ → String) → String → CreateLotRequest → ℤ → Lot
draft_lot new_card_id id req stock = record {
  id = id;
  room_id = req.room_id;
  title = req.title;
  description = req.description;
  image_url = req.image_url;
  status = draft;
  rule = some (rule_of req.rule);
  current_price = current_price_of req.rule;
  leading_user_id = "";
  leading_nickname = "";
  started_at_unix_ms = pos 0;
  ends_at_unix_ms = pos 0;
  settled_at_unix_ms = pos 0;
  winner_user_id = "";
  winner_nickname = "";
  final_price = zero_in_currency_of (current_price_of req.rule);
  version = pos 1;
  trust_cards = normalize_trust_cards new_card_id 0 id (clone_trust_cards req.trust_cards);
  duel_state = some empty_duel;
  playbook_stage = warm_up;
  cancel_reason = "";
  cancelled_at_unix_ms = pos 0;
  queue_status = not_queued;
  queue_position = pos 0;
  gallery_image_urls = clone_string_slice req.gallery_image_urls;
  category = req.category;
  tags = clone_string_slice req.tags;
  estimate_price = req.estimate_price;
  stock = stock;
  after_sale_notes = req.after_sale_notes;
  deposit_amount = req.deposit_amount;
  stats = some (record { participant_count = pos 0; bid_count = pos 0 });
  main_account_id = "";
  created_at_unix_ms = pos 0;
  updated_at_unix_ms = pos 0;
  config_version = pos 1;
  presentation_version = pos 0;
}

-- `if requireComplete { ... }`.
abbrev pub when : Bool → Result LotError (Unit {0}) → Result LotError (Unit {0})
when true check = check
when false check = ok tt

unfoldable pub new_lot_draft :
    UrlParser → (ℕ → String) → String → Option CreateLotRequest → Bool → Result LotError Lot
new_lot_draft parse new_card_id id none require_complete = err create_request_required
new_lot_draft parse new_card_id id (some req) require_complete = do
  when require_complete (reject_if (is_empty req.room_id) room_id_required)
  when require_complete (validate_lot_ready parse req.title req.image_url req.rule)
  stock ← normalize_stock req.stock
  validate_optional_money req.deposit_amount
  when require_complete (validate_lot_media parse (draft_lot new_card_id id req stock))
  ok (draft_lot new_card_id id req stock)

unfoldable pub new_lot_from_request :
    UrlParser → (ℕ → String) → String → Option CreateLotRequest → Result LotError Lot
new_lot_from_request parse new_card_id id req = new_lot_draft parse new_card_id id req true

-- A field of the request replaces the lot's when it is set.
abbrev pub text_or : String → String → String
text_or new old = if is_empty new then old else new

abbrev pub texts_or : List String → List String → List String
texts_or [] old = old
texts_or (u ∷ us) old = clone_string_slice (u ∷ us)

abbrev pub option_or {ℓ} : {A : Type ℓ} → Option A → Option A → Option A
option_or none old = old
option_or (some a) old = some a

abbrev pub start_price_or : Option BidRule → Option Money → Option Money
start_price_or none old = old
start_price_or (some r) old = option_or r.start_price old

abbrev pub final_price_or : Option BidRule → Option Money → Option Money
final_price_or none old = old
final_price_or (some r) old =
    if is_none r.start_price then old else zero_in_currency_of r.start_price

abbrev pub cards_or :
    (ℕ → String)
    → String
    → List (Option TrustRevealCard)
    → List (Option TrustRevealCard)
    → List (Option TrustRevealCard)
cards_or new_card_id id [] old = old
cards_or new_card_id id (c ∷ cs) old =
    normalize_trust_cards new_card_id 0 id (clone_trust_cards (c ∷ cs))

unfoldable pub patched_lot : (ℕ → String) → Lot → PatchLotDraftRequest → ℤ → Lot
patched_lot new_card_id lot req stock = record lot {
  room_id = text_or req.room_id lot.room_id;
  title = text_or req.title lot.title;
  description = text_or req.description lot.description;
  image_url = text_or req.image_url lot.image_url;
  gallery_image_urls = texts_or req.gallery_image_urls lot.gallery_image_urls;
  category = text_or req.category lot.category;
  tags = texts_or req.tags lot.tags;
  estimate_price = option_or req.estimate_price lot.estimate_price;
  stock = stock;
  after_sale_notes = text_or req.after_sale_notes lot.after_sale_notes;
  deposit_amount = option_or req.deposit_amount lot.deposit_amount;
  rule = option_or req.rule lot.rule;
  current_price = start_price_or req.rule lot.current_price;
  final_price = final_price_or req.rule lot.final_price;
  trust_cards = cards_or new_card_id lot.id req.trust_cards lot.trust_cards;
}

unfoldable pub patched_stock : ℤ → ℤ → Result LotError ℤ
patched_stock new old = if eqb_ℤ new (pos 0) then ok old else normalize_stock new

abbrev pub queue_status_or_none : LotQueueStatus → LotQueueStatus
queue_status_or_none no_queue_status = not_queued
queue_status_or_none s = s

unfoldable pub config_version_or_one : ℤ → ℤ
config_version_or_one v = if leb_ℤ v (pos 0) then pos 1 else v

unfoldable pub bump_versions : Lot → Lot
bump_versions lot = record lot {
  queue_status = queue_status_or_none lot.queue_status;
  config_version = add64 (config_version_or_one lot.config_version) (pos 1);
  version = add64 lot.version (pos 1);
}

unfoldable pub apply_draft_patch :
    UrlParser → (ℕ → String) → Option Lot → Option PatchLotDraftRequest → Result LotError Lot
apply_draft_patch parse new_card_id none req = err lot_required
apply_draft_patch parse new_card_id (some lot) none = err patch_request_required
apply_draft_patch parse new_card_id (some lot) (some req) = do
  reject_if (not (is_pre_start_cancellable_status lot.status)) not_editable
  reject_if (is_in_queue lot.queue_status) lot_is_queued
  when (not (is_empty req.image_url)) (validate_http_image_url parse req.image_url)
  stock ← patched_stock req.stock lot.stock
  validate_optional_money req.deposit_amount
  validate_lot_media parse (patched_lot new_card_id lot req stock)
  reject_if (leb_ℤ max_redis_exact_integer (config_version_or_one lot.config_version))
      config_version_exhausted
  ok (bump_versions (patched_lot new_card_id lot req stock))
