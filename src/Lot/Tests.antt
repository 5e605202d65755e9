-- ===== src/Lot/Tests.antt =====
-- A lot that is created, queued, patched, and shown while it runs: tests, and the theorems at it.
use byte_danceliveauctioni.Base.{
  List, ℕ, ◌≡◌, refl, true, false, String, [], ◌∷◌, Option, none, some, ok, err,
}
use byte_danceliveauctioni.Base.Int.{ℤ, pos, add64}
use byte_danceliveauctioni.Base.Text.{str_eq, is_empty, is_blank, trim_space, len}
use byte_danceliveauctioni.Proto.{live}
use byte_danceliveauctioni.Proto.Lot.{
  Money, BidRule, Lot, TrustRevealCard, CreateLotRequest, PatchLotDraftRequest, RankingItem,
  trust_blocked,
}
use byte_danceliveauctioni.Lot.Messages.{
  normalize_trust_cards, clone_trust_cards, clone_string_slice, room_id_required, card_not_found,
  lot_is_queued,
}
use byte_danceliveauctioni.Lot.Ready.{
  UrlParser, validate_lot_ready, validate_lot_media, validate_optional_money, normalize_stock,
  validate_http_image_url, check_url, validate_rule, validate_cap_price, validate_urls,
  validate_card_images,
}
use byte_danceliveauctioni.Lot.Draft.{
  new_lot_draft, new_lot_from_request, draft_lot, apply_draft_patch, patched_lot, patched_stock,
  bump_versions, config_version_or_one,
}
use byte_danceliveauctioni.Lot.Draft.Versions.{IsPatched, apply_draft_patch-IsPatched}
use byte_danceliveauctioni.Lot.Draft.Ready.{new_lot_from_request-queue}
use byte_danceliveauctioni.Lot.Queue.{queue_lot, queued_lot}
use byte_danceliveauctioni.Lot.Queue.Once.{queue_lot-idempotent}
use byte_danceliveauctioni.Lot.Trust.{reveal_trust_card, find_card, opened_card, after_reveal}
use byte_danceliveauctioni.Lot.Duel.{
  start_duel, requested_user, same_user, fill_duel, begin_duel, duel_lot, extend_count_of,
}
use byte_danceliveauctioni.Lot.Messages.{too_few_bidders}
use byte_danceliveauctioni.Lot.Duel.Pair.{IsDuelOf, start_duel-IsDuelOf}
use byte_danceliveauctioni.Lot.Trust.Once.{reveal_trust_card-idempotent}

abbrev parser : UrlParser
parser url = some (record { scheme = "https"; host = "img.test" })

abbrev card_ids : ℕ → String
card_ids n = "card_new"

abbrev yuan : ℤ → Option Money
yuan n = some (record { amount = n; currency = "CNY" })

abbrev rule : BidRule
rule = record {
  start_price = yuan (pos 100);
  min_increment = yuan (pos 10);
  duration_seconds = pos 300;
  anti_snipe_window_seconds = pos 15;
  anti_snipe_extend_seconds = pos 20;
  max_extend_count = pos 3;
  cap_price = yuan (pos 900);
}

abbrev card : TrustRevealCard
card = record {
  id = "c1";
  lot_id = "";
  card_type = pos 1;
  title = "seal";
  content = "intact";
  image_url = "";
  revealed = false;
  revealed_at_unix_ms = pos 0;
}

abbrev request : CreateLotRequest
request = record {
  room_id = "room";
  title = "vase";
  description = "";
  image_url = "https://img.test/v.png";
  rule = some rule;
  trust_cards = some card ∷ none ∷ [];
  gallery_image_urls = " https://img.test/w.png " ∷ "" ∷ [];
  category = "";
  tags = [];
  estimate_price = none;
  stock = pos 0;
  after_sale_notes = "";
  deposit_amount = none;
}

abbrev created : Lot
created = draft_lot card_ids "lot" request (pos 1)

abbrev running : Lot
running = record created { status = live }

abbrev patch : PatchLotDraftRequest
patch = record {
  lot_id = "lot";
  room_id = "";
  title = "tall vase";
  description = "";
  image_url = "";
  rule = none;
  trust_cards = [];
  gallery_image_urls = [];
  category = "";
  tags = [];
  estimate_price = none;
  stock = pos 2;
  after_sale_notes = "";
  deposit_amount = none;
}

abbrev bidder : ℤ → String → RankingItem
bidder n user = record {
  rank = n;
  user_id = user;
  nickname = user;
  amount = none;
  bid_at_unix_ms = pos 5;
  avatar_url = "";
}

created-ok : new_lot_from_request parser card_ids "lot" (some request) ≡ ok created
unfolding new_lot_from_request new_lot_draft draft_lot validate_lot_ready validate_rule
    validate_cap_price validate_http_image_url check_url validate_lot_media validate_urls
    validate_card_images validate_optional_money normalize_stock clone_string_slice
    clone_trust_cards normalize_trust_cards str_eq is_empty is_blank trim_space len
created-ok = refl

created_without_room :
    new_lot_from_request parser card_ids "lot" (some (record request { room_id = "" }))
    ≡ err room_id_required
unfolding new_lot_from_request new_lot_draft is_empty
created_without_room = refl

new_lot_from_request-queue_example :
    queue_lot parser (some created) (pos 2) ≡ ok (queued_lot created (pos 2))
new_lot_from_request-queue_example =
    new_lot_from_request-queue parser card_ids "lot" request created (pos 2) created-ok refl

queue_lot-idempotent_example :
    queue_lot parser (some (queued_lot created (pos 2))) (pos 7) ≡ ok (queued_lot created (pos 2))
queue_lot-idempotent_example =
    queue_lot-idempotent parser created (queued_lot created (pos 2)) (pos 2) (pos 7)
      (new_lot_from_request-queue parser card_ids "lot" request created (pos 2) created-ok refl)

abbrev patched : Lot
patched = bump_versions (patched_lot card_ids created patch (pos 2))

apply_draft_patch-IsPatched_example : IsPatched parser created patched
unfolding draft_lot bump_versions patched_lot apply_draft_patch patched_stock config_version_or_one
    validate_http_image_url check_url validate_lot_media validate_urls validate_card_images
    validate_optional_money normalize_stock clone_string_slice clone_trust_cards
    normalize_trust_cards str_eq is_empty is_blank trim_space len
apply_draft_patch-IsPatched_example =
    apply_draft_patch-IsPatched parser card_ids created patched patch refl

patch_of_queued :
    apply_draft_patch parser card_ids (some (queued_lot created (pos 2))) (some patch)
    ≡ err lot_is_queued
unfolding apply_draft_patch queued_lot
patch_of_queued = refl

abbrev revealed_card : TrustRevealCard
revealed_card = record card { lot_id = "lot"; revealed = true; revealed_at_unix_ms = pos 9 }

abbrev revealed_lot : Lot
revealed_lot = record running {
  trust_cards = some revealed_card ∷ [];
  playbook_stage = trust_blocked;
  presentation_version = pos 1;
}

reveal_trust_card-idempotent_example :
    reveal_trust_card (some revealed_lot) "c1" (pos 30) ≡ ok (revealed_card, revealed_lot)
unfolding draft_lot reveal_trust_card find_card opened_card after_reveal clone_trust_cards
    normalize_trust_cards clone_string_slice str_eq is_empty trim_space add64
reveal_trust_card-idempotent_example =
    reveal_trust_card-idempotent running revealed_lot "c1" (pos 9) (pos 30) revealed_card refl

reveal_of_unknown : reveal_trust_card (some running) "c2" (pos 9) ≡ err card_not_found
unfolding draft_lot reveal_trust_card find_card clone_trust_cards normalize_trust_cards str_eq
    is_empty
reveal_of_unknown = refl

abbrev bidders : List RankingItem
bidders = bidder (pos 1) "ann" ∷ bidder (pos 2) "ann" ∷ bidder (pos 3) "bob" ∷ []

abbrev duelling : Lot
duelling = duel_lot running (pos 9) (bidder (pos 1) "ann") (bidder (pos 3) "bob")

start_duel-IsDuelOf_example : IsDuelOf bidders running duelling
unfolding draft_lot duel_lot start_duel requested_user same_user fill_duel begin_duel
    extend_count_of str_eq is_empty clone_trust_cards normalize_trust_cards clone_string_slice
start_duel-IsDuelOf_example = start_duel-IsDuelOf running duelling bidders (pos 9) "" "bob" refl

duel_of_one :
    start_duel (some running) (bidder (pos 1) "ann" ∷ []) (pos 9) "" "" ≡ err too_few_bidders
unfolding start_duel draft_lot
duel_of_one = refl
