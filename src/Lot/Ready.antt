-- ===== src/Lot/Ready.antt =====
-- lot.go: ValidateLotReady, validateLotMedia, validateHTTPImageURL, normalizeStock and
-- validateOptionalMoney. The parse of a URL (net/url) is a parameter.
use byte_danceliveauctioni.Base.{
  not, ◌&&◌, ◌||◌, String, List, [], ◌∷◌, Option, none, some, ltb, length, if◌then◌else◌, Result,
  ok, err, reject_if, ◌>>◌,
}
use byte_danceliveauctioni.Base.Int.{ℤ, pos, ltb_ℤ, leb_ℤ, eqb_ℤ}
use byte_danceliveauctioni.Base.Text.{len, str_eq, is_empty, is_blank}
use byte_danceliveauctioni.Proto.Lot.{Money, BidRule, Lot, TrustRevealCard}
use byte_danceliveauctioni.Lot.Messages.{
  LotError, url_too_long, url_invalid, rule_required, currency_required, currency_mismatch,
  start_price_negative, min_increment_not_positive, duration_too_short,
  anti_snipe_window_not_positive, anti_snipe_extend_out_of_range, max_extend_count_not_positive,
  cap_price_currency_required, cap_price_currency_mismatch, cap_price_too_low, stock_too_low,
  money_negative, money_currency_required, too_many_images, title_required, image_url_required,
  is_none, money_of, rule_of,
}

-- What the code reads of a parsed URL.
pub record ParsedUrl : Type 0 where
  pub scheme : String
  pub host : String

abbrev pub UrlParser : Type 0
UrlParser = String → Option ParsedUrl

unfoldable pub check_url : Option ParsedUrl → Result LotError (Unit {0})
check_url none = err url_invalid
check_url (some u) = do
  reject_if (is_empty u.scheme || is_empty u.host) url_invalid
  reject_if (not (str_eq u.scheme "http") && not (str_eq u.scheme "https")) url_invalid

unfoldable pub validate_http_image_url : UrlParser → String → Result LotError (Unit {0})
validate_http_image_url parse value =
    if is_blank value
    then ok tt
    else (reject_if (ltb 1024 (len value)) url_too_long >> check_url (parse value))

unfoldable pub validate_cap_price : BidRule → Option Money → Result LotError (Unit {0})
validate_cap_price rule none = ok tt
validate_cap_price rule (some cap) = do
  reject_if (is_empty cap.currency) cap_price_currency_required
  reject_if
      (not (str_eq cap.currency (money_of rule.start_price).currency)
        || not (str_eq cap.currency (money_of rule.min_increment).currency))
      cap_price_currency_mismatch
  reject_if (leb_ℤ cap.amount (money_of rule.start_price).amount) cap_price_too_low

-- The guards on the bid rule, with its getters.
unfoldable pub validate_rule : BidRule → Result LotError (Unit {0})
validate_rule rule = do
  reject_if (is_none rule.start_price || is_none rule.min_increment) rule_required
  reject_if
      (is_empty (money_of rule.start_price).currency
        || is_empty (money_of rule.min_increment).currency)
      currency_required
  reject_if
      (not (str_eq (money_of rule.start_price).currency (money_of rule.min_increment).currency))
      currency_mismatch
  reject_if (ltb_ℤ (money_of rule.start_price).amount (pos 0)) start_price_negative
  reject_if (leb_ℤ (money_of rule.min_increment).amount (pos 0)) min_increment_not_positive
  reject_if (ltb_ℤ rule.duration_seconds (pos 60)) duration_too_short
  reject_if (leb_ℤ rule.anti_snipe_window_seconds (pos 0)) anti_snipe_window_not_positive
  reject_if
      (ltb_ℤ rule.anti_snipe_extend_seconds (pos 10)
        || ltb_ℤ (pos 30) rule.anti_snipe_extend_seconds)
      anti_snipe_extend_out_of_range
  reject_if (leb_ℤ rule.max_extend_count (pos 0)) max_extend_count_not_positive
  validate_cap_price rule rule.cap_price

unfoldable pub validate_lot_ready :
    UrlParser → String → String → Option BidRule → Result LotError (Unit {0})
validate_lot_ready parse title image_url rule = do
  reject_if (is_empty title) title_required
  reject_if (is_empty image_url) image_url_required
  validate_http_image_url parse image_url
  validate_rule (rule_of rule)

unfoldable pub validate_optional_money : Option Money → Result LotError (Unit {0})
validate_optional_money none = ok tt
validate_optional_money (some money) = do
  reject_if (ltb_ℤ money.amount (pos 0)) money_negative
  reject_if (ltb_ℤ (pos 0) money.amount && is_blank money.currency) money_currency_required

unfoldable pub normalize_stock : ℤ → Result LotError ℤ
normalize_stock stock =
    reject_if (ltb_ℤ stock (pos 0)) stock_too_low
    >> ok (if eqb_ℤ stock (pos 0) then pos 1 else stock)

unfoldable pub validate_urls : UrlParser → List String → Result LotError (Unit {0})
validate_urls parse [] = ok tt
validate_urls parse (u ∷ us) = validate_http_image_url parse u >> validate_urls parse us

unfoldable pub validate_card_images :
    UrlParser → List (Option TrustRevealCard) → Result LotError (Unit {0})
validate_card_images parse [] = ok tt
validate_card_images parse (none ∷ cards) = validate_card_images parse cards
validate_card_images parse (some c ∷ cards) =
    (if is_empty c.image_url then ok tt else validate_http_image_url parse c.image_url)
    >> validate_card_images parse cards

unfoldable pub validate_lot_media : UrlParser → Lot → Result LotError (Unit {0})
validate_lot_media parse lot = do
  reject_if (ltb 6 (length lot.gallery_image_urls)) too_many_images
  validate_urls parse lot.gallery_image_urls
  validate_card_images parse lot.trust_cards
  reject_if (ltb_ℤ lot.stock (pos 1)) stock_too_low
