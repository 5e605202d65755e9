-- ===== src/Order.antt =====
-- biz/auction/order.go: the order of a sold lot and its payment. Statuses are strings in Go, so a value
-- without a name is possible.
pub mod Paid
pub mod Tests
use byte_danceliveauctioni.Base.{
  ◌*◌, Bool, true, false, not, ◌&&◌, ◌||◌, String, Option, none, some, if◌then◌else◌, Result, ok,
  err, reject_if, ◌>>◌,
}
use byte_danceliveauctioni.Base.Int.{ℤ, pos, ltb_ℤ, leb_ℤ, eqb_ℤ, add64}
use byte_danceliveauctioni.Base.Text.{str_eq, is_empty}
use byte_danceliveauctioni.Proto.Lot.{Lot}
use byte_danceliveauctioni.Lot.Messages.{is_none, money_of}

pub data OrderStatus : Type 0 where
  created pending_payment paid cancelled expired refunded : OrderStatus
  other_status : String → OrderStatus

pub data PaymentStatus : Type 0 where
  no_payment init processing success failed closed : PaymentStatus
  other_payment : String → PaymentStatus

-- biz/shop/model.go.
pub record DeliveryAddressSnapshot : Type 0 where
  pub address_id : String
  pub receiver_name : String
  pub phone : String
  pub province : String
  pub city : String
  pub district : String
  pub street : String
  pub detail : String
  pub postal_code : String
  pub full_address : String

pub record Order : Type 0 where
  pub id : String
  pub main_account_id : String
  pub lot_id : String
  pub room_id : String
  pub lot_title : String
  pub lot_image_url : String
  pub buyer_user_id : String
  pub buyer_nickname : String
  pub status : OrderStatus
  pub payment_status : PaymentStatus
  pub payment_id : String
  pub shop_name : String
  pub enrichment_status : String
  pub enrichment_updated_at_ms : ℤ
  pub shipping_address_id : String
  pub shipping_address_snapshot : Option DeliveryAddressSnapshot
  pub amount : ℤ
  pub currency : String
  pub created_at_unix_ms : ℤ
  pub updated_at_unix_ms : ℤ
  pub expires_at_unix_ms : ℤ
  pub paid_at_unix_ms : ℤ
  pub version : ℤ

pub record Payment : Type 0 where
  pub id : String
  pub main_account_id : String
  pub order_id : String
  pub lot_id : String
  pub buyer_user_id : String
  pub status : PaymentStatus
  pub amount : ℤ
  pub currency : String
  pub idempotency_key : String
  pub created_at_unix_ms : ℤ
  pub updated_at_unix_ms : ℤ
  pub succeeded_at_ms : ℤ

pub data OrderError : Type 0 where
  order_id_required lot_required winner_required final_price_required : OrderError
  payment_id_required idempotency_key_required order_required not_pending : OrderError
  amount_mismatch payment_required not_init not_processing not_successful : OrderError

abbrev pub order_payment_window_ms : ℤ
order_payment_window_ms = pos (30 * 60 * 1000)

abbrev pub is_pending_payment : OrderStatus → Bool
is_pending_payment pending_payment = true
is_pending_payment _ = false

abbrev pub is_init : PaymentStatus → Bool
is_init init = true
is_init _ = false

abbrev pub is_processing : PaymentStatus → Bool
is_processing processing = true
is_processing _ = false

abbrev pub is_success : PaymentStatus → Bool
is_success success = true
is_success _ = false

unfoldable pub settled_order : String → Lot → ℤ → Order
settled_order id lot now_ms = record {
  id = id;
  main_account_id = lot.main_account_id;
  lot_id = lot.id;
  room_id = lot.room_id;
  lot_title = lot.title;
  lot_image_url = lot.image_url;
  buyer_user_id = lot.winner_user_id;
  buyer_nickname = lot.winner_nickname;
  status = pending_payment;
  payment_status = init;
  payment_id = "";
  shop_name = "";
  enrichment_status = "";
  enrichment_updated_at_ms = pos 0;
  shipping_address_id = "";
  shipping_address_snapshot = none;
  amount = (money_of lot.final_price).amount;
  currency = (money_of lot.final_price).currency;
  created_at_unix_ms = now_ms;
  updated_at_unix_ms = now_ms;
  expires_at_unix_ms = add64 now_ms order_payment_window_ms;
  paid_at_unix_ms = pos 0;
  version = pos 1;
}

unfoldable pub new_order_from_settled_lot : String → Option Lot → ℤ → Result OrderError Order
new_order_from_settled_lot id none now_ms =
    reject_if (is_empty id) order_id_required >> err lot_required
new_order_from_settled_lot id (some lot) now_ms = do
  reject_if (is_empty id) order_id_required
  reject_if (is_empty lot.winner_user_id) winner_required
  reject_if (is_none lot.final_price || is_empty (money_of lot.final_price).currency)
      final_price_required
  ok (settled_order id lot now_ms)

unfoldable pub effective_status : Order → ℤ → OrderStatus × PaymentStatus
effective_status o now_ms =
    if is_pending_payment o.status
      && ltb_ℤ (pos 0) o.expires_at_unix_ms
      && leb_ℤ o.expires_at_unix_ms now_ms
    then (expired, closed)
    else (o.status, o.payment_status)

unfoldable pub new_payment : String → Order → String → ℤ → String → ℤ → Result OrderError Payment
new_payment id order idempotency_key amount currency now_ms = do
  reject_if (is_empty id) payment_id_required
  reject_if (is_empty idempotency_key) idempotency_key_required
  reject_if (is_empty order.id) order_required
  reject_if (not (is_pending_payment order.status)) not_pending
  reject_if (not (eqb_ℤ amount order.amount) || not (str_eq currency order.currency))
      amount_mismatch
  ok (record {
    id = id;
    main_account_id = order.main_account_id;
    order_id = order.id;
    lot_id = order.lot_id;
    buyer_user_id = order.buyer_user_id;
    status = init;
    amount = amount;
    currency = currency;
    idempotency_key = idempotency_key;
    created_at_unix_ms = now_ms;
    updated_at_unix_ms = now_ms;
    succeeded_at_ms = pos 0;
  })

unfoldable pub mark_processing : Option Payment → ℤ → Result OrderError Payment
mark_processing none now_ms = err payment_required
mark_processing (some p) now_ms = do
  reject_if (not (is_init p.status)) not_init
  ok (record p { status = processing; updated_at_unix_ms = now_ms })

unfoldable pub mark_success : Option Payment → ℤ → Result OrderError Payment
mark_success none now_ms = err payment_required
mark_success (some p) now_ms = do
  reject_if (not (is_processing p.status)) not_processing
  ok (record p { status = success; updated_at_unix_ms = now_ms; succeeded_at_ms = now_ms })

unfoldable pub paid_order : Order → Payment → ℤ → Order
paid_order order p now_ms = record order {
  status = paid;
  payment_status = success;
  payment_id = p.id;
  paid_at_unix_ms = now_ms;
  updated_at_unix_ms = now_ms;
  version = add64 order.version (pos 1);
}

unfoldable pub mark_order_paid : Option Order → Payment → ℤ → Result OrderError Order
mark_order_paid none p now_ms = err order_required
mark_order_paid (some order) p now_ms = do
  reject_if (not (is_pending_payment order.status)) not_pending
  reject_if (not (is_success p.status)) not_successful
  reject_if (not (eqb_ℤ p.amount order.amount) || not (str_eq p.currency order.currency))
      amount_mismatch
  ok (paid_order order p now_ms)
