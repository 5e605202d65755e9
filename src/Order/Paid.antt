-- ===== src/Order/Paid.antt =====
-- From a sold lot to a paid order.
use byte_danceliveauctioni.Base.{
  ◌≡◌, refl, sym, false, not, ◌||◌, String, some, ok, reject_if-eq-ok, ◌>>=◌,
}
use byte_danceliveauctioni.Base.Int.{ℤ, eqb_ℤ, eqb_ℤ_iff}
use byte_danceliveauctioni.Base.Text.{str_eq, str_eq_iff, is_empty}
use byte_danceliveauctioni.Proto.Lot.{Lot}
use byte_danceliveauctioni.Lot.Messages.{is_none, money_of}
use byte_danceliveauctioni.Order.{
  order_id_required, winner_required, final_price_required, Order, Payment, paid, success,
  settled_order, new_order_from_settled_lot, new_payment, mark_processing, mark_success,
  mark_order_paid, paid_order,
}

-- An order of the lot's winner over the final price, paid by the payment.
pub record IsPaidBy (lot : Lot) (payment_id : String) (o : Order) : Type 0 where
  pub status : o.status ≡ paid
  pub payment_status : o.payment_status ≡ success
  pub payment : o.payment_id ≡ payment_id
  pub buyer : o.buyer_user_id ≡ lot.winner_user_id
  pub lot_of_order : o.lot_id ≡ lot.id
  pub amount : o.amount ≡ (money_of lot.final_price).amount
  pub currency : o.currency ≡ (money_of lot.final_price).currency

new_order-eq-ok :
    (id : String) (lot : Lot) (now : ℤ) (order : Order)
    → new_order_from_settled_lot id (some lot) now ≡ ok order
    → (is_empty id ≡ false) × (settled_order id lot now ≡ order)
unfolding new_order_from_settled_lot
new_order-eq-ok id lot now order h =
    let a = reject_if-eq-ok (is_empty id) order_id_required _ h in
    let b = reject_if-eq-ok (is_empty lot.winner_user_id) winner_required _ a.1 in
    let c =
      reject_if-eq-ok (is_none lot.final_price || is_empty (money_of lot.final_price).currency)
        final_price_required _ b.1 in
    (a.0, cc (c.1))

-- The amounts of the order and of the payment agree.
same_amount : (m : ℤ) (c : String) → not (eqb_ℤ m m) || not (str_eq c c) ≡ false
same_amount m c = rw ((eqb_ℤ_iff m m).1 refl) (rw ((str_eq_iff c c).1 refl) refl)

-- The payment at the end of the steps.
abbrev succeeded : String → Order → String → ℤ → Payment
succeeded payment_id order key later = record {
  id = payment_id;
  main_account_id = order.main_account_id;
  order_id = order.id;
  lot_id = order.lot_id;
  buyer_user_id = order.buyer_user_id;
  status = success;
  amount = order.amount;
  currency = order.currency;
  idempotency_key = key;
  created_at_unix_ms = later;
  updated_at_unix_ms = later;
  succeeded_at_ms = later;
}

settled_order-paid :
    (id payment_id key : String) (lot : Lot) (now later : ℤ)
    → is_empty id ≡ false
    → is_empty payment_id ≡ false
    → is_empty key ≡ false
    → (r : Order) × ((new_payment payment_id
            (settled_order id lot now)
            key
            (money_of lot.final_price).amount
            (money_of lot.final_price).currency
            later
          >>= λ p. mark_processing (some p) later >>= λ q. mark_success (some q) later >>= λ s.
              mark_order_paid (some (settled_order id lot now)) s later)
        ≡ ok r)
      × IsPaidBy lot payment_id r
unfolding new_payment settled_order mark_processing mark_success mark_order_paid paid_order
settled_order-paid id payment_id key lot now later a b c =
    let same = same_amount (money_of lot.final_price).amount (money_of lot.final_price).currency in
    let order = settled_order id lot now in
    (
      paid_order order (succeeded payment_id order key later) later,
      rw a (rw b (rw c (rw same (rw same refl)))),
      record {
        status = refl;
        payment_status = refl;
        payment = refl;
        buyer = refl;
        lot_of_order = refl;
        amount = refl;
        currency = refl;
      },
    )

-- For every id, lot, times and order: if NewOrderFromSettledLot makes the order of the lot, then
-- NewPayment for the lot's final price, with an id and a key, MarkProcessing, MarkSuccess and
-- MarkOrderPaid one after the other succeed and leave the order of the lot's winner over the final price,
-- paid by the payment.
pub mark_order_paid-new_order_from_settled_lot :
    (id payment_id key : String) (lot : Lot) (now later : ℤ) (order : Order)
    → new_order_from_settled_lot id (some lot) now ≡ ok order
    → is_empty payment_id ≡ false
    → is_empty key ≡ false
    → (r : Order) × ((new_payment payment_id order key
            (money_of lot.final_price).amount
            (money_of lot.final_price).currency
            later
          >>= λ p. mark_processing (some p) later >>= λ q.
              mark_success (some q) later >>= λ s. mark_order_paid (some order) s later)
        ≡ ok r)
      × IsPaidBy lot payment_id r
mark_order_paid-new_order_from_settled_lot id payment_id key lot now later order h b c =
    let k = new_order-eq-ok id lot now order h in
    rw (sym (k.1)) (settled_order-paid id payment_id key lot now later k.0 b c)
