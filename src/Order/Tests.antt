-- ===== src/Order/Tests.antt =====
-- The order of a sold lot: tests, and the theorem at it.
use byte_danceliveauctioni.Base.{◌≡◌, refl, some, ok, err}
use byte_danceliveauctioni.Base.Int.{pos, add64, wrap64}
use byte_danceliveauctioni.Base.Text.{is_empty}
use byte_danceliveauctioni.Proto.Lot.{Lot}
use byte_danceliveauctioni.Projection.{empty_lot}
use byte_danceliveauctioni.Lot.Messages.{money_of}
use byte_danceliveauctioni.Order.{
  Order, expired, closed, winner_required, settled_order, new_order_from_settled_lot, new_payment,
  mark_processing, mark_success, mark_order_paid, effective_status,
}
use byte_danceliveauctioni.Base.{◌>>=◌}
use byte_danceliveauctioni.Order.Paid.{IsPaidBy, mark_order_paid-new_order_from_settled_lot}

abbrev sold : Lot
sold = record empty_lot {
  id = "lot";
  winner_user_id = "u1";
  final_price = some (record { amount = pos 120; currency = "CNY" });
}

abbrev order : Order
order = settled_order "o1" sold (pos 1000)

mark_order_paid-new_order_from_settled_lot_example :
    (r : Order) × ((new_payment "p1" order "k"
          (money_of sold.final_price).amount
          (money_of sold.final_price).currency
          (pos 2000)
        >>= λ p. mark_processing (some p) (pos 2000) >>= λ q.
            mark_success (some q) (pos 2000) >>= λ s. mark_order_paid (some order) s (pos 2000))
      ≡ ok r)
    × IsPaidBy sold "p1" r
unfolding new_order_from_settled_lot is_empty
mark_order_paid-new_order_from_settled_lot_example =
    mark_order_paid-new_order_from_settled_lot "o1" "p1" "k" sold (pos 1000) (pos 2000) order refl
      refl refl

order_without_winner :
    new_order_from_settled_lot "o1" (some (record sold { winner_user_id = "" })) (pos 1000)
    ≡ err winner_required
unfolding new_order_from_settled_lot is_empty
order_without_winner = refl

order_expires : effective_status order (pos 1801000) ≡ (expired, closed)
unfolding effective_status settled_order add64 wrap64
order_expires = refl
