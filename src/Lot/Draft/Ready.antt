-- ===== src/Lot/Draft/Ready.antt =====
-- A lot that is created complete can be queued at once.
use byte_danceliveauctioni.Base.{
  ◌≡◌, refl, sym, some, ok, false, ℕ, String, reject_if-eq-ok, >>=-eq-ok,
}
use byte_danceliveauctioni.Base.Int.{ℤ, pos, leb_ℤ}
use byte_danceliveauctioni.Base.Text.{is_empty}
use byte_danceliveauctioni.Proto.Lot.{Lot, CreateLotRequest}
use byte_danceliveauctioni.Lot.Messages.{room_id_required}
use byte_danceliveauctioni.Lot.Ready.{
  UrlParser, validate_lot_ready, validate_lot_media, validate_optional_money, normalize_stock,
}
use byte_danceliveauctioni.Lot.Draft.{new_lot_draft, new_lot_from_request, draft_lot}
use byte_danceliveauctioni.Lot.Queue.{queue_lot, queued_lot}

draft_lot-queue :
    (parse : UrlParser) (new_card_id : ℕ → String) (id : String) (req : CreateLotRequest)
    (stock p : ℤ)
    → validate_lot_ready parse req.title req.image_url req.rule ≡ ok tt
    → validate_lot_media parse (draft_lot new_card_id id req stock) ≡ ok tt
    → leb_ℤ p (pos 0) ≡ false
    → queue_lot parse (some (draft_lot new_card_id id req stock)) p
      ≡ ok (queued_lot (draft_lot new_card_id id req stock) p)
unfolding queue_lot draft_lot validate_lot_ready
draft_lot-queue parse new_card_id id req stock p r m q = rw m (rw r (rw q refl))

-- For every request, id and positive position: if NewLotFromRequest makes a lot of the request, then
-- QueueLot puts that lot into the queue at the position.
pub new_lot_from_request-queue :
    (parse : UrlParser) (new_card_id : ℕ → String) (id : String) (req : CreateLotRequest)
    (lot : Lot) (p : ℤ)
    → new_lot_from_request parse new_card_id id (some req) ≡ ok lot
    → leb_ℤ p (pos 0) ≡ false
    → queue_lot parse (some lot) p ≡ ok (queued_lot lot p)
unfolding new_lot_from_request new_lot_draft
new_lot_from_request-queue parse new_card_id id req lot p h q =
    let a = reject_if-eq-ok (is_empty req.room_id) room_id_required _ h in
    let b = >>=-eq-ok (validate_lot_ready parse req.title req.image_url req.rule) _ a.1 in
    let c = >>=-eq-ok (normalize_stock req.stock) _ b.2 in
    let d = >>=-eq-ok (validate_optional_money req.deposit_amount) _ c.2 in
    let e = >>=-eq-ok (validate_lot_media parse (draft_lot new_card_id id req c.0)) _ d.2 in
    let done : draft_lot new_card_id id req c.0 ≡ lot = cc (e.2) in
    rw (sym done) (draft_lot-queue parse new_card_id id req c.0 p b.1 e.1 q)
