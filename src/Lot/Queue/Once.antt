-- ===== src/Lot/Queue/Once.antt =====
-- QueueLot on a lot that it has queued.
use byte_danceliveauctioni.Base.{◌∙◌, ◌≡◌, refl, ◌⊎◌, inl, inr, some, ok, ◌&&◌, true, false, arith}
use byte_danceliveauctioni.Base.Int.{ℤ, ltb_ℤ, leb_ℤ, pos}
use byte_danceliveauctioni.Proto.Lot.{Lot}
use byte_danceliveauctioni.Lot.Messages.{is_pre_start_cancellable_status, is_status_queued}
use byte_danceliveauctioni.Lot.Ready.{UrlParser, validate_lot_ready, validate_lot_media}
use byte_danceliveauctioni.Lot.Queue.{queue_lot, queued_lot}

queued_lot-media :
    (parse : UrlParser) (lot : Lot) (p : ℤ)
    → validate_lot_media parse (queued_lot lot p) ≡ validate_lot_media parse lot
unfolding queued_lot validate_lot_media
queued_lot-media parse lot p = refl

-- What QueueLot has tested when it puts a lot into the queue, or finds it there.
pub queue_lot-eq-ok :
    (parse : UrlParser) (lot l : Lot) (p : ℤ)
    → queue_lot parse (some lot) p ≡ ok l
    → (is_pre_start_cancellable_status lot.status ≡ true)
      × (validate_lot_ready parse lot.title lot.image_url lot.rule ≡ ok tt)
      × (validate_lot_media parse lot ≡ ok tt)
      × (((l ≡ lot) × (is_status_queued l.queue_status && ltb_ℤ (pos 0) l.queue_position ≡ true))
          ⊎ ((l ≡ queued_lot lot p) × (leb_ℤ p (pos 0) ≡ false)))
unfolding queue_lot
queue_lot-eq-ok parse lot l p h = ground arith

queue_lot-kept :
    (parse : UrlParser) (l : Lot) (q : ℤ)
    → is_pre_start_cancellable_status l.status ≡ true
    → validate_lot_ready parse l.title l.image_url l.rule ≡ ok tt
    → validate_lot_media parse l ≡ ok tt
    → is_status_queued l.queue_status && ltb_ℤ (pos 0) l.queue_position ≡ true
    → queue_lot parse (some l) q ≡ ok l
unfolding queue_lot
queue_lot-kept parse l q a b c d = ground arith

-- For every lot, positions p and q, and lot l: if QueueLot puts the lot at p and gives l, then QueueLot
-- on l at q succeeds and changes nothing: the version and the position stay.
pub queue_lot-idempotent :
    (parse : UrlParser) (lot l : Lot) (p q : ℤ)
    → queue_lot parse (some lot) p ≡ ok l
    → queue_lot parse (some l) q ≡ ok l
unfolding queued_lot
queue_lot-idempotent parse lot l p q h =
    let i = queue_lot-eq-ok parse lot l p h in
    elim i.3 [
      | inl e ↦ queue_lot-kept parse l q (rw e.0 i.0) (rw e.0 i.1) (rw e.0 i.2) e.1
      | inr e ↦ rw e.0 (
          queue_lot-kept parse (queued_lot lot p) q refl i.1 (queued_lot-media parse lot p ∙ i.2)
            (ground arith))
    ]
