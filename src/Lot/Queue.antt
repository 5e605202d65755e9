-- ===== src/Lot/Queue.antt =====
-- lot.go: QueueLot.
pub mod Once
use byte_danceliveauctioni.Base.{
  true, false, not, ◌&&◌, String, Option, none, some, if◌then◌else◌, Result, ok, err, reject_if,
  ◌>>◌, ◌>>=◌,
}
use byte_danceliveauctioni.Base.Int.{ℤ, pos, leb_ℤ, ltb_ℤ, add64}
use byte_danceliveauctioni.Proto.{queued}
use byte_danceliveauctioni.Proto.Lot.{Lot, is_queued}
use byte_danceliveauctioni.Lot.Messages.{
  LotError, lot_required, not_queueable, queue_position_required, rule_of, zero_in_currency_of,
  is_pre_start_cancellable_status, is_status_queued,
}
use byte_danceliveauctioni.Lot.Ready.{UrlParser, validate_lot_ready, validate_lot_media}

unfoldable pub queued_lot : Lot → ℤ → Lot
queued_lot lot queue_position = record lot {
  status = queued;
  queue_status = is_queued;
  queue_position = queue_position;
  current_price = (rule_of lot.rule).start_price;
  final_price = zero_in_currency_of (rule_of lot.rule).start_price;
  version = add64 lot.version (pos 1);
}

unfoldable pub queue_lot : UrlParser → Option Lot → ℤ → Result LotError Lot
queue_lot parse none queue_position = err lot_required
queue_lot parse (some lot) queue_position = do
  reject_if (not (is_pre_start_cancellable_status lot.status)) not_queueable
  validate_lot_ready parse lot.title lot.image_url lot.rule
  validate_lot_media parse lot
  (if is_status_queued lot.queue_status && ltb_ℤ (pos 0) lot.queue_position
      then ok lot
      else (reject_if (leb_ℤ queue_position (pos 0)) queue_position_required
          >> ok (queued_lot lot queue_position)))
