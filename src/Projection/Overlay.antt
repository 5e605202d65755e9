-- ===== src/Projection/Overlay.antt =====
-- presentation.go, OverlayLotPresentation.
use byte_danceliveauctioni.Base.{
  false, not, ◌||◌, Option, none, some, if◌then◌else◌, Result, ok, err, reject_if, ◌>>◌,
}
use byte_danceliveauctioni.Base.Int.{pos, leb_ℤ}
use byte_danceliveauctioni.Base.Text.{str_eq}
use byte_danceliveauctioni.Proto.{is_open}
use byte_danceliveauctioni.Proto.Lot.{Lot, DuelState, PlaybookStage, no_stage}
use byte_danceliveauctioni.Lot.Messages.{clone_trust_cards}
use byte_danceliveauctioni.Projection.{some_duel}

pub data OverlayError : Type 0 where
  lots_required identity_mismatch version_not_positive : OverlayError

-- The timing of the duel stays that of the running auction, if it had one.
abbrev pub keep_timing : Option DuelState → DuelState → DuelState
keep_timing none d = d
keep_timing (some runtime) d = record d {
  ends_at_unix_ms = runtime.ends_at_unix_ms;
  extend_count = runtime.extend_count;
  max_extend_count = runtime.max_extend_count;
}

unfoldable pub overlaid_duel : Lot → Lot → DuelState
overlaid_duel lot presentation =
    let d = keep_timing lot.duel_state (some_duel presentation.duel_state) in
    record d { lot_id = lot.id; active = if is_open lot.status then d.active else false }

abbrev pub stage_or : PlaybookStage → PlaybookStage → PlaybookStage
stage_or no_stage old = old
stage_or new old = new

unfoldable pub overlaid_lot : Lot → Lot → Lot
overlaid_lot lot presentation = record lot {
  trust_cards = clone_trust_cards presentation.trust_cards;
  presentation_version = presentation.presentation_version;
  duel_state = some (overlaid_duel lot presentation);
  playbook_stage =
      if is_open lot.status
      then stage_or presentation.playbook_stage lot.playbook_stage
      else lot.playbook_stage;
}

unfoldable pub overlay_lot_presentation : Option Lot → Option Lot → Result OverlayError Lot
overlay_lot_presentation none presentation = err lots_required
overlay_lot_presentation (some lot) none = err lots_required
overlay_lot_presentation (some lot) (some presentation) = do
  reject_if
      (not (str_eq presentation.id lot.id)
        || not (str_eq presentation.main_account_id lot.main_account_id))
      identity_mismatch
  reject_if (leb_ℤ presentation.presentation_version (pos 0)) version_not_positive
  ok (overlaid_lot lot presentation)
