-- ===== src/Lot/Draft/Versions.antt =====
-- What ApplyDraftPatch changes.
use byte_danceliveauctioni.Base.{
  ◌≡◌, refl, sym, ◌∙◌, some, ok, not, true, false, ℕ, String, arith, reject_if-eq-ok, >>=-eq-ok,
}
use byte_danceliveauctioni.Base.Int.{ℤ, pos, add64, leb_ℤ}
use byte_danceliveauctioni.Base.Text.{is_empty}
use byte_danceliveauctioni.Contract.Checks.{max_redis_exact_integer}
use byte_danceliveauctioni.Proto.Lot.{Lot, PatchLotDraftRequest}
use byte_danceliveauctioni.Lot.Messages.{
  is_pre_start_cancellable_status, is_in_queue, not_editable, lot_is_queued,
  config_version_exhausted,
}
use byte_danceliveauctioni.Lot.Ready.{
  UrlParser, validate_lot_media, validate_optional_money, validate_http_image_url,
}
use byte_danceliveauctioni.Lot.Draft.{
  when, apply_draft_patch, patched_lot, patched_stock, bump_versions, config_version_or_one,
}

bump_versions-media :
    (parse : UrlParser) (lot : Lot)
    → validate_lot_media parse (bump_versions lot) ≡ validate_lot_media parse lot
unfolding bump_versions validate_lot_media
bump_versions-media parse lot = refl

-- An accepted patch: the lot was editable, its media are valid, and it is one version later. The
-- lifecycle and the owner stay.
pub record IsPatched (parse : UrlParser) (lot l : Lot) : Type 0 where
  pub editable : is_pre_start_cancellable_status lot.status ≡ true
  pub unqueued : is_in_queue lot.queue_status ≡ false
  pub unqueued_after : is_in_queue l.queue_status ≡ false
  pub media : validate_lot_media parse l ≡ ok tt
  pub version_after : l.version ≡ add64 lot.version (pos 1)
  pub config_after : l.config_version ≡ add64 (config_version_or_one lot.config_version) (pos 1)
  pub config_bound :
      leb_ℤ max_redis_exact_integer (config_version_or_one lot.config_version) ≡ false
  pub status_kept : l.status ≡ lot.status
  pub id_kept : l.id ≡ lot.id
  pub owner_kept : l.main_account_id ≡ lot.main_account_id

bump_versions-IsPatched :
    (parse : UrlParser) (new_card_id : ℕ → String) (lot : Lot) (req : PatchLotDraftRequest)
    (stock : ℤ)
    → is_pre_start_cancellable_status lot.status ≡ true
    → is_in_queue lot.queue_status ≡ false
    → validate_lot_media parse (patched_lot new_card_id lot req stock) ≡ ok tt
    → leb_ℤ max_redis_exact_integer (config_version_or_one lot.config_version) ≡ false
    → IsPatched parse lot (bump_versions (patched_lot new_card_id lot req stock))
unfolding bump_versions patched_lot
bump_versions-IsPatched parse new_card_id lot req stock e u m c = record {
  editable = e;
  unqueued = u;
  unqueued_after = ground arith;
  media = bump_versions-media parse (patched_lot new_card_id lot req stock) ∙ m;
  version_after = refl;
  config_after = refl;
  config_bound = c;
  status_kept = refl;
  id_kept = refl;
  owner_kept = refl;
}

-- For every lot, request and lot l: if ApplyDraftPatch accepts the request and leaves l, then the lot
-- was a draft, ready or queued by status and in no queue; l has valid media, the next version, the next
-- configuration version, which was not exhausted, and the lot's id, status and account.
pub apply_draft_patch-IsPatched :
    (parse : UrlParser) (new_card_id : ℕ → String) (lot l : Lot) (req : PatchLotDraftRequest)
    → apply_draft_patch parse new_card_id (some lot) (some req) ≡ ok l
    → IsPatched parse lot l
unfolding apply_draft_patch
apply_draft_patch-IsPatched parse new_card_id lot l req h =
    let a = reject_if-eq-ok (not (is_pre_start_cancellable_status lot.status)) not_editable _ h in
    let b = reject_if-eq-ok (is_in_queue lot.queue_status) lot_is_queued _ a.1 in
    let c =
      >>=-eq-ok (when (not (is_empty req.image_url)) (validate_http_image_url parse req.image_url))
        _ b.1 in
    let d = >>=-eq-ok (patched_stock req.stock lot.stock) _ c.2 in
    let e = >>=-eq-ok (validate_optional_money req.deposit_amount) _ d.2 in
    let f = >>=-eq-ok (validate_lot_media parse (patched_lot new_card_id lot req d.0)) _ e.2 in
    let g =
      reject_if-eq-ok (leb_ℤ max_redis_exact_integer (config_version_or_one lot.config_version))
        config_version_exhausted _ f.2 in
    let done : bump_versions (patched_lot new_card_id lot req d.0) ≡ l = cc (g.1) in
    rw (sym done) (bump_versions-IsPatched parse new_card_id lot req d.0 (ground arith) b.0 f.1 g.0)
