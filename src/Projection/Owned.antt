-- ===== src/Projection/Owned.antt =====
-- Who owns which part of the lot that readers see: what a presentation leaves to the facts, and what a
-- fact that comes again does.
use byte_danceliveauctioni.Base.{
  ◌≡◌, refl, sym, ap, Bool, true, false, not, ◌||◌, Option, some, ok, arith, reject_if-eq-ok,
  if◌then◌else◌,
}
use byte_danceliveauctioni.Base.Int.{ℤ, pos, leb_ℤ}
use byte_danceliveauctioni.Base.Text.{str_eq}
use byte_danceliveauctioni.Proto.{LotStatus, is_open, RuntimeFact, LotRuntimeState}
use byte_danceliveauctioni.Proto.Lot.{Lot, DuelState, LotQueueStatus, not_queued}
use byte_danceliveauctioni.Projection.{
  some_duel, merge_runtime_duel_state, lot_after_fact, lot_from_runtime_fact, leaves_queue,
  runtime_fact_terminal_status, some_lot, after_state,
}
use byte_danceliveauctioni.Projection.Overlay.{
  overlaid_duel, overlaid_lot, overlay_lot_presentation, identity_mismatch, version_not_positive,
}

overlay-eq-ok :
    (lot p l : Lot) → overlay_lot_presentation (some lot) (some p) ≡ ok l → overlaid_lot lot p ≡ l
unfolding overlay_lot_presentation
overlay-eq-ok lot p l h =
    let a =
      reject_if-eq-ok
        (not (str_eq p.id lot.id) || not (str_eq p.main_account_id lot.main_account_id))
        identity_mismatch _ h in
    let b = reject_if-eq-ok (leb_ℤ p.presentation_version (pos 0)) version_not_positive _ a.1 in
    cc (b.1)

-- A settled, cancelled or failed lot takes no bids.
still_active :
    (s : LotStatus) (a : Bool)
    → (if runtime_fact_terminal_status s then false else (if is_open s then a else false))
      ≡ (if is_open s then a else false)
still_active s a = ground arith

duel_after_replay :
    (lot p : Lot) (state : LotRuntimeState) (fact : RuntimeFact)
    → merge_runtime_duel_state
        (some (overlaid_duel (lot_after_fact lot fact state) p))
        fact.lot_id
        state.ends_at_unix_ms
        state.extend_count
        state.max_extend_count
        (runtime_fact_terminal_status state.status)
      ≡ overlaid_duel (lot_after_fact lot fact state) p
unfolding merge_runtime_duel_state overlaid_duel lot_after_fact
duel_after_replay lot p state fact =
    ap
      (λ a. record (some_duel p.duel_state) {
        lot_id = fact.lot_id;
        ends_at_unix_ms = state.ends_at_unix_ms;
        extend_count = state.extend_count;
        max_extend_count = state.max_extend_count;
        active = a;
      })
      (still_active state.status (some_duel p.duel_state).active)

if_again {ℓ} :
    {A : Type ℓ} (b : Bool) (x y : A)
    → (if b then x else (if b then x else y)) ≡ (if b then x else y)
if_again true x y = refl
if_again false x y = refl

same_parts :
    (base : Lot) (s t : LotQueueStatus) (m n : ℤ) (d e : DuelState)
    → s ≡ t
    → m ≡ n
    → d ≡ e
    → record base { queue_status = s; queue_position = m; duel_state = some d }
      ≡ record base { queue_status = t; queue_position = n; duel_state = some e }
same_parts base s t m n d e a b c = rw a (rw b (rw c refl))

replayed :
    (lot p : Lot) (state : LotRuntimeState) (fact : RuntimeFact)
    → lot_after_fact (overlaid_lot (lot_after_fact lot fact state) p) fact state
      ≡ overlaid_lot (lot_after_fact lot fact state) p
unfolding overlaid_lot lot_after_fact
replayed lot p state fact =
    same_parts (overlaid_lot (lot_after_fact lot fact state) p) _ _ _ _ _ _
      (if_again (leaves_queue fact state) not_queued lot.queue_status)
      (if_again (leaves_queue fact state) (pos 0) lot.queue_position)
      (duel_after_replay lot p state fact)

-- For every lot's metadata (or none), runtime fact with a state, presentation p and lot l: if
-- OverlayLotPresentation puts p onto the lot that LotFromRuntimeFact makes of the fact and leaves l,
-- then LotFromRuntimeFact on l with the same fact gives l, so that a fact that is delivered again keeps
-- the host's presentation.
pub lot_from_runtime_fact-again :
    (base : Option Lot) (p l : Lot) (fact : RuntimeFact) (state : LotRuntimeState)
    → fact.state_after ≡ some state
    → overlay_lot_presentation (some (lot_from_runtime_fact base (some fact))) (some p) ≡ ok l
    → lot_from_runtime_fact (some l) (some fact) ≡ l
unfolding lot_from_runtime_fact lot_after_fact
lot_from_runtime_fact-again base p l fact state e h =
    let k = overlay-eq-ok (after_state (some_lot base) fact fact.state_after) p l h in
    rw (sym k) (rw e (replayed (some_lot base) p state fact))

-- The parts of a lot that the runtime decides.
pub record IsSameAuction (lot l : Lot) : Type 0 where
  pub status : l.status ≡ lot.status
  pub price : l.current_price ≡ lot.current_price
  pub leader : l.leading_user_id ≡ lot.leading_user_id
  pub winner : l.winner_user_id ≡ lot.winner_user_id
  pub final : l.final_price ≡ lot.final_price
  pub deadline : l.ends_at_unix_ms ≡ lot.ends_at_unix_ms
  pub version : l.version ≡ lot.version
  pub config : l.config_version ≡ lot.config_version
  pub rule : l.rule ≡ lot.rule
  pub stats : l.stats ≡ lot.stats

-- The duel's timing and extensions are those of the running auction, if it had any, and its lot is the
-- lot.
pub record IsTimedBy (lot : Lot) (d : DuelState) : Type 0 where
  pub lot_id_same : d.lot_id ≡ lot.id
  pub ends : d.ends_at_unix_ms ≡ (some_duel lot.duel_state).ends_at_unix_ms
  pub extensions : d.extend_count ≡ (some_duel lot.duel_state).extend_count
  pub limit : d.max_extend_count ≡ (some_duel lot.duel_state).max_extend_count

overlaid_duel-IsTimedBy :
    (lot p : Lot) (d : DuelState) → lot.duel_state ≡ some d → IsTimedBy lot (overlaid_duel lot p)
unfolding overlaid_duel
overlaid_duel-IsTimedBy lot p d e = record {
  lot_id_same = refl;
  ends = rw e refl;
  extensions = rw e refl;
  limit = rw e refl;
}

overlaid_lot-IsSameAuction : (lot p : Lot) → IsSameAuction lot (overlaid_lot lot p)
unfolding overlaid_lot
overlaid_lot-IsSameAuction lot p = record {
  status = refl;
  price = refl;
  leader = refl;
  winner = refl;
  final = refl;
  deadline = refl;
  version = refl;
  config = refl;
  rule = refl;
  stats = refl;
}

-- For every lot with a duel state d, presentation p and lot l: if OverlayLotPresentation puts p onto the
-- lot and leaves l, then l has the lot's status, prices, leader, winner, deadline, versions, rule and
-- statistics, and its duel has the timing, the extensions and the limit of d, for the same lot.
pub overlay_lot_presentation-keeps :
    (lot p l : Lot) (d : DuelState)
    → lot.duel_state ≡ some d
    → overlay_lot_presentation (some lot) (some p) ≡ ok l
    → IsSameAuction lot l
      × ((after : DuelState) × (l.duel_state ≡ some after) × IsTimedBy lot after)
unfolding overlaid_lot
overlay_lot_presentation-keeps lot p l d e h =
    let k = overlay-eq-ok lot p l h in
    rw (sym k) (
      overlaid_lot-IsSameAuction lot p,
      (overlaid_duel lot p, refl, overlaid_duel-IsTimedBy lot p d e),
    )
