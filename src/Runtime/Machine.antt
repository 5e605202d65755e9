-- ===== src/Runtime/Machine.antt =====
-- The state machine that the decisions make: a command is decided, and a rejected command leaves
-- the state as it was.
pub mod Consistent
pub mod Invariant
pub mod Terminal
pub mod Forward
pub mod Sale
pub mod Schedule
pub mod Deadline
use byte_danceliveauctioni.Base.{List, [], ◌∷◌, Result, ok, err}
use byte_danceliveauctioni.Contract.Checks.{Externals}
use byte_danceliveauctioni.Runtime.Types.{
  RuntimeState, PlaceBid, CancelLot, CloseIfExpired, SyncLotConfig, Decision,
}
use byte_danceliveauctioni.Runtime.Bid.{decide_place_bid}
use byte_danceliveauctioni.Runtime.Close.{decide_cancel_lot, decide_close_if_expired}
use byte_danceliveauctioni.Runtime.Sync.{decide_sync_lot_config}

pub data Command : Type 0 where
  place : PlaceBid → Command
  cancel : CancelLot → Command
  close : CloseIfExpired → Command
  sync : SyncLotConfig → Command

unfoldable pub decide : Externals → RuntimeState → Command → Decision
decide x s (place c) = decide_place_bid x s c
decide x s (cancel c) = decide_cancel_lot x s c
decide x s (close c) = decide_close_if_expired x s c
decide x s (sync c) = decide_sync_lot_config x s c

abbrev pub after : RuntimeState → Decision → RuntimeState
after s (ok d) = d.state
after s (err e) = s

unfoldable pub run : Externals → RuntimeState → List Command → RuntimeState
run x s [] = s
run x s (c ∷ cs) = run x (after s (decide x s c)) cs
