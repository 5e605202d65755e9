-- ===== src/Runtime/Machine/Terminal.antt =====
-- A settled, cancelled or failed auction stays as it is, whatever commands follow.
use byte_danceliveauctioni.Base.{◌⊎◌, inl, inr, ◌≡◌, refl, true, List, [], ◌∷◌, ◌≢◌, ok, err, arith}
use byte_danceliveauctioni.Proto.{settled, cancelled, failed}
use byte_danceliveauctioni.Contract.Checks.{Externals}
use byte_danceliveauctioni.Runtime.Types.{RuntimeState, RuntimeDecision, Decision}
use byte_danceliveauctioni.Runtime.Validate.{is_runtime_terminal}
use byte_danceliveauctioni.Runtime.Bid.Passed.{decide_place_bid-PassedBid}
use byte_danceliveauctioni.Runtime.Close.{decide_cancel_lot, decide_close_if_expired}
use byte_danceliveauctioni.Runtime.Sync.{decide_sync_lot_config}
use byte_danceliveauctioni.Runtime.Machine.{Command, place, cancel, close, sync, decide, after, run}

never_accepts :
    (x : Externals) (s : RuntimeState) (c : Command) {d : RuntimeDecision}
    → is_runtime_terminal s.status ≡ true
    → decide x s c ≢ ok d
unfolding decide is_runtime_terminal
never_accepts x s (place c) t h = ground (arith, (decide_place_bid-PassedBid x s c h).open_status)
never_accepts x s (cancel c) t h = unfold decide_cancel_lot in ground arith
never_accepts x s (close c) t h = unfold decide_close_if_expired in ground arith
never_accepts x s (sync c) t h = unfold decide_sync_lot_config in ground arith

after_of_no_ok :
    (s : RuntimeState) (r : Decision) → ((d : RuntimeDecision) → r ≢ ok d) → after s r ≡ s
after_of_no_ok s (ok d) n = absurd (n d refl)
after_of_no_ok s (err e) n = refl

is_terminal_of_cases :
    (s : RuntimeState)
    → (s.status ≡ settled) ⊎ (s.status ≡ cancelled) ⊎ (s.status ≡ failed)
    → is_runtime_terminal s.status ≡ true
unfolding is_runtime_terminal
is_terminal_of_cases s (inl e) = rw e refl
is_terminal_of_cases s (inr (inl e)) = rw e refl
is_terminal_of_cases s (inr (inr e)) = rw e refl

run-terminal :
    (x : Externals) (s : RuntimeState) (cs : List Command)
    → is_runtime_terminal s.status ≡ true
    → run x s cs ≡ s
unfolding run
run-terminal x s [] t = refl
run-terminal x s (c ∷ cs) t =
    rw (after_of_no_ok s (decide x s c) (λ d. never_accepts x s c t)) (run-terminal x s cs t)

-- No sequence of bids, cancellations, closings and changes of the configuration changes a settled,
-- cancelled or failed auction.
pub terminal_absorbs :
    (x : Externals) (s : RuntimeState) (cs : List Command)
    → (s.status ≡ settled) ⊎ (s.status ≡ cancelled) ⊎ (s.status ≡ failed)
    → run x s cs ≡ s
terminal_absorbs x s cs t = run-terminal x s cs (is_terminal_of_cases s t)
