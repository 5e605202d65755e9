-- ===== src/Runtime/Fact/Built.antt =====
-- A decision that is returned carries the state and the fact that it was built from, and the fact
-- has passed the contract.
use byte_danceliveauctioni.Base.{◌≡◌, Option, some, ok, arith}
use byte_danceliveauctioni.Base.Int.{ℤ}
use byte_danceliveauctioni.Proto.{OrderDraft}
use byte_danceliveauctioni.Contract.Checks.{Externals}
use byte_danceliveauctioni.Runtime.Types.{RuntimeState, RuntimeDecision}
use byte_danceliveauctioni.Runtime.Fact.{new_runtime_decision}
use byte_danceliveauctioni.Proto.{AcceptedBid, RuntimeCommandType}
use byte_danceliveauctioni.Contract.Fact.{validate_runtime_fact}
use byte_danceliveauctioni.Runtime.Types.{CommandMeta}
use byte_danceliveauctioni.Runtime.Fact.{runtime_fact}

pub new_runtime_decision-eq-ok :
    (x : Externals) (meta : CommandMeta) (kind : RuntimeCommandType) (version : ℤ)
    (next : RuntimeState) (bid : Option AcceptedBid) (order : Option OrderDraft) (now : ℤ)
    {d : RuntimeDecision}
    → new_runtime_decision x meta kind version next bid order now ≡ ok d
    → (d.state ≡ next)
      × (d.fact ≡ runtime_fact meta kind version next bid order now)
      × (validate_runtime_fact x (some d.fact) ≡ ok tt)
unfolding new_runtime_decision
new_runtime_decision-eq-ok x meta kind version next bid order now h =
    (ground arith, ground arith, ground arith)
