-- ===== src/Runtime/Settle.antt =====
-- runtime_state_machine.go: what a decision that may end the auction gives, and `settleRuntimeState`.
use byte_danceliveauctioni.Base.{String, Option, Result}
use byte_danceliveauctioni.Base.Int.{ℤ}
use byte_danceliveauctioni.Proto.{settled, OrderDraft}
use byte_danceliveauctioni.Runtime.Types.{RuntimeError, RuntimeState}

abbrev pub Outcome : Type 0
Outcome = Result RuntimeError (RuntimeState × Option OrderDraft)

unfoldable pub settle_runtime_state : RuntimeState → String → String → ℤ → String → ℤ → RuntimeState
settle_runtime_state s user_id nickname amount_fen order_id now = record s {
  status = settled;
  winner_user_id = user_id;
  winner_nickname = nickname;
  final_price_fen = amount_fen;
  settled_at_unix_ms = now;
  order_id = order_id;
}
