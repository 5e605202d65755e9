-- ===== src/Runtime/Sync/Passed.antt =====
-- What an accepted change of the configuration tells: the guards that it has passed.
use byte_danceliveauctioni.Base.{◌+◌, ◌-◌, ◌^◌, ◌≤◌, ◌<◌, ◌≡◌, false, ok, arith}
use byte_danceliveauctioni.Base.Int.{pos, pos_part, add64_pos}
use byte_danceliveauctioni.Base.Text.{str_eq_iff}
use byte_danceliveauctioni.Contract.Checks.{Externals}
use byte_danceliveauctioni.Runtime.Types.{RuntimeState, SyncLotConfig, RuntimeDecision}
use byte_danceliveauctioni.Runtime.Validate.{is_runtime_terminal}
use byte_danceliveauctioni.Runtime.Validate.Facts.{
  IsValidConfig, IsValidState, validate_runtime_state-IsValidState,
  validate_runtime_config-IsValidConfig,
}
use byte_danceliveauctioni.Runtime.Fact.{new_runtime_decision}
use byte_danceliveauctioni.Runtime.Sync.{decide_sync_lot_config, synced_state, cap_is_reached}

pub record PassedSync (x : Externals) (s : RuntimeState) (c : SyncLotConfig) (d : RuntimeDecision)
    : Type 0 where
  pub valid : IsValidState s
  pub next_valid : IsValidConfig c.next_config
  pub version_left : pos_part s.version < 2 ^ 53 - 1
  pub running : is_runtime_terminal s.status ≡ false
  pub next_version : pos_part c.next_config.config_version ≡ pos_part s.config.config_version + 1
  pub same_lot : c.next_config.lot_id ≡ s.config.lot_id
  pub same_room : c.next_config.room_id ≡ s.config.room_id
  pub same_account : c.next_config.main_account_id ≡ s.config.main_account_id
  pub same_currency : c.next_config.currency ≡ s.config.currency
  pub extends_left : pos_part s.extend_count ≤ pos_part c.next_config.max_extend_count
  pub cap_open : cap_is_reached c.next_config.cap_price_fen s.current_price_fen ≡ false
  pub state : d.state ≡ synced_state s c

pub decide_sync_lot_config-PassedSync :
    (x : Externals) (s : RuntimeState) (c : SyncLotConfig) {d : RuntimeDecision}
    → decide_sync_lot_config x s c ≡ ok d
    → PassedSync x s c d
unfolding decide_sync_lot_config new_runtime_decision
decide_sync_lot_config-PassedSync x s c h =
    let v : IsValidState s = validate_runtime_state-IsValidState s (ground arith) in
    let n : IsValidConfig c.next_config =
      validate_runtime_config-IsValidConfig c.next_config (ground arith) in
    record {
      valid = v;
      next_valid = n;
      version_left = ground (arith, v.version);
      running = ground arith;
      next_version = ground (
        arith,
        v.config.config_version,
        n.config_version,
        add64_pos s.config.config_version (pos 1),
      );
      same_lot = ground (arith, str_eq_iff c.next_config.lot_id s.config.lot_id);
      same_room = ground (arith, str_eq_iff c.next_config.room_id s.config.room_id);
      same_account =
          ground (arith, str_eq_iff c.next_config.main_account_id s.config.main_account_id);
      same_currency = ground (arith, str_eq_iff c.next_config.currency s.config.currency);
      extends_left = ground (arith, v.extend_count, n.max_extend);
      cap_open = ground arith;
      state = ground arith;
    }
