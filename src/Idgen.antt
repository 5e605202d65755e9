-- ===== src/Idgen.antt =====
-- pkg/idgen/id.go: the snowflake generator of ids. The texts of ids and the default generator, which
-- reads the environment, are left out.
pub mod Bits
pub mod Unique
pub mod Tests
use Prim.Native.Nat.{bit_and, bit_or}
use byte_danceliveauctioni.Base.{
  ℕ, ◌+◌, ◌-◌, ◌*◌, ◌%◌, ◌^◌, Bool, true, false, ◌||◌, List, [], ◌∷◌, Option, none, some, ltb, ◌==◌,
  if◌then◌else◌,
}
use byte_danceliveauctioni.Base.Int.{
  ℤ, pos, negsuc, pos_part, neg_part, ltb_ℤ, leb_ℤ, eqb_ℤ, add64, sub64, wrap64,
}

abbrev pub epoch_ms : ℤ
epoch_ms = pos 1704067200000

abbrev pub max_worker_id : ℤ
max_worker_id = pos (2 ^ 10 - 1)

abbrev pub sequence_mask : ℕ
sequence_mask = 2 ^ 12 - 1

pub record Generator : Type 0 where
  pub worker_id : ℕ
  pub last_timestamp_ms : ℤ
  pub sequence : ℕ

-- A worker id in range is not negative.
unfoldable pub new_generator : ℤ → Option Generator
new_generator worker_id =
    if ltb_ℤ worker_id (pos 0) || ltb_ℤ max_worker_id worker_id
    then none
    else some
        (record { worker_id = pos_part worker_id; last_timestamp_ms = negsuc 0; sequence = 0 })

unfoldable pub max_ms : ℤ → ℤ → ℤ
max_ms floor now = if ltb_ℤ now floor then floor else now

-- The timestamp of the first reading: not before the epoch, and not before the last.
unfoldable pub timestamp : Generator → ℤ → ℤ
timestamp g now = max_ms g.last_timestamp_ms (max_ms epoch_ms now)

unfoldable pub next_timestamp_after : ℤ → ℤ → ℤ
next_timestamp_after last now = if leb_ℤ now last then add64 last (pos 1) else now

unfoldable pub next_sequence : Generator → ℕ
next_sequence g = bit_and (g.sequence + 1) sequence_mask

-- The state after NextID, with the clock's two readings; the second is used when the sequence is full.
unfoldable pub advance : Generator → ℤ → ℤ → Generator
advance g now again =
    if eqb_ℤ (timestamp g now) g.last_timestamp_ms
    then record g {
      sequence = next_sequence g;
      last_timestamp_ms =
          if next_sequence g == 0
          then next_timestamp_after g.last_timestamp_ms again
          else timestamp g now;
    }
    else record g { sequence = 0; last_timestamp_ms = timestamp g now }

-- `((nowMs - epochMs) << timestampShift) | (g.workerID << workerIDShift) | g.sequence`, where the shift
-- drops the digits above 64.
unfoldable pub id_of : Generator → ℤ
id_of g =
    let since = pos_part (sub64 g.last_timestamp_ms epoch_ms) in
    wrap64 (pos (bit_or (bit_or (since * 2 ^ 22 % 2 ^ 64) (g.worker_id * 2 ^ 12)) g.sequence))

unfoldable pub next_id : Generator → ℤ → ℤ → ℤ × Generator
next_id g now again = (id_of (advance g now again), advance g now again)

-- The ids of calls one after the other, and the generator at the end.
unfoldable pub next_ids : Generator → List (ℤ × ℤ) → List ℤ × Generator
next_ids g [] = ([], g)
next_ids g ((now, again) ∷ clock) =
    let r = next_id g now again in let rest = next_ids r.1 clock in (r.0 ∷ rest.0, rest.1)
