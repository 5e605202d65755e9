-- ===== src/Idgen/Tests.antt =====
-- A generator whose clock stands still, and runs backwards: the theorems at it.
use byte_danceliveauctioni.Base.{
  ℕ, ◌/◌, ◌%◌, ◌+◌, ◌*◌, ◌^◌, ◌≡◌, refl, List, [], ◌∷◌, some, none, arith,
}
use byte_danceliveauctioni.Base.Int.{ℤ, pos, negsuc, add64, sub64, wrap64}
use byte_danceliveauctioni.Idgen.{
  Generator, new_generator, next_id, next_ids, advance, timestamp, max_ms, next_timestamp_after,
  next_sequence, id_of,
}
use byte_danceliveauctioni.Idgen.Unique.{IsReady, Ascending, next_ids-Ascending, next_id-parts}

abbrev fresh : Generator
fresh = record { worker_id = 7; last_timestamp_ms = negsuc 0; sequence = 0 }

made : new_generator (pos 7) ≡ some fresh
unfolding new_generator
made = refl

worker_out_of_range : new_generator (pos 1024) ≡ none
unfolding new_generator
worker_out_of_range = refl

abbrev noon : ℤ
noon = pos 1704067200005

abbrev clock : List (ℤ × ℤ)
clock = (noon, noon) ∷ (noon, noon) ∷ (pos 1704067200001, noon) ∷ []

abbrev fresh-IsReady : IsReady fresh
fresh-IsReady = record {
  valid = record { worker = omega arith; sequence = omega arith };
  from_minus_one = omega arith;
  far_from_overflow = omega arith;
}

next_ids-Ascending_example : Ascending (next_ids fresh clock).0
unfolding advance timestamp max_ms next_sequence next_timestamp_after
next_ids-Ascending_example =
    next_ids-Ascending fresh clock fresh-IsReady (omega arith, (omega arith, (omega arith, tt)))

abbrev full : Generator
full = record fresh { last_timestamp_ms = noon; sequence = 4095 }

-- A full sequence takes the next millisecond.
id_after_full : (next_id full noon noon).0 ≡ pos (6 * 2 ^ 22 + 7 * 2 ^ 12)
unfolding next_id id_of advance timestamp max_ms next_sequence next_timestamp_after add64 sub64
    wrap64
id_after_full = refl

next_id-parts_example :
    (n : ℕ) × ((next_id fresh noon noon).0 ≡ pos n)
    × (pos (n / 2 ^ 22 + 1704067200000) ≡ (advance fresh noon noon).last_timestamp_ms)
    × (n / 2 ^ 12 % 1024 ≡ 7)
    × (n % 4096 ≡ (advance fresh noon noon).sequence)
unfolding advance timestamp max_ms
next_id-parts_example = next_id-parts fresh noon noon fresh-IsReady (omega arith)
