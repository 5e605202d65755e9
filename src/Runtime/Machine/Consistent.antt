-- ===== src/Runtime/Machine/Consistent.antt =====
-- The bidding side of a running auction: ranking, participants, number of bids, price and leader
-- agree with one another, and a bid keeps it so.
use byte_danceliveauctioni.Base.{
  ◌+◌, ◌≤◌, ◌≡◌, refl, true, false, String, List, [], ◌∷◌, ◌⊎◌, inl, inr, All, All-map, length,
  Bool-cases, arith,
}
use byte_danceliveauctioni.Base.Int.{ℤ, pos, pos_part, ◌≤ℤ◌, add64, add64_pos}
use byte_danceliveauctioni.Base.Text.{str_eq_iff, is_empty, is_blank-is_empty}
use byte_danceliveauctioni.Contract.Checks.{Externals}
use byte_danceliveauctioni.Runtime.Types.{RuntimeState, RankingEntry, PlaceBid, RuntimeDecision}
use byte_danceliveauctioni.Runtime.Ranking.{bid_entry, update_runtime_ranking}
use byte_danceliveauctioni.Runtime.Ranking.Order.{IsDistinct, IsSorted}
use byte_danceliveauctioni.Runtime.Ranking.Update.{AllBelow, update_runtime_ranking-IsLedBy}
use byte_danceliveauctioni.Runtime.Bid.{contains, add_participant}
use byte_danceliveauctioni.Runtime.Bid.Passed.{PassedBid}

abbrev pub AllAtMost : ℤ → List RankingEntry → Type 0
AllAtMost price = All λ y. y.amount_fen ≤ℤ price

-- A list of participants without repetitions.
abbrev pub IsUnique : List String → Type 0
IsUnique [] = Unit {0}
IsUnique (x ∷ xs) = (contains xs x ≡ false) × IsUnique xs

-- Nobody has bid.
pub record IsFresh (ranking : List RankingEntry) (participants : List String) (bids : ℤ)
    (leader : String) : Type 0 where
  pub no_bids : bids ≡ pos 0
  pub no_entries : ranking ≡ []
  pub no_participants : participants ≡ []
  pub no_leader : is_empty leader ≡ true

-- The leader is the first of the ranking, with the current price, and takes part.
pub record IsLed (ranking : List RankingEntry) (participants : List String) (price : ℤ)
    (leader : String) : Type 0 where
  pub first : RankingEntry
  pub rest : List RankingEntry
  pub leads : ranking ≡ first ∷ rest
  pub is_leader : first.user_id ≡ leader
  pub at_price : first.amount_fen ≡ price
  pub takes_part : contains participants leader ≡ true
  pub has_name : is_empty leader ≡ false

-- The bidding side of a state: ranking, participants, number of bids, price and leader agree.
pub record IsConsistent (ranking : List RankingEntry) (participants : List String) (bids price : ℤ)
    (leader : String) : Type 0 where
  pub sorted : IsSorted ranking
  pub distinct : IsDistinct ranking
  pub capped : AllAtMost price ranking
  pub unique : IsUnique participants
  pub counted : length participants ≤ pos_part bids
  pub led : IsFresh ranking participants bids leader ⊎ IsLed ranking participants price leader

add_participant-contains :
    (id : String) (ids : List String) → contains (add_participant id ids) id ≡ true
unfolding add_participant contains
add_participant-contains id ids = elim (Bool-cases (contains ids id)) [
  | inl old ↦ rw (old, add_participant) old
  | inr new ↦ rw (new, add_participant) (ground (arith, str_eq_iff id id))
]

add_participant-IsUnique :
    (id : String) (ids : List String) → IsUnique ids → IsUnique (add_participant id ids)
unfolding add_participant
add_participant-IsUnique id ids u = elim (Bool-cases (contains ids id)) [
  | inl old ↦ rw (old, add_participant) u
  | inr new ↦ rw (new, add_participant) (new, u)
]

length-add_participant :
    (id : String) (ids : List String) → length (add_participant id ids) ≤ length ids + 1
unfolding add_participant
length-add_participant id ids = ground arith

-- A bid above the price of a consistent state gives a consistent state, led by the bidder.
pub raised-IsConsistent :
    (x : Externals) (s : RuntimeState) (c : PlaceBid) {d : RuntimeDecision}
    → PassedBid x s c d
    → IsConsistent s.top_ranking s.participant_ids s.bid_count s.current_price_fen s.leading_user_id
    → IsConsistent
        (update_runtime_ranking s.top_ranking c c.ranking_limit)
        (add_participant c.user_id s.participant_ids)
        (add64 s.bid_count (pos 1))
        c.amount_fen
        c.user_id
unfolding bid_entry
raised-IsConsistent x s c p k =
    let below : AllBelow c.amount_fen s.top_ranking =
      All-map
        (λ y h. omega (
          arith, p.raises, p.amount.not_negative, p.valid.price.not_negative,
          p.valid.config.min_increment.is_positive,
        ))
        s.top_ranking k.capped in
    let led = update_runtime_ranking-IsLedBy s.top_ranking c k.distinct below p.limit_positive in
    record {
      sorted = rw led.leads led.sorted;
      distinct = rw led.leads led.distinct;
      capped = rw led.leads (omega arith, All-map (λ y h. omega arith) led.rest led.below);
      unique = add_participant-IsUnique c.user_id s.participant_ids k.unique;
      counted = omega (
        arith,
        length-add_participant c.user_id s.participant_ids,
        add64_pos s.bid_count (pos 1) p.valid.bid_count.not_negative refl (omega arith),
        k.counted,
      );
      led = inr (record {
        first = bid_entry c;
        rest = led.rest;
        leads = led.leads;
        is_leader = refl;
        at_price = refl;
        takes_part = add_participant-contains c.user_id s.participant_ids;
        has_name = is_blank-is_empty c.user_id p.user;
      });
    }
