-- ===== src/Projector/Sales.antt =====
-- sql_projection.go: the statements on bids, statistics and orders, each a function of its tables. A row that a
-- unique key forbids is MySQL's duplicate entry; `e` says which statements fail.
use byte_danceliveauctioni.Base.{
  String, Bool, ◌||◌, ◌&&◌, List, [], ◌∷◌, ◌++◌, Option, none, some, ok, ◌>>◌, ◌>>=◌, reject_if,
  if◌then◌else◌,
}
use Prim.Native.String.{◌++◌ as append}
use byte_danceliveauctioni.Base.Int.{ℤ, pos, leb_ℤ, add64}
use byte_danceliveauctioni.Base.Text.{str_eq, is_empty}
use byte_danceliveauctioni.Proto.{RuntimeFact, LotRuntimeState, AcceptedBid, OrderDraft}
use byte_danceliveauctioni.Projector.Tables.{
  BidRow, ParticipantRow, StatsRow, OrderRow, OrderItemRow, update, exists, insert_ignore,
}
use byte_danceliveauctioni.Projector.Errors.{
  invalid_projection, Encodings, Refusals, Step, answered, duplicate_entry, encoded, insert_bid,
  insert_participant, upsert_stats, insert_order, insert_order_item,
}

-- The two unique keys of auction_bids.
is_bid : RuntimeFact → AcceptedBid → BidRow → Bool
is_bid f bid row =
    str_eq row.id bid.bid_id
    || (str_eq row.lot_id f.lot_id
        && str_eq row.user_id bid.user_id
        && str_eq row.idempotency_key f.idempotency_key)

is_participant : RuntimeFact → AcceptedBid → ParticipantRow → Bool
is_participant f bid row = str_eq row.lot_id f.lot_id && str_eq row.user_id bid.user_id

unfoldable pub insert_accepted_bid :
    Encodings
    → Refusals
    → RuntimeFact
    → LotRuntimeState
    → String
    → Option AcceptedBid
    → List BidRow × List ParticipantRow
    → Step (List BidRow × List ParticipantRow)
unfolding is_bid is_participant
insert_accepted_bid x e f s account none (bids, participants) = ok (bids, participants)
insert_accepted_bid x e f s account (some bid) (bids, participants) = do
  payload ← encoded invalid_projection (
      x.encode_bid (record {
        id = bid.bid_id;
        lot_id = f.lot_id;
        user_id = bid.user_id;
        nickname = bid.nickname;
        amount = some (record { amount = bid.amount_fen; currency = s.currency });
        created_at_unix_ms = bid.accepted_at_unix_ms;
        avatar_url = bid.avatar_url;
      }))
  answered (e insert_bid)
  reject_if (exists (is_bid f bid) bids) duplicate_entry
  answered (e insert_participant)
  ok (
    bids
        ++ record {
          id = bid.bid_id;
          main_account_id = account;
          lot_id = f.lot_id;
          user_id = bid.user_id;
          nickname = bid.nickname;
          amount = bid.amount_fen;
          idempotency_key = f.idempotency_key;
          created_at_unix_ms = bid.accepted_at_unix_ms;
          payload = payload;
        }
          ∷ [],
    insert_ignore (is_participant f bid)
        (record {
          lot_id = f.lot_id;
          user_id = bid.user_id;
          main_account_id = account;
          room_id = f.room_id;
          first_bid_id = bid.bid_id;
          first_bid_at_unix_ms = bid.accepted_at_unix_ms;
        })
        participants,
  )

last_bid_id : Option AcceptedBid → String
last_bid_id none = ""
last_bid_id (some bid) = bid.bid_id

last_bid_at : Option AcceptedBid → ℤ
last_bid_at none = pos 0
last_bid_at (some bid) = bid.accepted_at_unix_ms

is_stats : RuntimeFact → StatsRow → Bool
is_stats f row = str_eq row.lot_id f.lot_id

set_stats : RuntimeFact → LotRuntimeState → String → StatsRow → StatsRow
unfolding last_bid_id last_bid_at
set_stats f s account row = record row {
  main_account_id = account;
  room_id = f.room_id;
  bid_count = s.bid_count;
  participant_count = s.participant_count;
  last_bid_id =
      if is_empty (last_bid_id f.accepted_bid) then row.last_bid_id else last_bid_id f.accepted_bid;
  last_bid_at_unix_ms =
      if leb_ℤ (last_bid_at f.accepted_bid) row.last_bid_at_unix_ms
      then row.last_bid_at_unix_ms
      else last_bid_at f.accepted_bid;
  projected_version = f.lot_version;
  updated_at_unix_ms = f.occurred_at_unix_ms;
}

new_stats : RuntimeFact → LotRuntimeState → String → StatsRow
unfolding last_bid_id last_bid_at
new_stats f s account = record {
  lot_id = f.lot_id;
  main_account_id = account;
  room_id = f.room_id;
  bid_count = s.bid_count;
  participant_count = s.participant_count;
  last_bid_id = last_bid_id f.accepted_bid;
  last_bid_at_unix_ms = last_bid_at f.accepted_bid;
  projected_version = f.lot_version;
  updated_at_unix_ms = f.occurred_at_unix_ms;
}

unfoldable pub upsert_lot_stats :
    Refusals → RuntimeFact → LotRuntimeState → String → List StatsRow → Step (List StatsRow)
unfolding is_stats set_stats new_stats
upsert_lot_stats e f s account stats = do
  answered (e upsert_stats)
  ok (
      if exists (is_stats f) stats
      then update (is_stats f) (set_stats f s account) stats
      else stats ++ new_stats f s account ∷ [])

abbrev pub payment_window_ms : ℤ
payment_window_ms = pos 1800000

-- The keys of user_orders: the id, and the source with its order id.
is_order : OrderDraft → OrderRow → Bool
is_order draft row =
    str_eq row.id draft.order_id
    || (str_eq row.source "auction" && str_eq row.source_order_id draft.order_id)

new_order : OrderDraft → String → OrderRow
new_order draft payload = record {
  id = draft.order_id;
  source = "auction";
  source_order_id = draft.order_id;
  order_no = draft.order_id;
  main_account_id = draft.main_account_id;
  user_id = draft.buyer_user_id;
  nickname = draft.buyer_nickname;
  status = "pending_payment";
  payment_status = "init";
  title = draft.title;
  total_amount = draft.total_amount_fen;
  currency = draft.currency;
  created_at_unix_ms = draft.created_at_unix_ms;
  updated_at_unix_ms = draft.created_at_unix_ms;
  expires_at_unix_ms = add64 draft.created_at_unix_ms payment_window_ms;
  version = pos 1;
  source_payload = payload;
}

item_id : OrderDraft → String
item_id draft = append "auction_item_" draft.order_id

is_order_item : OrderDraft → OrderItemRow → Bool
unfolding item_id
is_order_item draft row = str_eq row.id (item_id draft)

new_order_item : RuntimeFact → OrderDraft → OrderItemRow
unfolding item_id
new_order_item f draft = record {
  id = item_id draft;
  order_id = draft.order_id;
  source = "auction";
  source_item_id = f.lot_id;
  lot_id = f.lot_id;
  room_id = f.room_id;
  title = draft.title;
  image_url = draft.image_url;
  sku_name = "竞拍拍品";
  quantity = pos 1;
  unit_amount = draft.total_amount_fen;
  total_amount = draft.total_amount_fen;
  currency = draft.currency;
}

unfoldable pub insert_order_draft :
    Encodings
    → Refusals
    → RuntimeFact
    → Option OrderDraft
    → List OrderRow × List OrderItemRow
    → Step (List OrderRow × List OrderItemRow)
unfolding is_order is_order_item new_order new_order_item
insert_order_draft x e f none (orders, items) = ok (orders, items)
insert_order_draft x e f (some draft) (orders, items) = do
  payload ← encoded invalid_projection (x.encode_draft draft)
  answered (e insert_order)
  reject_if (exists (is_order draft) orders) duplicate_entry
  answered (e insert_order_item)
  reject_if (exists (is_order_item draft) items) duplicate_entry
  ok (orders ++ new_order draft payload ∷ [], items ++ new_order_item f draft ∷ [])
