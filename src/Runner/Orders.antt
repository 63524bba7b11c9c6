-- ===== src/Runner/Orders.antt =====
-- The tracked orders of apps/gridbot/src/gridbot/runner.py.
use grid_bot_validation.Prelude.{
  ◌&&◌, Bool, true, false, Option, none, some, List, [], ◌∷◌, if◌then◌else◌,
}
use grid_bot_validation.Text.{Text, same_text, extract_client_order_prefix}
use grid_bot_validation.Dict.{Dict, get, put}
use grid_bot_validation.Decimal.{Decimals}
use grid_bot_validation.Backtest.{OrderDirection, same_side}
use grid_bot_validation.Executor.{PlaceLimitIntent}
use grid_bot_validation.Runner.{TrackedStatus, TrackedOrder, LimitOrder, Limits}

-- `tracked.status in ("pending", "placed")`
abbrev pub is_live : TrackedStatus → Bool
is_live TrackedStatus.pending = true
is_live TrackedStatus.placed = true
is_live _ = false

abbrev has_order_id : Text → Option Text → Bool
has_order_id order_id none = false
has_order_id order_id (some other) = same_text other order_id

abbrev pub same_flag : Bool → Bool → Bool
same_flag true b = b
same_flag false true = false
same_flag false false = true

module _ {D : Type 0} where
  abbrev pub mark_placed : Option Text → TrackedOrder D → TrackedOrder D
  mark_placed order_id t = record t { order_id = order_id; status = TrackedStatus.placed }

  abbrev pub mark_filled : TrackedOrder D → TrackedOrder D
  mark_filled t = record t { status = TrackedStatus.filled }

  abbrev pub mark_cancelled : TrackedOrder D → TrackedOrder D
  mark_cancelled t = record t { status = TrackedStatus.cancelled }

  abbrev pub mark_failed : TrackedOrder D → TrackedOrder D
  mark_failed t = record t { status = TrackedStatus.failed }

  -- The intent of an order that `get_limit_orders` lists.
  abbrev pub resting_if : TrackedStatus → Option (PlaceLimitIntent D) → Option (PlaceLimitIntent D)
  resting_if TrackedStatus.placed intent = intent
  resting_if _ intent = none

  abbrev pub resting : TrackedOrder D → Option (PlaceLimitIntent D)
  resting t = resting_if t.status t.intent

  abbrev pub order_dict : TrackedOrder D → PlaceLimitIntent D → LimitOrder D
  order_dict t intent = record {
    order_id = t.order_id;
    order_link_id = t.client_order_id;
    price = intent.price;
    qty = intent.qty;
    side = intent.side;
    reduce_only = intent.reduce_only;
  }

  abbrev pub listed : OrderDirection → LimitOrder D → Limits D → Limits D
  listed OrderDirection.long o ls = record ls { long_orders = o ∷ ls.long_orders }
  listed _ o ls = record ls { short_orders = o ∷ ls.short_orders }

  abbrev pub list_order : TrackedOrder D → Option (PlaceLimitIntent D) → Limits D → Limits D
  list_order t none ls = ls
  list_order t (some intent) ls = listed intent.direction (order_dict t intent) ls

  unfoldable pub get_limit_orders : List (TrackedOrder D) → Limits D
  get_limit_orders [] = record { long_orders = []; short_orders = [] }
  get_limit_orders (t ∷ ts) = list_order t (resting t) (get_limit_orders ts)

  -- The scan of `_find_tracked_order` for an exchange id, with the key in place of the object
  unfoldable pub find_order_id : Text → Dict (TrackedOrder D) → Option (Text × TrackedOrder D)
  find_order_id order_id [] = none
  find_order_id order_id (e ∷ es) =
      let rest = find_order_id order_id es in
      if has_order_id order_id e.1.order_id then some e else rest

  -- `if order_id:`
  abbrev find_nonempty : Option Text → Dict (TrackedOrder D) → Option (Text × TrackedOrder D)
  find_nonempty (some (c ∷ cs)) orders = find_order_id (c ∷ cs) orders
  find_nonempty _ orders = none

  -- `prefix in self._tracked_orders`
  abbrev find_prefix : Option Text → Dict (TrackedOrder D) → Option (Text × TrackedOrder D)
  find_prefix none orders = none
  find_prefix (some prefix) orders = elim (get orders prefix) [
    | none ↦ none
    | some t ↦ some (prefix, t)
  ]

  -- `_find_tracked_order`
  unfoldable pub find_tracked_order :
      (order_link_id order_id : Option Text)
      → Dict (TrackedOrder D)
      → Option (Text × TrackedOrder D)
  find_tracked_order order_link_id order_id orders =
      elim (find_prefix (extract_client_order_prefix order_link_id) orders) [
        | some found ↦ some found
        | none ↦ find_nonempty order_id orders
      ]

  -- A change of the object that was found
  abbrev pub mark :
      (TrackedOrder D → TrackedOrder D)
      → Option (Text × TrackedOrder D)
      → Dict (TrackedOrder D)
      → Dict (TrackedOrder D)
  mark change none orders = orders
  mark change (some (key, t)) orders = put orders key (change t)

  unfoldable pub mark_order_cancelled_by_order_id :
      Text → Dict (TrackedOrder D) → Dict (TrackedOrder D)
  mark_order_cancelled_by_order_id order_id orders =
      mark mark_cancelled (find_tracked_order none (some order_id) orders) orders

module _ {D : Type 0} ⦃dec : Decimals D⦄ where
  -- The test for an exact duplicate
  abbrev pub same_order : LimitOrder D → PlaceLimitIntent D → Bool
  same_order o i =
      dec.eq o.price i.price
      && dec.eq o.qty i.qty
      && same_side o.side i.side
      && same_flag o.reduce_only i.reduce_only
