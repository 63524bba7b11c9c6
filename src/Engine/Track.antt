-- ===== src/Engine/Track.antt =====
-- What `pending_orders` holds after an order update: `_handle_order_update_event` of
-- packages/gridcore/src/gridcore/engine.py.
use grid_bot_validation.Prelude.{
  ℕ, ◌≡◌, refl, ◌==◌, ◌≢◌, Bool, true, false, ◌||◌, Option, none, some, List, [], ◌∷◌, arith,
  if◌then◌else◌,
}
use grid_bot_validation.Engine.Types.{OrderStatus}
use grid_bot_validation.Engine.Handle.{insert, remove, track}

-- `pending_orders.get(k)`
unfoldable pub find : ℕ → List (ℕ × ℕ) → Option ℕ
find k [] = none
find k ((j, v) ∷ d) = let later = find k d in if k == j then some v else later

unfoldable pub has_key : ℕ → List (ℕ × ℕ) → Bool
has_key k [] = false
has_key k ((j, v) ∷ d) = k == j || has_key k d

-- No key stands twice: what makes the list a dict.
unfoldable pub keys_once : List (ℕ × ℕ) → Bool
unfolding has_key
keys_once [] = true
keys_once ((j, v) ∷ d) = let later = keys_once d in if has_key j d then false else later

find-insert_self : (k v : ℕ) (d : List (ℕ × ℕ)) → find k (insert k v d) ≡ some v
unfolding find insert
find-insert_self k v [] = ground arith
find-insert_self k v ((j, w) ∷ d) = ground (arith, find-insert_self k v d)

find-insert_other : (k i v : ℕ) (d : List (ℕ × ℕ)) → i ≢ k → find i (insert k v d) ≡ find i d
unfolding find insert
find-insert_other k i v [] h = ground arith
find-insert_other k i v ((j, w) ∷ d) h = ground (arith, find-insert_other k i v d)

has_key-insert : (k i v : ℕ) (d : List (ℕ × ℕ)) → has_key i (insert k v d) ≡ (i == k || has_key i d)
unfolding has_key insert
has_key-insert k i v [] = ground arith
has_key-insert k i v ((j, w) ∷ d) = ground (arith, has_key-insert k i v d)

keys_once-insert :
    (k v : ℕ) (d : List (ℕ × ℕ)) → keys_once d ≡ true → keys_once (insert k v d) ≡ true
unfolding keys_once insert has_key
keys_once-insert k v [] h = ground arith
keys_once-insert k v ((j, w) ∷ d) h = ground (arith, keys_once-insert k v d, has_key-insert k j v d)

find-absent : (k : ℕ) (d : List (ℕ × ℕ)) → has_key k d ≡ false → find k d ≡ none
unfolding find has_key
find-absent k [] h = refl
find-absent k ((j, w) ∷ d) h = ground (arith, find-absent k d)

find-remove_self : (k : ℕ) (d : List (ℕ × ℕ)) → keys_once d ≡ true → find k (remove k d) ≡ none
unfolding find remove keys_once
find-remove_self k [] h = refl
find-remove_self k ((j, w) ∷ d) h = ground (arith, find-remove_self k d, find-absent k d)

find-remove_other : (k i : ℕ) (d : List (ℕ × ℕ)) → i ≢ k → find i (remove k d) ≡ find i d
unfolding find remove
find-remove_other k i [] h = refl
find-remove_other k i ((j, w) ∷ d) h = ground (arith, find-remove_other k i d)

has_key-remove : (k i : ℕ) (d : List (ℕ × ℕ)) → has_key i d ≡ false → has_key i (remove k d) ≡ false
unfolding has_key remove
has_key-remove k i [] h = refl
has_key-remove k i ((j, w) ∷ d) h = ground (arith, has_key-remove k i d)

keys_once-remove : (k : ℕ) (d : List (ℕ × ℕ)) → keys_once d ≡ true → keys_once (remove k d) ≡ true
unfolding keys_once remove
keys_once-remove k [] h = refl
keys_once-remove k ((j, w) ∷ d) h = ground (arith, keys_once-remove k d, has_key-remove k j d)

-- What an update with this status leaves under its own key.
abbrev pub after_update : OrderStatus → (order_id : ℕ) → (before : Option ℕ) → Option ℕ
after_update OrderStatus.new_order id before = some id
after_update OrderStatus.partially_filled id before = some id
after_update OrderStatus.filled id before = none
after_update OrderStatus.cancelled id before = none
after_update OrderStatus.rejected id before = none
after_update OrderStatus.other_status id before = before

-- An order update keeps the tracked orders a dict and changes the entry of its own link id only: a
-- live order is tracked under its latest order id, and a finished one is not tracked any more.
pub track_correct :
    (status : OrderStatus) (link id i : ℕ) (d : List (ℕ × ℕ))
    → keys_once d ≡ true
    → (keys_once (track status link id d) ≡ true)
      × (find link (track status link id d) ≡ after_update status id (find link d))
      × (i ≢ link → find i (track status link id d) ≡ find i d)
unfolding track
track_correct OrderStatus.new_order link id i d h =
    (keys_once-insert link id d h, find-insert_self link id d, find-insert_other link i id d)
track_correct OrderStatus.partially_filled link id i d h =
    (keys_once-insert link id d h, find-insert_self link id d, find-insert_other link i id d)
track_correct OrderStatus.filled link id i d h =
    (keys_once-remove link d h, find-remove_self link d h, find-remove_other link i d)
track_correct OrderStatus.cancelled link id i d h =
    (keys_once-remove link d h, find-remove_self link d h, find-remove_other link i d)
track_correct OrderStatus.rejected link id i d h =
    (keys_once-remove link d h, find-remove_self link d h, find-remove_other link i d)
track_correct OrderStatus.other_status link id i d h = (h, refl, λ _. refl)
