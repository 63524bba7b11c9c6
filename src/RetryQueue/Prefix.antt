-- ===== src/RetryQueue/Prefix.antt =====
-- What `cancel_for_prefix` takes out of the queue: apps/gridbot/src/gridbot/retry_queue.py.
use grid_bot_validation.Prelude.{
  ◌+◌, ◌≡◌, refl, ◌↔◌, ◌⊎◌, inl, inr, ap, Bool, true, Option, none, some, List, [], ◌∷◌, length,
  arith, Bool-cases, Option-cases, if◌then◌else◌,
}
use grid_bot_validation.Text.{
  Text, same_text, extract_client_order_prefix, same_text-to, same_text-of,
}
use grid_bot_validation.RetryQueue.{same_as, IntentView, RetryItem, has_prefix, cancel_for_prefix}

-- The items of a queue that a test is false of, in their order.
pub without {ℓ} : {A : Type ℓ} → (A → Bool) → List A → List A
without p [] = []
without p (x ∷ xs) = let rest = without p xs in if p x then rest else x ∷ rest

module _ {A : Type 0} (v : IntentView A) (prefix : Text) where
  -- The item is a placement whose order id, or whose link id up to its first '-', is the prefix.
  abbrev pub IsFor : RetryItem A → Type 0
  IsFor item =
      (client_order_id : Text) × (link : Option Text) × (v.place_ids item.intent
        ≡ some (client_order_id, link))
      × ((client_order_id ≡ prefix) ⊎ (extract_client_order_prefix link ≡ some prefix))

  same_as-to : (o : Option Text) → same_as prefix o ≡ true → o ≡ some prefix
  same_as-to none h = absurd (cc h)
  same_as-to (some text) h = ap some (same_text-to text prefix h)

  has_prefix-to : (item : RetryItem A) → has_prefix v prefix item ≡ true → IsFor item
  unfolding has_prefix
  has_prefix-to item h = elim (Option-cases (v.place_ids item.intent)) [
    | inl cancel ↦ absurd (ground arith)
    | inr (ids, known) ↦ elim (Bool-cases (same_text ids.0 prefix)) [
      | inl exact ↦ (ids.0, ids.1, known, inl (same_text-to ids.0 prefix exact))
      | inr differs ↦
          (ids.0, ids.1, known, inr (same_as-to (extract_client_order_prefix ids.1) (ground arith)))
    ]
  ]

  has_prefix-of : (item : RetryItem A) → IsFor item → has_prefix v prefix item ≡ true
  unfolding has_prefix
  has_prefix-of item (client_order_id, link, known, either) = elim either [
    | inl exact ↦ ground (arith, ap (λ x. same_text x prefix) exact, same_text-of prefix)
    | inr begins ↦ ground (arith, ap (same_as prefix) begins, same_text-of prefix)
  ]

  -- Cancelling for a prefix takes out just the placements whose order id, or link id up to its first
  -- '-', is the prefix, keeps the others in their order, and says how many it took out.
  pub cancel_for_prefix_correct :
      (queue : List (RetryItem A))
      → let (removed, kept) = cancel_for_prefix v prefix queue in
        (kept ≡ without (has_prefix v prefix) queue)
        × (removed + length kept ≡ length queue)
        × ((item : RetryItem A) → (has_prefix v prefix item ≡ true) ↔ IsFor item)
  unfolding cancel_for_prefix without
  cancel_for_prefix_correct [] = (refl, refl, λ item. (has_prefix-to item, has_prefix-of item))
  cancel_for_prefix_correct (item ∷ items) =
      let (kept, count, meaning) = cancel_for_prefix_correct items in
      elim (Bool-cases (has_prefix v prefix item)) [
        | inl taken ↦ (ground (arith, kept), ground (arith, count), meaning)
        | inr left ↦ (ground (arith, kept), ground (arith, count), meaning)
      ]
