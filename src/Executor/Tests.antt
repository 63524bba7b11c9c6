-- ===== src/Executor/Tests.antt =====
-- Concrete runs of the executor, and the theorems at inputs that meet their hypotheses.
use grid_bot_validation.Prelude.{◌≡◌, refl, true, some, [], ◌∷◌, arith}
use grid_bot_validation.Text.{Text, same_text, digits, extract_client_order_prefix}
use grid_bot_validation.Outcome.{ok}
use grid_bot_validation.Executor.Errors.{
  Category, classify_error, find_code, code_here, closed_number, read_digits, skip_spaces,
  after_prefix, is_auth_error, is_insufficient_balance, is_truncate_error, is_duplicate_link_error,
  is_network_error, lower, within,
}
use grid_bot_validation.Executor.{
  make_order_link_id, execute_batch, execute_intent, execute_place, link_id, place_with,
  checked_place, submit_place, after_place, handle_error, count_failure, get_position_idx,
  execute_cancel, after_cancel,
}
use grid_bot_validation.Executor.Samples.{auth_text, refusing, executor, batch}
use grid_bot_validation.Executor.Cooldown.{Progress, execute_batch-Progress}
use grid_bot_validation.Executor.Links.{NoDash, make_order_link_id-prefix}

-- "[110017]"
abbrev truncate_text : Text
truncate_text = 91 ∷ 49 ∷ 49 ∷ 48 ∷ 48 ∷ 49 ∷ 55 ∷ 93 ∷ []

classified_run :
    (classify_error auth_text ≡ Category.auth) × (classify_error truncate_text ≡ Category.truncate)
unfolding classify_error find_code code_here closed_number read_digits skip_spaces after_prefix
    is_auth_error is_insufficient_balance is_truncate_error is_duplicate_link_error is_network_error
    lower within same_text
classified_run = (refl, refl)

-- The second refusal in a row begins the cooldown, and the third one does not begin it again; a cancel
-- that answers False counts for nothing.
batch_run : (execute_batch refusing batch (executor, 0)).1 ≡ (
  record executor { auth_failure_count = 3; auth_cooldown = true; on_cooldown_entered = some 1 },
  4,
)
unfolding execute_batch execute_intent execute_place link_id place_with checked_place submit_place
    after_place handle_error count_failure get_position_idx execute_cancel after_cancel
    make_order_link_id digits classify_error find_code code_here closed_number read_digits
    skip_spaces after_prefix is_auth_error
batch_run = refl

execute_batch-Progress_example : Progress executor (execute_batch refusing batch (executor, 0)).1.0
execute_batch-Progress_example = execute_batch-Progress refusing batch (executor, 0)

id-NoDash : NoDash (97 ∷ 98 ∷ [])
unfolding NoDash
id-NoDash = (λ h. omega arith, (λ h. omega arith, tt))

make_order_link_id-prefix_example :
    (link : Text) × (make_order_link_id (97 ∷ 98 ∷ []) 1_780_000_000_000 ≡ ok link)
    × (extract_client_order_prefix (some link) ≡ some (97 ∷ 98 ∷ []))
make_order_link_id-prefix_example =
    make_order_link_id-prefix 97 (98 ∷ []) 1_780_000_000_000 (omega arith) id-NoDash (omega arith)
