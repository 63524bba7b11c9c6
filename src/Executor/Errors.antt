-- ===== src/Executor/Errors.antt =====
-- What an error text says: the regular expression and the classifiers of
-- apps/gridbot/src/gridbot/executor.py, and packages/bybit_adapter/src/bybit_adapter/error_codes.py.
-- Digits, letters and white space are those of ASCII.
use grid_bot_validation.Prelude.{
  ℕ, ◌+◌, ◌-◌, ◌*◌, leb, ◌==◌, Bool, true, false, ◌&&◌, ◌||◌, Option, none, some, [], ◌∷◌,
  if◌then◌else◌,
}
use grid_bot_validation.Text.{Text, same_text}

-- "(ErrCode:"
abbrev pub errcode_text : Text
errcode_text = 40 ∷ 69 ∷ 114 ∷ 114 ∷ 67 ∷ 111 ∷ 100 ∷ 101 ∷ 58 ∷ []

-- "orderlinkedid is duplicate"
abbrev pub duplicate_text : Text
duplicate_text =
    111 ∷ 114 ∷ 100 ∷ 101 ∷ 114 ∷ 108 ∷ 105 ∷ 110 ∷ 107 ∷ 101 ∷ 100 ∷ 105 ∷ 100 ∷ 32 ∷ 105 ∷ 115
    ∷ 32 ∷ 100 ∷ 117 ∷ 112 ∷ 108 ∷ 105 ∷ 99 ∷ 97 ∷ 116 ∷ 101 ∷ []

-- "timeout"
abbrev pub timeout_text : Text
timeout_text = 116 ∷ 105 ∷ 109 ∷ 101 ∷ 111 ∷ 117 ∷ 116 ∷ []

-- "connection"
abbrev pub connection_text : Text
connection_text = 99 ∷ 111 ∷ 110 ∷ 110 ∷ 101 ∷ 99 ∷ 116 ∷ 105 ∷ 111 ∷ 110 ∷ []

-- "temporarily unavailable"
abbrev pub unavailable_text : Text
unavailable_text =
    116 ∷ 101 ∷ 109 ∷ 112 ∷ 111 ∷ 114 ∷ 97 ∷ 114 ∷ 105 ∷ 108 ∷ 121 ∷ 32 ∷ 117 ∷ 110 ∷ 97 ∷ 118 ∷ 97
    ∷ 105 ∷ 108 ∷ 97 ∷ 98 ∷ 108 ∷ 101 ∷ []

-- "readtimeout"
abbrev pub readtimeout_text : Text
readtimeout_text = 114 ∷ 101 ∷ 97 ∷ 100 ∷ 116 ∷ 105 ∷ 109 ∷ 101 ∷ 111 ∷ 117 ∷ 116 ∷ []

-- "safety_cap_rate_limit"
abbrev pub rate_limit_text : Text
rate_limit_text =
    115 ∷ 97 ∷ 102 ∷ 101 ∷ 116 ∷ 121 ∷ 95 ∷ 99 ∷ 97 ∷ 112 ∷ 95 ∷ 114 ∷ 97 ∷ 116 ∷ 101 ∷ 95 ∷ 108
    ∷ 105 ∷ 109 ∷ 105 ∷ 116 ∷ []

-- `ORDER_QTY_TRUNCATED_TO_ZERO`, `INSUFFICIENT_BALANCE` and `ORDER_LINK_ID_DUPLICATE`
abbrev pub order_qty_truncated_to_zero : ℕ
order_qty_truncated_to_zero = 110017

abbrev pub insufficient_balance_code : ℕ
insufficient_balance_code = 110007

abbrev pub order_link_id_duplicate : ℕ
order_link_id_duplicate = 110072

abbrev is_digit : ℕ → Bool
is_digit c = leb 48 c && leb c 57

-- `\s`
abbrev is_space : ℕ → Bool
is_space c = c == 32 || (leb 9 c && leb c 13) || (leb 28 c && leb c 31)

-- The number of the digits at the front, after `acc`, and what comes behind them.
unfoldable pub read_digits : ℕ → Text → ℕ × Text
read_digits acc [] = (acc, [])
read_digits acc (c ∷ cs) =
    let rest = read_digits (acc * 10 + (c - 48)) cs in if is_digit c then rest else (acc, c ∷ cs)

-- `(\d+)` and a closing character
-- The closing character after a number
abbrev first_is : (closing n : ℕ) → Text → Option ℕ
first_is closing n [] = none
first_is closing n (c ∷ cs) = if c == closing then some n else none

unfoldable pub closed_number : (closing : ℕ) → Text → Option ℕ
closed_number closing [] = none
closed_number closing (c ∷ cs) =
    let (n, rest) = read_digits 0 (c ∷ cs) in if is_digit c then first_is closing n rest else none

unfoldable pub skip_spaces : Text → Text
skip_spaces [] = []
skip_spaces (c ∷ cs) = let rest = skip_spaces cs in if is_space c then rest else c ∷ cs

-- What follows a prefix.
unfoldable pub after_prefix : Text → Text → Option Text
after_prefix [] text = some text
after_prefix (p ∷ ps) [] = none
after_prefix (p ∷ ps) (c ∷ cs) = let rest = after_prefix ps cs in if p == c then rest else none

abbrev in_parentheses : Option Text → Option ℕ
in_parentheses none = none
in_parentheses (some rest) = closed_number 41 (skip_spaces rest)

-- `[NNNNN]` or `(ErrCode: NNNNN)` at the front
unfoldable pub code_here : Text → Option ℕ
code_here [] = none
code_here (c ∷ cs) =
    if c == 91 then closed_number 93 cs else in_parentheses (after_prefix errcode_text (c ∷ cs))

-- `_ERR_CODE_RE.search(error)`: the first place where the pattern matches
unfoldable pub find_code : Text → Option ℕ
find_code [] = none
find_code (c ∷ cs) =
    let rest = find_code cs in elim (code_here (c ∷ cs)) [ some n ↦ some n | none ↦ rest ]

-- `error.lower()`
unfoldable pub lower : Text → Text
lower [] = []
lower (c ∷ cs) = let rest = lower cs in (if leb 65 c && leb c 90 then c + 32 else c) ∷ rest

abbrev is_prefix : Text → Text → Bool
is_prefix p text = elim (after_prefix p text) [ none ↦ false | some rest ↦ true ]

-- `token in text`
unfoldable pub within : Text → Text → Bool
within token [] = is_prefix token []
within token (c ∷ cs) = let rest = within token cs in is_prefix token (c ∷ cs) || rest

abbrev pub has_code : ℕ → Option ℕ → Bool
has_code code none = false
has_code code (some n) = n == code

unfoldable pub is_truncate_error : Text → Bool
is_truncate_error error = has_code order_qty_truncated_to_zero (find_code error)

unfoldable pub is_insufficient_balance : Text → Bool
is_insufficient_balance error = has_code insufficient_balance_code (find_code error)

unfoldable pub is_network_error : Text → Bool
is_network_error error =
    let lowered = lower error in
    within timeout_text lowered
    || within connection_text lowered
    || within unavailable_text lowered
    || within readtimeout_text lowered

unfoldable pub is_duplicate_link_error : Text → Bool
is_duplicate_link_error error =
    within duplicate_text (lower error) || has_code order_link_id_duplicate (find_code error)

-- `AUTH_ERROR_CODES`
unfoldable pub is_auth_error : Text → Bool
is_auth_error error =
    let code = find_code error in
    has_code 10003 code || has_code 10004 code || has_code 10005 code || has_code 33004 code

pub data Category : Type 0 where
  rate_limit auth insufficient_balance truncate duplicate_link network other : Category

unfoldable pub classify_error : Text → Category
classify_error error =
    if same_text error rate_limit_text
    then Category.rate_limit
    else if is_auth_error error
    then Category.auth
    else if is_insufficient_balance error
    then Category.insufficient_balance
    else if is_truncate_error error
    then Category.truncate
    else if is_duplicate_link_error error
    then Category.duplicate_link
    else if is_network_error error
    then Category.network
    else Category.other

-- `_CATEGORY_TO_REST_CODE.get(category, "other")`
abbrev pub rest_code : Category → Category
rest_code Category.rate_limit = Category.other
rest_code c = c
