-- ===== src/Dict.antt =====
-- Python dicts with string keys, in the order of insertion: a key that is written again keeps its
-- place.
pub mod Laws
use grid_bot_validation.Prelude.{
  Bool, true, false, Option, none, some, List, [], ◌∷◌, ◌||◌, if◌then◌else◌,
}
use grid_bot_validation.Text.{Text, same_text}

abbrev pub Dict : Type 0 → Type 0
Dict V = List (Text × V)

module _ {V : Type 0} where
  -- `d.get(key)`
  unfoldable pub get : Dict V → Text → Option V
  get [] key = none
  get (e ∷ es) key = let rest = get es key in if same_text e.0 key then some e.1 else rest

  -- `d[key] = v`
  unfoldable pub put : Dict V → Text → V → Dict V
  put [] key v = (key, v) ∷ []
  put (e ∷ es) key v =
      let rest = put es key v in if same_text e.0 key then (e.0, v) ∷ es else e ∷ rest

  -- `d.pop(key)`
  unfoldable pub pop : Dict V → Text → Dict V
  pop [] key = []
  pop (e ∷ es) key = let rest = pop es key in if same_text e.0 key then es else e ∷ rest

  -- `d.values()`
  abbrev pub values : Dict V → List V
  values [] = []
  values (e ∷ es) = e.1 ∷ values es

  -- `list(d.keys())`
  abbrev pub keys : Dict V → List Text
  keys [] = []
  keys (e ∷ es) = e.0 ∷ keys es

-- A set of strings.
-- `key in s`
unfoldable pub contains : List Text → Text → Bool
contains [] key = false
contains (k ∷ ks) key = let rest = contains ks key in same_text k key || rest

-- `s.add(key)`
unfoldable pub include : List Text → Text → List Text
include keys key = if contains keys key then keys else key ∷ keys

-- `s.discard(key)`
unfoldable pub discard : List Text → Text → List Text
discard [] key = []
discard (k ∷ ks) key = let rest = discard ks key in if same_text k key then rest else k ∷ rest
