-- ===== src/Dict/Laws.antt =====
-- Laws of dicts and of sets of strings.
use grid_bot_validation.Prelude.{
  true, false, some, List, [], ◌∷◌, ◌≡◌, ◌≢◌, refl, sym, ap, subst, none, ◌∙◌, arith, Bool-cases,
  inl, inr,
}
use grid_bot_validation.Text.{Text, same_text, same_text-to, same_text-of, same_text-cases}
use grid_bot_validation.Dict.{Dict, get, put, pop, contains, include, discard}

-- Texts that are not the same are different.
pub same_text_ne : (a b : Text) → same_text a b ≡ false → a ≢ b
same_text_ne a b h same = cc (h, ap (same_text a) same, same_text-of a)

-- Different texts are not the same.
pub same_text-ne : (a b : Text) → a ≢ b → same_text a b ≡ false
same_text-ne a b h = elim (same_text-cases a b) [
  | inl same ↦ absurd (h same)
  | inr differs ↦ differs
]

module _ {V : Type 0} where
  pub get-put_self : (d : Dict V) (key : Text) (v : V) → get (put d key v) key ≡ some v
  unfolding get put
  get-put_self [] key v = ground (arith, same_text-of key)
  get-put_self (e ∷ es) key v = elim (Bool-cases (same_text e.0 key)) [
    | inl here ↦ rw (here, here) refl
    | inr on ↦ rw (on, on) (get-put_self es key v)
  ]

  pub get-put_ne :
      (d : Dict V) (key other : Text) (v : V) → key ≢ other → get (put d key v) other ≡ get d other
  unfolding get put
  get-put_ne [] key other v h = rw (same_text-ne key other h) refl
  get-put_ne (e ∷ es) key other v h = elim (Bool-cases (same_text e.0 key)) [
    | inl here ↦
        let differs = same_text-ne e.0 other (λ q. h (sym (same_text-to e.0 key here) ∙ q)) in
        rw (here, differs) refl
    | inr on ↦ elim (Bool-cases (same_text e.0 other)) [
      | inl there ↦ rw (on, there) refl
      | inr away ↦ rw (on, away) (get-put_ne es key other v h)
    ]
  ]

  -- No key stands twice: what makes the list a dict.
  unfoldable pub IsDict : Dict V → Type 0
  IsDict [] = Unit {0}
  IsDict (e ∷ es) = (get es e.0 ≡ none) × IsDict es

  pub IsDict-put : (d : Dict V) (key : Text) (v : V) → IsDict d → IsDict (put d key v)
  unfolding IsDict get put
  IsDict-put [] key v h = (refl, tt)
  IsDict-put (e ∷ es) key v h = elim (same_text-cases e.0 key) [
    | inl here ↦ rw (here, same_text-of key) (subst (λ k. get es k ≡ none) here h.0, h.1)
    | inr on ↦ rw on (
      get-put_ne es key e.0 v (λ q. same_text_ne e.0 key on (sym q)) ∙ h.0,
      IsDict-put es key v h.1,
    )
  ]

  pub get-pop_self : (d : Dict V) (key : Text) → IsDict d → get (pop d key) key ≡ none
  unfolding IsDict get pop
  get-pop_self [] key h = refl
  get-pop_self (e ∷ es) key h = elim (same_text-cases e.0 key) [
    | inl here ↦ rw (here, same_text-of key) (subst (λ k. get es k ≡ none) here h.0)
    | inr on ↦ rw (on, on) (get-pop_self es key h.1)
  ]

  pub get-pop_ne :
      (d : Dict V) (key other : Text) → key ≢ other → get (pop d key) other ≡ get d other
  unfolding get pop
  get-pop_ne [] key other h = refl
  get-pop_ne (e ∷ es) key other h = elim (Bool-cases (same_text e.0 key)) [
    | inl here ↦
        let differs = same_text-ne e.0 other (λ q. h (sym (same_text-to e.0 key here) ∙ q)) in
        rw (here, differs) refl
    | inr on ↦ elim (Bool-cases (same_text e.0 other)) [
      | inl there ↦ rw (on, there) refl
      | inr away ↦ rw (on, away) (get-pop_ne es key other h)
    ]
  ]

  pub IsDict-pop : (d : Dict V) (key : Text) → IsDict d → IsDict (pop d key)
  unfolding IsDict get pop
  IsDict-pop [] key h = tt
  IsDict-pop (e ∷ es) key h = elim (same_text-cases e.0 key) [
    | inl here ↦ rw (here, same_text-of key) h.1
    | inr on ↦
        rw on (
          get-pop_ne es key e.0 (λ q. same_text_ne e.0 key on (sym q)) ∙ h.0,
          IsDict-pop es key h.1,
        )
  ]

-- What a set contains after a change.
pub contains-include_self : (keys : List Text) (key : Text) → contains (include keys key) key ≡ true
unfolding contains include
contains-include_self keys key = ground (arith, same_text-of key)

pub contains-include_ne :
    (keys : List Text) (key other : Text)
    → same_text key other ≡ false
    → contains (include keys key) other ≡ contains keys other
unfolding contains include
contains-include_ne keys key other h = ground arith

pub contains-discard_self :
    (keys : List Text) (key : Text) → contains (discard keys key) key ≡ false
unfolding contains discard
contains-discard_self [] key = refl
contains-discard_self (k ∷ ks) key = ground (arith, contains-discard_self ks key)

pub contains-discard_ne :
    (keys : List Text) (key other : Text)
    → same_text key other ≡ false
    → contains (discard keys key) other ≡ contains keys other
unfolding contains discard
contains-discard_ne [] key other h = refl
contains-discard_ne (k ∷ ks) key other h = elim (same_text-cases k key) [
  | inl here ↦ rw (here, same_text-of key, h) (contains-discard_ne ks key other h)
  | inr on ↦ rw (on) (ground (arith, contains-discard_ne ks key other h))
]
