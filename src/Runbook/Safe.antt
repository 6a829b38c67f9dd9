-- ===== src/Runbook/Safe.antt =====
-- What no sanitized step shows.
use text.Mathlib.TextPositions.{starts_with-append}
use browser.Prelude.{
  ℕ, String, ◌≡◌, refl, ◌⊎◌, inl, inr, Bool, true, false, ◌&&◌, ◌||◌, Option, none, some, arith,
  ◌==◌, if◌then◌else◌, Bool-cases,
}
use browser.Text.{lower, redacted_label}
use browser.Placeholder.{is_placeholder}
use browser.Value.{
  Value, null, bool, int, float, str, list, dict, Items, nil, cons, Fields, end, field,
}
use browser.Value.Leaves.{Leaves, LeavesItems, LeavesFields, is_leaf, Leaves-leaf}
use browser.Url.{UrlLib}
use browser.Redaction.Slots.{
  is_typed_text, is_fetch_body, is_cookie_value, is_totp_secret, is_storage_value,
}
use browser.Redaction.Url.{redact_url}
use browser.Redaction.Values.{is_dict, lower_key}
use browser.Redaction.Values.Laws.{IsRedacted}
use browser.Runbook.{
  is_sensitive_name, redact_value, is_placeholder_value, redact_literal, sanitize_rules,
  sanitize_leaf, is_sensitive_memory_set, sanitize_any, sanitize_items, sanitize_fields,
}

abbrev pub is_secret_slot : String → String → Bool
is_secret_slot tool lk =
    is_typed_text tool lk
    || (is_fetch_body tool lk
        || (is_cookie_value tool lk
            || (is_totp_secret tool lk || (is_storage_value tool lk || is_sensitive_name lk))))

module _ {F : Type 0} where
  redact_value-IsRedacted : (v : Value F) → IsRedacted (redact_value v)
  unfolding redact_value redacted_label
  redact_value-IsRedacted (str s) = starts_with-append "<redacted" _
  redact_value-IsRedacted (list xs) = starts_with-append "<redacted" _
  redact_value-IsRedacted (dict fs) = starts_with-append "<redacted" _
  redact_value-IsRedacted _ = refl

  redact_value-is_leaf : (v : Value F) → is_leaf (redact_value v) ≡ true
  unfolding redact_value
  redact_value-is_leaf (str s) = refl
  redact_value-is_leaf (list xs) = refl
  redact_value-is_leaf (dict fs) = refl
  redact_value-is_leaf _ = refl

  -- A placeholder, or a note that something was redacted.
  abbrev pub IsHidden : Value F → Type 0
  IsHidden v = (is_placeholder_value v ≡ true) ⊎ IsRedacted v

  -- A leaf in a secret slot of its tool is hidden; URLs go by the rules for URLs.
  abbrev pub LeafIsSafe : String → Option String → Value F → Type 0
  LeafIsSafe tool key v =
      is_secret_slot tool (lower_key key) ≡ true → ((lower_key key == "url") ≡ false) → IsHidden v

  rules-secret :
      (tool lk : String) (v : Value F)
      → is_dict v ≡ false
      → is_secret_slot tool lk ≡ true
      → (sanitize_rules tool lk v).0 ≡ redact_value v
  unfolding sanitize_rules
  rules-secret tool lk v d h = ground arith

  rules-is_leaf :
      (tool lk : String) (v : Value F)
      → is_leaf v ≡ true
      → is_leaf (sanitize_rules tool lk v).0 ≡ true
  unfolding sanitize_rules
  rules-is_leaf tool lk (list xs) h = cc
  rules-is_leaf tool lk (dict fs) h = cc
  rules-is_leaf tool lk v h = ground (arith, redact_value-is_leaf v)

  is_dict-leaf : (v : Value F) → is_leaf v ≡ true → is_dict v ≡ false
  is_dict-leaf (list xs) h = refl
  is_dict-leaf (dict fs) h = cc
  is_dict-leaf _ h = refl

  rules-Leaves :
      (tool : String) (key : Option String) (v : Value F)
      → is_leaf v ≡ true
      → Leaves (LeafIsSafe tool) key (sanitize_rules tool (lower_key key) v).0
  rules-Leaves tool key v h =
      Leaves-leaf (LeafIsSafe tool) key _ (rules-is_leaf tool (lower_key key) v h) (λ s _.
        inr (
          rw (rules-secret tool (lower_key key) v (is_dict-leaf v h) s)
            (redact_value-IsRedacted v)))

  literal-IsHidden : (v : Value F) → IsHidden (redact_literal v).0
  unfolding redact_literal
  literal-IsHidden v = elim (Bool-cases (is_placeholder_value v)) [
    | inl e ↦ rw e (inl e)
    | inr e ↦ rw e (inr (redact_value-IsRedacted v))
  ]

  placeholder-is_leaf : (v : Value F) → is_placeholder_value v ≡ true → is_leaf v ≡ true
  unfolding is_placeholder_value
  placeholder-is_leaf (list xs) h = h
  placeholder-is_leaf (dict fs) h = h
  placeholder-is_leaf v h = refl

  literal-is_leaf : (v : Value F) → is_leaf (redact_literal v).0 ≡ true
  unfolding redact_literal
  literal-is_leaf v = elim (Bool-cases (is_placeholder_value v)) [
    | inl e ↦ rw e (placeholder-is_leaf v e)
    | inr e ↦ rw e (redact_value-is_leaf v)
  ]

  literal-Leaves :
      (tool : String) (key : Option String) (v : Value F)
      → Leaves (LeafIsSafe tool) key (redact_literal v).0
  literal-Leaves tool key v =
      Leaves-leaf (LeafIsSafe tool) key _ (literal-is_leaf v) (λ _ _. literal-IsHidden v)

  entry-Leaves :
      (tool : String) (key : Option String) (b : Bool) (v : Value F) (inner : Value F × ℕ)
      → Leaves (LeafIsSafe tool) key inner.0
      → Leaves (LeafIsSafe tool) key (if b then redact_literal v else inner).0
  entry-Leaves tool key true v inner h = literal-Leaves tool key v
  entry-Leaves tool key false v inner h = h

  -- Each entry under "value", in whatever case, is hidden.
  abbrev pub ValueIsHidden : Fields F → Type 0
  ValueIsHidden end = Unit
  ValueIsHidden (field k v fs) = ((lower k == "value") ≡ true → IsHidden v) × ValueIsHidden fs

module _ {F : Type 0} (u : UrlLib) where
  leaf-Leaves :
      (tool : String) (key : Option String) (v : Value F)
      → is_leaf v ≡ true
      → Leaves (LeafIsSafe tool) key (sanitize_leaf u tool key v).0
  unfolding sanitize_leaf Leaves
  leaf-Leaves tool key (str s) h = elim (Bool-cases (lower_key key == "url")) [
    | inl e ↦ rw e (elim (Bool-cases (redact_url u s == s)) [
      | inl f ↦ rw f (λ _ n. cc)
      | inr f ↦ rw f (λ _ n. cc)
    ])
    | inr e ↦ rw e (elim (Bool-cases (is_placeholder s)) [
      | inl f ↦ rw f (λ _ _. inl (unfold is_placeholder_value in f))
      | inr f ↦ rw f (rules-Leaves tool key (str s) h)
    ])
  ]
  leaf-Leaves tool key (list xs) h = cc
  leaf-Leaves tool key (dict fs) h = cc
  leaf-Leaves tool key v h = rules-Leaves tool key v h

  mutual
    unfolding sanitize_any Leaves

    any-Leaves :
        (tool : String) (key : Option String) (v : Value F)
        → Leaves (LeafIsSafe tool) key (sanitize_any u tool key v).0
    any-Leaves tool key (dict fs) = fields-Leaves tool (is_sensitive_memory_set tool key fs) fs
    any-Leaves tool key (list xs) = items-Leaves tool key xs
    any-Leaves tool key null = leaf-Leaves tool key null refl
    any-Leaves tool key (bool b) = leaf-Leaves tool key (bool b) refl
    any-Leaves tool key (int n) = leaf-Leaves tool key (int n) refl
    any-Leaves tool key (float x) = leaf-Leaves tool key (float x) refl
    any-Leaves tool key (str s) = leaf-Leaves tool key (str s) refl

    items-Leaves :
        (tool : String) (key : Option String) (xs : Items F)
        → LeavesItems (LeafIsSafe tool) key (sanitize_items u tool key xs).0
    items-Leaves tool key nil = tt
    items-Leaves tool key (cons x xs) = (any-Leaves tool key x, items-Leaves tool key xs)

    fields-Leaves :
        (tool : String) (hide : Bool) (fs : Fields F)
        → LeavesFields (LeafIsSafe tool) (sanitize_fields u tool hide fs).0
    fields-Leaves tool hide end = tt
    fields-Leaves tool hide (field k v fs) = (
      entry-Leaves tool (some k) (hide && lower k == "value") v (sanitize_any u tool (some k) v)
          (any-Leaves tool (some k) v),
      fields-Leaves tool hide fs,
    )

  hide-ValueIsHidden :
      (tool : String) (fs : Fields F) → ValueIsHidden (sanitize_fields u tool true fs).0
  unfolding sanitize_any
  hide-ValueIsHidden tool end = tt
  hide-ValueIsHidden tool (field k v fs) =
      ((λ h. rw h (literal-IsHidden v)), hide-ValueIsHidden tool fs)

  -- A step that stores a browser memory under a sensitive key hides the value that it stores, even
  -- where that is a list or a dict.
  pub memory_set_hidden :
      (fs : Fields F)
      → is_sensitive_memory_set "browser" none fs ≡ true
      → (gs : Fields F) × ((sanitize_any u "browser" none (dict fs)).0 ≡ dict gs) × ValueIsHidden gs
  unfolding sanitize_any
  memory_set_hidden fs h =
      ((sanitize_fields u "browser" true fs).0, rw h, hide-ValueIsHidden "browser" fs)
