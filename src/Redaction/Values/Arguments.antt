-- ===== src/Redaction/Values/Arguments.antt =====
-- No value of a tool call's arguments that stands in a secret slot is logged.
use browser.Prelude.{
  String, ◌≡◌, refl, ap, inl, inr, true, false, Option, some, arith, ◌==◌, Bool-cases,
}
use browser.Value.{
  Value, null, bool, int, float, str, list, dict, Items, nil, cons, Fields, end, field,
}
use browser.Value.Leaves.{Leaves, LeavesItems, LeavesFields, is_leaf, Leaves-leaf}
use browser.Text.{lower}
use browser.Url.{UrlLib}
use browser.Redaction.Slots.{
  is_typed_text, is_fetch_body, is_fetch_headers, is_form_fill, is_cookie_value, is_totp_secret,
  is_storage_value, is_storage_items,
}
use browser.Redaction.Url.{is_sensitive_name}
use browser.Redaction.Values.{
  redacted_summary, redact_rules, redact_leaf, redact_any, redact_any_items, redact_any_fields,
  redact_tool_arguments, lower_key, is_dict,
}
use browser.Redaction.Values.Laws.{LeafIsSafe, rules-LeafIsSafe}

module _ {F : Type 0} where
  redacted_summary-is_leaf : (v : Value F) → is_leaf (redacted_summary v) ≡ true
  unfolding redacted_summary
  redacted_summary-is_leaf (str s) = refl
  redacted_summary-is_leaf (list xs) = refl
  redacted_summary-is_leaf (dict fs) = refl
  redacted_summary-is_leaf _ = refl

  rules-is_leaf :
      (tool lk : String) (v : Value F) → is_leaf v ≡ true → is_leaf (redact_rules tool lk v) ≡ true
  unfolding redact_rules
  rules-is_leaf tool lk v h = ground (arith, redacted_summary-is_leaf v)

  is_dict-leaf : (v : Value F) → is_leaf v ≡ true → is_dict v ≡ false
  is_dict-leaf (list xs) h = refl
  is_dict-leaf (dict fs) h = cc
  is_dict-leaf _ h = refl

  rules-Leaves :
      (tool : String) (key : Option String) (v : Value F)
      → is_leaf v ≡ true
      → Leaves (LeafIsSafe tool) key (redact_rules tool (lower_key key) v)
  rules-Leaves tool key v h =
      Leaves-leaf (LeafIsSafe tool) key _ (rules-is_leaf tool (lower_key key) v h)
        (rules-LeafIsSafe tool key v (is_dict-leaf v h) _ refl)

module _ {F : Type 0} (u : UrlLib) where
  leaf-Leaves :
      (tool : String) (key : Option String) (v : Value F)
      → is_leaf v ≡ true
      → Leaves (LeafIsSafe tool) key (redact_leaf u tool key v)
  unfolding redact_leaf Leaves
  leaf-Leaves tool key (str s) h = elim (Bool-cases (lower_key key == "url")) [
    | inl e ↦ rw e (λ _ n. cc)
    | inr e ↦ rw e (rules-Leaves tool key (str s) h)
  ]
  leaf-Leaves tool key (list xs) h = cc
  leaf-Leaves tool key v h = rules-Leaves tool key v h

  mutual
    unfolding redact_any Leaves

    any-Leaves :
        (tool : String) (key : Option String) (v : Value F)
        → Leaves (LeafIsSafe tool) key (redact_any u tool key v)
    any-Leaves tool key (dict fs) = fields-Leaves tool fs
    any-Leaves tool key (list xs) = items-Leaves tool key xs
    any-Leaves tool key null = leaf-Leaves tool key null refl
    any-Leaves tool key (bool b) = leaf-Leaves tool key (bool b) refl
    any-Leaves tool key (int n) = leaf-Leaves tool key (int n) refl
    any-Leaves tool key (float x) = leaf-Leaves tool key (float x) refl
    any-Leaves tool key (str s) = leaf-Leaves tool key (str s) refl

    items-Leaves :
        (tool : String) (key : Option String) (xs : Items F)
        → LeavesItems (LeafIsSafe tool) key (redact_any_items u tool key xs)
    items-Leaves tool key nil = tt
    items-Leaves tool key (cons x xs) = (any-Leaves tool key x, items-Leaves tool key xs)

    fields-Leaves :
        (tool : String) (fs : Fields F)
        → LeavesFields (LeafIsSafe tool) (redact_any_fields u tool fs)
    fields-Leaves tool end = tt
    fields-Leaves tool (field k v fs) = (any-Leaves tool (some k) v, fields-Leaves tool fs)

module _ {F : Type 0} where
  -- The fields hold texts, under keys that are neither "url" nor in the set of sensitive names.
  abbrev pub PlainTexts : Fields F → Type 0
  PlainTexts end = Unit
  PlainTexts (field k (str s) fs) =
      ((lower k == "url") ≡ false) × (is_sensitive_name (lower k) ≡ false) × PlainTexts fs
  PlainTexts (field k v fs) = ⊥

  form_text :
      (u : UrlLib) (k s : String)
      → (lower k == "url") ≡ false
      → is_sensitive_name (lower k) ≡ false
      → redact_leaf {F = F} u "form" (some k) (str s) ≡ str s
  unfolding redact_leaf redact_rules is_typed_text is_fetch_body is_fetch_headers is_form_fill
      is_cookie_value is_totp_secret is_storage_value is_storage_items
  form_text u k s h n = rw (h, n) (ground arith)

  -- What a form is filled with is logged in the clear, unless its key is a sensitive name: the rule
  -- for `fill` waits for a dict, and dicts are taken apart before the rules are tried.
  pub form_fill_logged :
      (u : UrlLib) (fs : Fields F)
      → PlainTexts fs
      → redact_tool_arguments u "form" (dict (field "fill" (dict fs) end))
        ≡ dict (field "fill" (dict fs) end)
  unfolding redact_tool_arguments redact_any
  form_fill_logged u fs h = ap (λ gs. dict (field "fill" (dict gs) end)) (kept fs h)
    where
      kept : (gs : Fields F) → PlainTexts gs → redact_any_fields u "form" gs ≡ gs
      kept end p = refl
      kept (field k (str s) gs) p = cc (form_text u k s p.0 p.1, kept gs p.2)
      kept (field k v gs) p = elim p [ ]
