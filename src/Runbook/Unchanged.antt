-- ===== src/Runbook/Unchanged.antt =====
-- What is not counted is not changed: a count of zero means that the steps are as they were.
use browser.Prelude.{
  ℕ, ◌+◌, String, ◌≡◌, refl, ap, Bool, true, false, ◌&&◌, Option, some, arith, eq_iff, ◌==◌,
  if◌then◌else◌,
}
use browser.Value.{
  Value, null, bool, int, float, str, list, dict, Items, nil, cons, Fields, end, field,
}
use browser.Value.Leaves.{is_leaf}
use browser.Text.{lower}
use browser.Url.{UrlLib}
use browser.Redaction.Url.{redact_url}
use browser.Redaction.Values.{lower_key}
use browser.Runbook.{
  redact_literal, sanitize_rules, sanitize_leaf, is_sensitive_memory_set, sanitize_any,
  sanitize_items, sanitize_fields,
}

module _ {F : Type 0} where
  literal_unchanged : (v : Value F) → (redact_literal v).1 ≡ 0 → (redact_literal v).0 ≡ v
  unfolding redact_literal
  literal_unchanged v h = ground arith

  rules_unchanged :
      (tool lk : String) (v : Value F)
      → is_leaf v ≡ true
      → (sanitize_rules tool lk v).1 ≡ 0
      → (sanitize_rules tool lk v).0 ≡ v
  unfolding sanitize_rules
  rules_unchanged tool lk (list xs) l h = cc
  rules_unchanged tool lk (dict fs) l h = cc
  rules_unchanged tool lk v l h = ground arith

  entry_unchanged :
      (b : Bool) (v : Value F) (inner : Value F × ℕ) (m : ℕ)
      → (inner.1 ≡ 0 → inner.0 ≡ v)
      → (if b then redact_literal v else inner).1 + m ≡ 0
      → ((if b then redact_literal v else inner).0 ≡ v) × (m ≡ 0)
  entry_unchanged true v inner m k h = (literal_unchanged v (omega arith), omega arith)
  entry_unchanged false v inner m k h = (k (omega arith), omega arith)

module _ {F : Type 0} (u : UrlLib) where
  leaf_unchanged :
      (tool : String) (key : Option String) (v : Value F)
      → is_leaf v ≡ true
      → (sanitize_leaf u tool key v).1 ≡ 0
      → (sanitize_leaf u tool key v).0 ≡ v
  unfolding sanitize_leaf
  leaf_unchanged tool key (str s) l h =
      ground (
        arith,
        rules_unchanged {F = F} tool (lower_key key) (str s) refl,
        eq_iff (redact_url u s) s,
      )
  leaf_unchanged tool key v l h = rules_unchanged tool (lower_key key) v l h

  mutual
    unfolding sanitize_any

    any_unchanged :
        (tool : String) (key : Option String) (v : Value F)
        → (sanitize_any u tool key v).1 ≡ 0
        → (sanitize_any u tool key v).0 ≡ v
    any_unchanged tool key (dict fs) h =
        ap dict (fields_unchanged tool (is_sensitive_memory_set tool key fs) fs h)
    any_unchanged tool key (list xs) h = ap list (items_unchanged tool key xs h)
    any_unchanged tool key null h = leaf_unchanged tool key null refl h
    any_unchanged tool key (bool b) h = leaf_unchanged tool key (bool b) refl h
    any_unchanged tool key (int n) h = leaf_unchanged tool key (int n) refl h
    any_unchanged tool key (float x) h = leaf_unchanged tool key (float x) refl h
    any_unchanged tool key (str s) h = leaf_unchanged tool key (str s) refl h

    items_unchanged :
        (tool : String) (key : Option String) (xs : Items F)
        → (sanitize_items u tool key xs).1 ≡ 0
        → (sanitize_items u tool key xs).0 ≡ xs
    items_unchanged tool key nil h = refl
    items_unchanged tool key (cons x xs) h =
        cc (any_unchanged tool key x (omega arith), items_unchanged tool key xs (omega arith))

    fields_unchanged :
        (tool : String) (hide : Bool) (fs : Fields F)
        → (sanitize_fields u tool hide fs).1 ≡ 0
        → (sanitize_fields u tool hide fs).0 ≡ fs
    fields_unchanged tool hide end h = refl
    fields_unchanged tool hide (field k v fs) h =
        let (p, q) =
          entry_unchanged (hide && lower k == "value") v (sanitize_any u tool (some k) v) _
            (any_unchanged tool (some k) v) h in
        cc (p, fields_unchanged tool hide fs q)

  -- Where the count is zero, the sanitized value is the value.
  pub sanitize_any-unchanged :
      (tool : String) (key : Option String) (v : Value F)
      → (sanitize_any u tool key v).1 ≡ 0
      → (sanitize_any u tool key v).0 ≡ v
  sanitize_any-unchanged tool key v h = any_unchanged tool key v h
