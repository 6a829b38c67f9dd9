-- ===== src/Telemetry/Headers.antt =====
-- `_select_headers`: what is kept of the headers of a request.
pub mod Safe
use browser.Prelude.{
  String, true, not, ◌||◌, Option, none, some, List, [], ◌∷◌, ◌++◌, ltb, leb, ◌==◌, if◌then◌else◌,
  length, take,
}
use browser.Prelude.Int.{pos}
use browser.Text
use browser.Text.{strip, lower}
use browser.Value.{
  Value, bool, int, str, list, dict, Items, nil, cons, Fields, end, field, put, size,
}
use browser.Telemetry.Parts.{Around, put_entries, str_value}
use browser.Telemetry.Texts.{cut, is_sensitive_header_name, wants_value}

-- The names, and the headers whose values are kept.
pub record Preview (F : Type 0) : Type 0 where
  pub keys : List String
  pub selected : Fields F

module _ {F : Type 0} where
  unfoldable pub texts : List String → Items F
  texts [] = nil
  texts (s ∷ ss) = cons (str s) (texts ss)

module _ {F : Type 0} (around : Around F) where
  -- What stands for the value of a header that may hold a secret.
  unfoldable pub masked : String → Value F
  masked sv = dict (
      put_entries
        (("redacted", some (bool true))
          ∷ ("len", some (int (pos (Text.length sv))))
          ∷ ("sha256", (if sv == "" then none else some (str (around.sha256_hex sv))))
          ∷ [])
        end)

  unfoldable pub header_entry : String → Value F → Value F
  header_entry lk v =
      if is_sensitive_header_name lk
      then masked (cut 600 (str_value around v))
      else str (cut 180 (str_value around v))

  -- One round of the loop.
  unfoldable pub add_header : String → Value F → Preview F → Preview F
  add_header lk v p =
      let keys : List String = p.keys ++ lk ∷ [] in
      if lk == "" then p else record {
        keys = keys;
        selected =
            if ltb 48 (length keys) || (leb 24 (size p.selected) || not (wants_value lk))
            then p.selected
            else put lk (header_entry lk v) p.selected;
      }

  unfoldable pub add_headers : Fields F → Preview F → Preview F
  add_headers end p = p
  add_headers (field k v headers) p = add_headers headers (add_header (lower (strip k)) v p)

  unfoldable pub preview : Fields F → Preview F
  preview headers = add_headers headers (record { keys = []; selected = end })

  abbrev selected_entry : Fields F → Option (Value F)
  selected_entry end = none
  selected_entry (field k v fs) = some (dict (field k v fs))

  abbrev shown_preview : Preview F → Fields F
  shown_preview p =
      put_entries
        (("keys", some (list (texts (take 48 p.keys))))
          ∷ ("selected", selected_entry p.selected)
          ∷ [])
        end

  -- `none` for an empty dict, or for what is no dict
  unfoldable pub select_headers : Option (Value F) → Option (Value F)
  select_headers (some (dict (field k v headers))) =
      some (dict (shown_preview (preview (field k v headers))))
  select_headers _ = none
