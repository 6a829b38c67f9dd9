-- ===== src/Memory/Transfer.antt =====
-- The list of the memory's keys, and its export and import for storage.
pub mod Safe
use Prim.Native.Nat.{Ordering}
use Prim.Native.String
use browser.Prelude.{
  ℕ, ◌+◌, String, ◌⊎◌, inl, inr, Bool, true, false, not, ◌&&◌, ◌||◌, Option, none, some, List, [],
  ◌∷◌, ◌==◌, if◌then◌else◌,
}
use browser.Prelude.Int.{ℤ, pos}
use browser.Text.{strip}
use browser.Value.{Value, bool, int, dict, Fields, end, field, get}
use browser.Sensitivity.{is_sensitive_key}
use browser.Memory.Keys.{SetError}
use browser.Assoc.Sort.{sort}
use browser.Memory.{Entry, Memory, with_prefix, memory_set}

pub record Item : Type 0 where
  pub key : String
  pub bytes : ℕ
  pub updated_at : ℕ
  pub sensitive : Bool

-- b < a
abbrev is_behind : Item → Item → Bool
is_behind a b = elim (String.compare a.key b.key) [ Ordering.gt ↦ true | _ ↦ false ]

module _ {F : Type 0} where
  unfoldable pub items_of : Memory F → List Item
  items_of [] = []
  items_of ((k, e) ∷ mem) =
      record { key = k; bytes = e.bytes; updated_at = e.updated_at; sensitive = e.sensitive }
      ∷ items_of mem

  unfoldable pub memory_list : String → Memory F → List Item
  memory_list prefix mem =
      if strip prefix == ""
      then sort is_behind (items_of mem)
      else sort is_behind (items_of (with_prefix (strip prefix) mem))

  -- The entry as a dict, under the keys of the file.
  abbrev pub entry_dict : Entry F → Bool → Fields F
  entry_dict e sensitive = field "value" e.value (
      field "bytes" (int (pos e.bytes)) (
        field "createdAt" (int (pos e.created_at)) (
          field "updatedAt" (int (pos e.updated_at))
            (if sensitive then field "sensitive" (bool true) end else end))))

  unfoldable pub export_all : Bool → Memory F → List (String × Value F)
  export_all allow_sensitive [] = []
  export_all allow_sensitive ((k, e) ∷ mem) =
      let rest = export_all allow_sensitive mem in
      let sensitive = e.sensitive || is_sensitive_key k in
      if strip k == ""
      then rest
      else if sensitive && not allow_sensitive
      then rest
      else (k, dict (entry_dict e sensitive)) ∷ rest

  unfoldable pub memory_export_entries : String → Bool → Memory F → List (String × Value F)
  memory_export_entries prefix allow_sensitive mem =
      if strip prefix == ""
      then export_all allow_sensitive mem
      else export_all allow_sensitive (with_prefix (strip prefix) mem)

  -- isinstance(entry, dict) and entry.get("sensitive") is True
  unfoldable pub is_marked : Value F → Bool
  is_marked (dict d) = elim (get "sensitive" d) [ none ↦ false | some v ↦ is_true v ]
    where
      is_true : Value F → Bool
      is_true (bool b) = b
      is_true _ = false
  is_marked _ = false

  unfoldable pub value_of : Value F → Option (Value F)
  value_of (dict d) = get "value" d
  value_of _ = none

  abbrev stored : SetError ⊎ (Memory F × Entry F) → Option (Memory F)
  stored (inl error) = none
  stored (inr (mem, e)) = some mem

  -- One entry of an import: `none` where it is skipped.
  unfoldable pub import_entry :
      (Value F → Option ℕ) → ℕ → Bool → ℤ → String → Value F → Memory F → Option (Memory F)
  import_entry size now allow_sensitive max_keys k entry mem =
      if strip k == ""
      then none
      else if (is_marked entry || is_sensitive_key k) && not allow_sensitive
      then none
      else elim (value_of entry) [
        | none ↦ none
        | some v ↦ stored (memory_set size now k v (pos 500000) max_keys mem)
      ]

  -- The clock is read anew for each entry: the readings are numbered by those that were made. The
  -- memory, and how many entries were loaded and skipped.
  unfoldable pub import_all :
      (Value F → Option ℕ)
      → (ℕ → ℕ)
      → Bool
      → ℤ
      → List (String × Value F)
      → Memory F × (ℕ × ℕ)
      → Memory F × (ℕ × ℕ)
  import_all size clock allow_sensitive max_keys [] acc = acc
  import_all size clock allow_sensitive max_keys ((k, entry) ∷ entries) (mem, (loaded, skipped)) =
      import_all size clock allow_sensitive max_keys entries
        (elim (import_entry size (clock (loaded + skipped)) allow_sensitive max_keys k entry mem) [
          | none ↦ (mem, (loaded, skipped + 1))
          | some mem' ↦ (mem', (loaded + 1, skipped))
        ])

  unfoldable pub memory_import_entries :
      (Value F → Option ℕ)
      → (ℕ → ℕ)
      → List (String × Value F)
      → Bool
      → Bool
      → ℤ
      → Memory F
      → Memory F × (ℕ × ℕ)
  memory_import_entries size clock entries allow_sensitive replace max_keys mem =
      import_all size clock allow_sensitive max_keys entries ((if replace then [] else mem), (0, 0))
