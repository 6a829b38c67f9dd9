-- ===== src/Memory.antt =====
-- session_manager.py: the agent memory, a dict of values with a bound on their size and number.
pub mod Keys
pub mod Bounds
pub mod Kept
pub mod Transfer
use browser.Prelude.{
  ℕ, ◌-◌, String, ◌⊎◌, inl, inr, Bool, true, false, Option, none, some, List, [], ◌∷◌, starts_with,
  ltb, ◌==◌, if◌then◌else◌, length, take,
}
use browser.Prelude.Int.{ℤ}
use browser.Memory.Keys.{SetError, not_serializable, too_large, check_key}
use browser.Text.{strip}
use browser.Value.{Value}
use browser.Sensitivity.{is_sensitive_key}
use browser.Telemetry.{clamp_ℤ}
use browser.Assoc.{lookup, insert, erase}
use browser.Assoc.Sort.{sort}
use browser.Assoc.Bulk.{pop_all}

pub record Entry (F : Type 0) : Type 0 where
  pub key : String
  pub value : Value F
  pub bytes : ℕ
  pub sensitive : Bool
  pub created_at : ℕ
  pub updated_at : ℕ

abbrev pub Memory : Type 0 → Type 0
Memory F = List (String × Entry F)

module _ {F : Type 0} where
  -- The entry of a was updated later than that of b.
  abbrev pub is_newer : String × Entry F → String × Entry F → Bool
  is_newer a b = ltb b.1.updated_at a.1.updated_at

  -- Takes out the oldest entries of those above the bound.
  unfoldable pub evict : ℕ → Memory F → Memory F
  evict max_keys mem =
      if ltb max_keys (length mem)
      then pop_all (take (length mem - max_keys) (sort is_newer mem)) mem
      else mem

  abbrev created_or : ℕ → Option (Entry F) → ℕ
  created_or now none = now
  created_or now (some e) = e.created_at

  abbrev pub new_entry : ℕ → String → Value F → ℕ → Memory F → Entry F
  new_entry now k value b mem = record {
    key = k;
    value = value;
    bytes = b;
    sensitive = is_sensitive_key k;
    created_at = created_or now (lookup k mem);
    updated_at = now;
  }

  -- The size of a value as JSON is that of `json.dumps`, or `none` where that raises.
  unfoldable pub memory_set :
      (Value F → Option ℕ)
      → ℕ
      → String
      → Value F
      → ℤ
      → ℤ
      → Memory F
      → SetError ⊎ (Memory F × Entry F)
  memory_set size now key value max_bytes max_keys mem = elim (check_key (strip key)) [
    | some error ↦ inl error
    | none ↦ elim (size value) [
      | none ↦ inl not_serializable
      | some b ↦
          if ltb (clamp_ℤ 100 500000 max_bytes) b
          then inl too_large
          else inr (
            evict (clamp_ℤ 1 2000 max_keys)
                (insert (strip key) (new_entry now (strip key) value b mem) mem),
            new_entry now (strip key) value b mem,
          )
    ]
  ]

  unfoldable pub memory_get : String → Memory F → Option (Entry F)
  memory_get key mem = if strip key == "" then none else lookup (strip key) mem

  unfoldable pub memory_delete : String → Memory F → Memory F × Bool
  memory_delete key mem =
      if strip key == ""
      then (mem, false)
      else (erase (strip key) mem, elim (lookup (strip key) mem) [ none ↦ false | some e ↦ true ])

  unfoldable pub with_prefix : String → Memory F → Memory F
  with_prefix prefix [] = []
  with_prefix prefix ((k, e) ∷ mem) =
      let rest = with_prefix prefix mem in if starts_with k prefix then (k, e) ∷ rest else rest

  unfoldable pub memory_clear : String → Memory F → Memory F × ℕ
  memory_clear prefix mem =
      if strip prefix == ""
      then ([], length mem)
      else (pop_all (with_prefix (strip prefix) mem) mem, length (with_prefix (strip prefix) mem))
