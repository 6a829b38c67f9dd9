-- ===== src/Tests/Memory.antt =====
-- Runs of the agent memory.
use browser.Prelude.{
  ℕ, ◌≤◌, String, ◌≡◌, refl, inl, inr, Bool, true, false, Option, none, some, [], ◌∷◌, map, arith,
  length, All,
}
use browser.Prelude.Int.{pos}
use browser.Text
use browser.Text.{strip}
use browser.Value.{Value, str, get}
use browser.Sensitivity.{is_sensitive_key}
use browser.Telemetry.{clamp_ℤ}
use browser.Assoc.{lookup, insert, erase}
use browser.Assoc.Laws.{Distinct}
use browser.Assoc.Sort.{insort, sort}
use browser.Assoc.Bulk.{pop_all}
use browser.Memory.{
  Entry, Memory, evict, new_entry, memory_set, memory_get, memory_delete, with_prefix, memory_clear,
}
use browser.Memory.Keys.{invalid_key, are_key_chars, check_key}
use browser.Memory.Bounds.{IsBounded, memory_set-IsBounded}
use browser.Memory.Kept.{memory_set-memory_get}
use browser.Memory.Transfer.{
  items_of, memory_list, export_all, memory_export_entries, is_marked, value_of, import_entry,
  import_all, memory_import_entries,
}
use browser.Memory.Transfer.Safe.{IsOpen, memory_import_entries-IsOpen}

-- Opens what the runs below compute with.
runs : Unit {0}
unfolding Text.length Text.strip Text.lower Text.contains get is_sensitive_key clamp_ℤ lookup insert
    erase insort sort pop_all are_key_chars check_key evict memory_set memory_get memory_delete
    with_prefix memory_clear items_of memory_list export_all memory_export_entries is_marked
    value_of import_entry import_all memory_import_entries
runs = tt

-- Every value is a text of ten bytes.
abbrev ten_bytes : Value ℕ → Option ℕ
ten_bytes v = some 10

abbrev entry : String → ℕ → Bool → Entry ℕ
entry k now sensitive = record {
  key = k;
  value = str "v";
  bytes = 10;
  sensitive = sensitive;
  created_at = now;
  updated_at = now;
}

abbrev two : Memory ℕ
two = ("b.newer", entry "b.newer" 7 false) ∷ ("a.older", entry "a.older" 5 false) ∷ []

abbrev with_token : Memory ℕ
with_token = ("api_token", entry "api_token" 3 true) ∷ two

set_run :
    memory_set ten_bytes 9 " c.new " (str "v") (pos 20000) (pos 2) two
    ≡ inr (
      ("b.newer", entry "b.newer" 7 false) ∷ ("c.new", entry "c.new" 9 false) ∷ [],
      entry "c.new" 9 false,
    )
unfolding runs
set_run = refl

refused_run : memory_set ten_bytes 9 "a b" (str "v") (pos 20000) (pos 2) two ≡ inl invalid_key
unfolding runs
refused_run = refl

delete_run : memory_delete "a.older" two ≡ (("b.newer", entry "b.newer" 7 false) ∷ [], true)
unfolding runs
delete_run = refl

clear_run : memory_clear "a." two ≡ (("b.newer", entry "b.newer" 7 false) ∷ [], 1)
unfolding runs
clear_run = refl

list_run : map (λ item. item.key) (memory_list "" two) ≡ "a.older" ∷ "b.newer" ∷ []
unfolding runs
list_run = refl

export_run : map (λ p. p.0) (memory_export_entries "" false with_token) ≡ "b.newer" ∷ "a.older" ∷ []
unfolding runs
export_run = refl

import_run :
    (memory_import_entries ten_bytes
      (λ n. n)
      (memory_export_entries "" true with_token)
      false
      true
      (pos 200)
      []).1
    ≡ (2, 1)
unfolding runs
import_run = refl

two-Distinct : Distinct two
unfolding runs
two-Distinct = (refl, (refl, tt))

memory_set-IsBounded_example :
    IsBounded
      (pos 20000)
      (pos 2)
      (memory_set ten_bytes 9 " c.new " (str "v") (pos 20000) (pos 2) two)
memory_set-IsBounded_example =
    memory_set-IsBounded ten_bytes 9 " c.new " (str "v") (pos 20000) (pos 2) two two-Distinct

c_new-accepted : check_key (strip " c.new ") ≡ none
unfolding runs
c_new-accepted = refl

two-few : length two ≤ clamp_ℤ 1 2000 (pos 2)
unfolding runs
two-few = omega arith

ten-few : 10 ≤ clamp_ℤ 100 500000 (pos 20000)
unfolding runs
ten-few = omega arith

memory_set-memory_get_example :
    (mem : Memory ℕ) × ((memory_set ten_bytes 9 " c.new " (str "v") (pos 20000) (pos 2) two
        ≡ inr (mem, new_entry 9 (strip " c.new ") (str "v") 10 two))
      × (memory_get " c.new " mem ≡ some (new_entry 9 (strip " c.new ") (str "v") 10 two)))
memory_set-memory_get_example =
    memory_set-memory_get ten_bytes 9 10 " c.new " (str "v") (pos 20000) (pos 2) two c_new-accepted
      refl ten-few (omega arith, (omega arith, tt)) two-few

two-IsOpen : All (λ p. IsOpen p.0) two
unfolding runs
two-IsOpen = (refl, (refl, tt))

memory_import_entries-IsOpen_example :
    All
      (λ p. IsOpen p.0)
      (memory_import_entries ten_bytes
        (λ n. n)
        (memory_export_entries "" true with_token)
        false
        false
        (pos 200)
        two).0
memory_import_entries-IsOpen_example =
    memory_import_entries-IsOpen ten_bytes (λ n. n) (memory_export_entries "" true with_token) false
      (pos 200) two two-IsOpen
