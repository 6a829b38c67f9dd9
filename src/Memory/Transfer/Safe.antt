-- ===== src/Memory/Transfer/Safe.antt =====
-- Without `allow_sensitive` no secret is exported, and none is imported.
use browser.Prelude.{
  ℕ, ◌+◌, ◌-◌, String, ◌≡◌, refl, ◌∙◌, ◌⊎◌, inl, inr, Bool, false, ◌||◌, Option, none, some, List,
  [], ◌∷◌, ltb, ◌==◌, if◌then◌else◌, Bool-cases, Option-cases, or-false, length, take, All,
}
use browser.Prelude.Int.{ℤ, pos}
use browser.Text.{strip}
use browser.Text.Strip.{strip_twice}
use browser.Value.{Value}
use browser.Sensitivity.{is_sensitive_key}
use browser.Telemetry.{clamp_ℤ}
use browser.Assoc.{insert}
use browser.Assoc.Laws.{All-insert}
use browser.Assoc.Sort.{sort}
use browser.Assoc.Bulk.{All-pop_all}
use browser.Memory.{Entry, Memory, is_newer, new_entry, evict, memory_set}
use browser.Memory.Keys.{SetError, check_key}
use browser.Memory.Transfer.{
  is_marked, stored, value_of, import_entry, import_all, memory_import_entries,
}

abbrev pub IsOpen : String → Type 0
IsOpen k = is_sensitive_key k ≡ false

is_sensitive_key-strip : (k : String) → is_sensitive_key (strip k) ≡ is_sensitive_key k
unfolding is_sensitive_key
is_sensitive_key-strip k = rw (strip_twice k) refl

module _ {F : Type 0} where
  evict-IsOpen :
      (n : ℕ) (mem : Memory F) → All (λ p. IsOpen p.0) mem → All (λ p. IsOpen p.0) (evict n mem)
  unfolding evict
  evict-IsOpen n mem h = elim (Bool-cases (ltb n (length mem))) [
    | inl e ↦ rw e (All-pop_all IsOpen (take (length mem - n) (sort is_newer mem)) mem h)
    | inr e ↦ rw e h
  ]

  abbrev HoldsOpen : SetError ⊎ (Memory F × Entry F) → Type 0
  HoldsOpen (inl error) = Unit
  HoldsOpen (inr (mem, e)) = All (λ p. IsOpen p.0) mem

  memory_set-HoldsOpen :
      (size : Value F → Option ℕ) (now : ℕ) (key : String) (value : Value F)
      (max_bytes max_keys : ℤ) (mem : Memory F)
      → IsOpen key
      → All (λ p. IsOpen p.0) mem
      → HoldsOpen (memory_set size now key value max_bytes max_keys mem)
  unfolding memory_set
  memory_set-HoldsOpen size now key value max_bytes max_keys mem k_open h =
      elim (Option-cases (check_key (strip key))) [
        | inr (error, e) ↦ rw (e, memory_set) tt
        | inl e ↦ elim (Option-cases (size value)) [
          | inl f ↦ rw (e, f, memory_set) tt
          | inr (b, f) ↦ elim (Bool-cases (ltb (clamp_ℤ 100 500000 max_bytes) b)) [
            | inl g ↦ rw (e, f, memory_set, g) tt
            | inr g ↦
                rw (e, f, memory_set, g)
                  (evict-IsOpen (clamp_ℤ 1 2000 max_keys)
                    (insert (strip key) (new_entry now (strip key) value b mem) mem)
                    (All-insert IsOpen (strip key) (new_entry now (strip key) value b mem) mem
                      (is_sensitive_key-strip key ∙ k_open) h))
          ]
        ]
      ]

  -- The memory after one entry, or the one before where the entry is skipped.
  abbrev HoldsIfLoaded : Option (Memory F) → Type 0
  HoldsIfLoaded none = Unit
  HoldsIfLoaded (some mem) = All (λ p. IsOpen p.0) mem

  import_entry-IsOpen :
      (size : Value F → Option ℕ) (now : ℕ) (max_keys : ℤ) (k : String) (entry : Value F)
      (mem : Memory F)
      → All (λ p. IsOpen p.0) mem
      → HoldsIfLoaded (import_entry size now false max_keys k entry mem)
  unfolding import_entry
  import_entry-IsOpen size now max_keys k entry mem h = elim (Bool-cases (strip k == "")) [
    | inl e ↦ rw e tt
    | inr e ↦ elim (Bool-cases (is_marked entry || is_sensitive_key k)) [
      | inl f ↦ rw (e, f) tt
      | inr f ↦ elim (Option-cases (value_of entry)) [
        | inl g ↦ rw (e, f, g) tt
        | inr (v, g) ↦
            rw (e, f, g)
              (loaded (memory_set size now k v (pos 500000) max_keys mem) (
                memory_set-HoldsOpen size now k v (pos 500000) max_keys mem
                  (or-false (is_marked entry) (is_sensitive_key k) f).1 h))
      ]
    ]
  ]
    where
      loaded : (r : SetError ⊎ (Memory F × Entry F)) → HoldsOpen r → HoldsIfLoaded (stored r)
      loaded (inl error) h = tt
      loaded (inr (mem', e)) h = h

  import_all-IsOpen :
      (size : Value F → Option ℕ) (clock : ℕ → ℕ) (max_keys : ℤ) (entries : List (String × Value F))
      (mem : Memory F) (loaded skipped : ℕ)
      → All (λ p. IsOpen p.0) mem
      → All
          (λ p. IsOpen p.0)
          (import_all size clock false max_keys entries (mem, (loaded, skipped))).0
  unfolding import_all
  import_all-IsOpen size clock max_keys [] mem loaded skipped h = h
  import_all-IsOpen size clock max_keys ((k, entry) ∷ entries) mem loaded skipped h =
      elim (Option-cases
        (import_entry size (clock (loaded + skipped)) false max_keys k entry mem)) [
          | inl e ↦
              rw (e, import_all)
                (import_all-IsOpen size clock max_keys entries mem loaded (skipped + 1) h)
          | inr (mem', e) ↦
              rw (e, import_all)
                (import_all-IsOpen size clock max_keys entries mem' (loaded + 1) skipped (
                  rw e at
                    (import_entry-IsOpen size (clock (loaded + skipped)) max_keys k entry mem h)))
        ]

  -- An import without allow_sensitive, whatever the entries are, brings no key into the memory that may
  -- name a secret: if it held none before, or is cleared first, it holds none afterwards.
  pub memory_import_entries-IsOpen :
      (size : Value F → Option ℕ) (clock : ℕ → ℕ) (entries : List (String × Value F))
      (replace : Bool) (max_keys : ℤ) (mem : Memory F)
      → All (λ p. IsOpen p.0) (if replace then [] else mem)
      → All
          (λ p. IsOpen p.0)
          (memory_import_entries size clock entries false replace max_keys mem).0
  unfolding memory_import_entries
  memory_import_entries-IsOpen size clock entries replace max_keys mem h =
      import_all-IsOpen size clock max_keys entries (if replace then [] else mem) 0 0 h
