-- ===== src/Memory/Kept.antt =====
-- What is set can be read back.
use browser.Prelude.{
  ℕ, ◌-◌, ◌≤◌, String, ◌≡◌, refl, ◌∙◌, inl, inr, false, Option, none, some, [], ◌∷◌, ◌++◌, arith,
  ltb, ◌==◌, Bool-cases, Option-cases, tests, length, take, length-append, All, All-take,
  take-append,
}
use browser.Prelude.Int.{ℤ}
use browser.Text.{strip}
use browser.Value.{Value}
use browser.Telemetry.{clamp_ℤ}
use browser.Assoc.{lookup, insert}
use browser.Assoc.Laws.{lookup-insert_self, length-insert_old, insert-new}
use browser.Assoc.Sort.{sort, sort-last, length-sort, All-sort}
use browser.Assoc.Bulk.{lookup-pop_all}
use browser.Memory.{Entry, Memory, is_newer, evict, new_entry, memory_set, memory_get}
use browser.Memory.Keys.{check_key}

ltb_of_le : (n m : ℕ) → m ≤ n → ltb n m ≡ false
ltb_of_le n m h = grind tests

check_key_named : (k : String) → check_key k ≡ none → (k == "") ≡ false
unfolding check_key
check_key_named k h = elim (Bool-cases (k == "")) [
  | inl e ↦ absurd (ground (arith, e, h))
  | inr e ↦ e
]

module _ {F : Type 0} where
  -- No entry is from the time to come.
  abbrev pub IsPast : ℕ → Memory F → Type 0
  IsPast now mem = All (λ p. p.1.updated_at ≤ now) mem

  past_not_newer :
      (k : String) (e : Entry F) (mem : Memory F)
      → IsPast e.updated_at mem
      → All (λ p. is_newer p (k, e) ≡ false) mem
  past_not_newer k e [] h = tt
  past_not_newer k e ((j, f) ∷ mem) (h, hs) = (grind tests, past_not_newer k e mem hs)

  other_keys :
      (k : String) (mem : Memory F) → lookup k mem ≡ none → All (λ p. (p.0 == k) ≡ false) mem
  unfolding lookup
  other_keys k [] h = tt
  other_keys k ((j, e) ∷ mem) h = elim (Bool-cases (j == k)) [
    | inl f ↦ absurd (ground (arith, f, h))
    | inr f ↦ (f, other_keys k mem (rw f at h))
  ]

  -- The entry that was put last, and is as new as any, is not taken out.
  lookup-evict_new :
      (n : ℕ) (k : String) (e : Entry F) (mem : Memory F)
      → 1 ≤ n
      → lookup k mem ≡ none
      → IsPast e.updated_at mem
      → lookup k (evict n (insert k e mem)) ≡ some e
  unfolding evict
  lookup-evict_new n k e mem pos_n h past = elim (Bool-cases (ltb n (length (insert k e mem)))) [
    | inr f ↦ rw (f, evict) (lookup-insert_self k e mem)
    | inl f ↦
        rw (f, evict) (lookup-pop_all k oldest (insert k e mem) others ∙ lookup-insert_self k e mem)
  ]
    where
      oldest : Memory F
      oldest = take (length (insert k e mem) - n) (sort is_newer (insert k e mem))

      others : All (λ p. (p.0 == k) ≡ false) oldest
      others =
          rw (insert-new k e mem h, sort-last is_newer mem (k, e) (past_not_newer k e mem past))
            (rw
              (take-append (length (mem ++ (k, e) ∷ []) - n) (sort is_newer mem) ((k, e) ∷ []) few)
              (All-take (λ p. (p.0 == k) ≡ false) (length (mem ++ (k, e) ∷ []) - n)
                (sort is_newer mem)
                (All-sort is_newer (λ p. (p.0 == k) ≡ false) mem (other_keys k mem h))))
        where
          few : length (mem ++ (k, e) ∷ []) - n ≤ length (sort is_newer mem)
          few = omega (arith, length-append mem ((k, e) ∷ []), length-sort is_newer mem)

  lookup-evict :
      (n : ℕ) (k : String) (e : Entry F) (mem : Memory F)
      → 1 ≤ n
      → length mem ≤ n
      → IsPast e.updated_at mem
      → lookup k (evict n (insert k e mem)) ≡ some e
  unfolding evict
  lookup-evict n k e mem pos_n few past = elim (Option-cases (lookup k mem)) [
    | inl h ↦ lookup-evict_new n k e mem pos_n h past
    | inr (old, h) ↦
        rw (ltb_of_le n (length (insert k e mem)) (rw (length-insert_old k e old mem h) few), evict)
          (lookup-insert_self k e mem)
  ]

  -- A value whose key and size are accepted is set, and what is read under the key is then the new entry
  -- with this value, if no entry is from the time to come and the memory holds no more entries than
  -- max_keys, clamped to 1..2000.
  pub memory_set-memory_get :
      (size : Value F → Option ℕ) (now b : ℕ) (key : String) (value : Value F)
      (max_bytes max_keys : ℤ) (mem : Memory F)
      → check_key (strip key) ≡ none
      → size value ≡ some b
      → b ≤ clamp_ℤ 100 500000 max_bytes
      → IsPast now mem
      → length mem ≤ clamp_ℤ 1 2000 max_keys
      → (mem' : Memory F) × ((memory_set size now key value max_bytes max_keys mem
            ≡ inr (mem', new_entry now (strip key) value b mem))
          × (memory_get key mem' ≡ some (new_entry now (strip key) value b mem)))
  unfolding memory_set memory_get check_key clamp_ℤ
  memory_set-memory_get size now b key value max_bytes max_keys mem hk hs hb past few = (
    evict (clamp_ℤ 1 2000 max_keys)
        (insert (strip key) (new_entry now (strip key) value b mem) mem),
    (
      rw (hk, hs, memory_set, ltb_of_le _ b hb) refl,
      rw (check_key_named (strip key) hk) (
          lookup-evict (clamp_ℤ 1 2000 max_keys) (strip key) (new_entry now (strip key) value b mem)
            mem (omega arith) few past),
    ),
  )
