-- ===== src/Memory/Bounds.antt =====
-- The memory holds no more entries than it may, and no key twice.
use browser.Prelude.{
  ℕ, ◌+◌, ◌-◌, ◌≤◌, String, ◌≡◌, ◌⊎◌, inl, inr, false, Option, ltb, ltb→le, Bool-cases,
  Option-cases, tests, length, take, length-take, All-take,
}
use browser.Prelude.Int.{ℤ}
use browser.Text.{strip}
use browser.Value.{Value}
use browser.Telemetry.{clamp_ℤ}
use browser.Assoc.{insert}
use browser.Assoc.Laws.{Distinct, Distinct-insert}
use browser.Assoc.Sort.{sort, length-sort, All-sort, Distinct-sort}
use browser.Assoc.Bulk.{
  pop_all, Present, All-Present, length-pop_all, Distinct-pop_all, Distinct-take,
}
use browser.Memory.{Entry, Memory, is_newer, evict, new_entry, memory_set}
use browser.Memory.Keys.{SetError, check_key}

module _ {F : Type 0} where
  evict-Distinct : (n : ℕ) (mem : Memory F) → Distinct mem → Distinct (evict n mem)
  unfolding evict
  evict-Distinct n mem h = elim (Bool-cases (ltb n (length mem))) [
    | inl e ↦ rw e (Distinct-pop_all (take (length mem - n) (sort is_newer mem)) mem h)
    | inr e ↦ rw e h
  ]

  length-evict : (n : ℕ) (mem : Memory F) → Distinct mem → length (evict n mem) ≤ n
  unfolding evict
  length-evict n mem h = elim (Bool-cases (ltb n (length mem))) [
    | inl e ↦ rw e (
        grind
          (tests, out, length-take (length mem - n) (sort is_newer mem), length-sort is_newer mem))
    | inr e ↦ rw e (grind tests)
  ]
    where
      oldest : Memory F
      oldest = take (length mem - n) (sort is_newer mem)

      out : length (pop_all oldest mem) + length oldest ≡ length mem
      out =
          length-pop_all oldest mem
            (Distinct-take (length mem - n) (sort is_newer mem) (Distinct-sort is_newer mem h)) h
            (All-take (λ p. Present mem p.0) (length mem - n) (sort is_newer mem)
              (All-sort is_newer (λ p. Present mem p.0) mem (All-Present mem)))

  -- What a call that is not refused leaves: a bounded memory without a key that stands twice.
  abbrev pub IsBounded : ℤ → ℤ → SetError ⊎ (Memory F × Entry F) → Type 0
  IsBounded max_bytes max_keys (inl error) = Unit
  IsBounded max_bytes max_keys (inr (mem, e)) =
      (length mem ≤ clamp_ℤ 1 2000 max_keys)
      × ((e.bytes ≤ clamp_ℤ 100 500000 max_bytes) × Distinct mem)

  -- Whatever the memory held before, as long as no key stood twice: after a value is set it holds no
  -- more entries than max_keys, clamped to 1..2000, no key stands twice, and the value is no larger
  -- than max_bytes, clamped to 100..500000.
  pub memory_set-IsBounded :
      (size : Value F → Option ℕ) (now : ℕ) (key : String) (value : Value F)
      (max_bytes max_keys : ℤ) (mem : Memory F)
      → Distinct mem
      → IsBounded max_bytes max_keys (memory_set size now key value max_bytes max_keys mem)
  unfolding memory_set
  memory_set-IsBounded size now key value max_bytes max_keys mem h =
      elim (Option-cases (check_key (strip key))) [
        | inr (error, e) ↦ rw (e, memory_set) tt
        | inl e ↦ elim (Option-cases (size value)) [
          | inl f ↦ rw (e, f, memory_set) tt
          | inr (b, f) ↦ elim (Bool-cases (ltb (clamp_ℤ 100 500000 max_bytes) b)) [
            | inl g ↦ rw (e, f, memory_set, g) tt
            | inr g ↦ rw (e, f, memory_set, g) (bounded b g)
          ]
        ]
      ]
    where
      entry : ℕ → Entry F
      entry b = new_entry now (strip key) value b mem

      set : ℕ → Memory F
      set b = insert (strip key) (entry b) mem

      bounded :
          (b : ℕ)
          → ltb (clamp_ℤ 100 500000 max_bytes) b ≡ false
          → IsBounded max_bytes max_keys (inr (evict (clamp_ℤ 1 2000 max_keys) (set b), entry b))
      bounded b g = (
        length-evict (clamp_ℤ 1 2000 max_keys) (set b)
            (Distinct-insert (strip key) (entry b) mem h),
        (
          ltb→le _ _ g,
          evict-Distinct (clamp_ℤ 1 2000 max_keys) (set b)
              (Distinct-insert (strip key) (entry b) mem h),
        ),
      )
