-- ===== src/Value/Keys.antt =====
-- Dicts have one entry for each key: laws of `get`, `put` and `remove`.
use browser.Prelude.{String, ◌≡◌, refl, none, some, arith, eq_iff, ◌==◌, if◌then◌else◌}
use browser.Value.{Value, Fields, end, field, get, put, remove}

module _ {F : Type 0} where
  -- What Python's dicts keep: no key stands twice.
  abbrev pub Distinct : Fields F → Type 0
  Distinct end = Unit
  Distinct (field k v fs) = (get k fs ≡ none) × Distinct fs

  pub put_same : (k : String) (v : Value F) (fs : Fields F) → get k fs ≡ some v → put k v fs ≡ fs
  unfolding get put
  put_same k v end h = cc
  put_same k v (field j w fs) h = ground (arith, put_same k v fs)

  pub get-put :
      (k j : String) (v : Value F) (fs : Fields F)
      → get j (put k v fs) ≡ (if k == j then some v else get j fs)
  unfolding get put
  get-put k j v end = refl
  get-put k j v (field i w fs) =
      ground (arith, eq_iff i k, eq_iff i j, eq_iff k j, get-put k j v fs)

  pub get-remove :
      (k j : String) (fs : Fields F) → get j (remove k fs) ≡ (if k == j then none else get j fs)
  unfolding get remove
  get-remove k j end = ground arith
  get-remove k j (field i w fs) =
      ground (arith, eq_iff i k, eq_iff i j, eq_iff k j, get-remove k j fs)
