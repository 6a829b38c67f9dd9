-- ===== src/Value.antt =====
-- The JSON values that tools exchange, as Python objects. A dict keeps the order of insertion.
pub mod Leaves
pub mod Keys
use browser.Prelude.{ℕ, suc, String, Bool, Option, none, some, ◌==◌, if◌then◌else◌}
use browser.Prelude.Int.{ℤ}

-- `F` stands for Python's floats.
mutual
  pub data Value (F : Type 0) : Type 0 where
    null : Value F
    bool : Bool → Value F
    int : ℤ → Value F
    float : F → Value F
    str : String → Value F
    list : Items F → Value F
    dict : Fields F → Value F

  pub data Items (F : Type 0) : Type 0 where
    nil : Items F
    cons : Value F → Items F → Items F

  pub data Fields (F : Type 0) : Type 0 where
    end : Fields F
    field : String → Value F → Fields F → Fields F

module _ {F : Type 0} where
  -- d.get(k), with `none` for a missing key
  unfoldable pub get : String → Fields F → Option (Value F)
  get k end = none
  get k (field j v fs) = if j == k then some v else get k fs

  -- d[k] = v
  unfoldable pub put : String → Value F → Fields F → Fields F
  put k v end = field k v end
  put k v (field j w fs) = if j == k then field j v fs else field j w (put k v fs)

  -- d.pop(k, None)
  unfoldable pub remove : String → Fields F → Fields F
  remove k end = end
  remove k (field j w fs) = let rest = remove k fs in if j == k then rest else field j w rest

  -- len(d), len(l)
  unfoldable pub size : Fields F → ℕ
  size end = 0
  size (field k v fs) = suc (size fs)

  unfoldable pub count : Items F → ℕ
  count nil = 0
  count (cons x xs) = suc (count xs)
