-- ===== src/Value/Leaves.antt =====
-- A statement about every value that is no container, with the key that it stands under.
use browser.Prelude.{String, ◌≡◌, Bool, true, false, Option, some}
use browser.Value.{
  Value, null, bool, int, float, str, list, dict, Items, nil, cons, Fields, end, field,
}

module _ {F : Type 0} (P : Option String → Value F → Type 0) where
  unfoldable mutual
    pub Leaves : Option String → Value F → Type 0
    Leaves key (list xs) = LeavesItems key xs
    Leaves key (dict fs) = LeavesFields fs
    Leaves key null = P key null
    Leaves key (bool b) = P key (bool b)
    Leaves key (int n) = P key (int n)
    Leaves key (float x) = P key (float x)
    Leaves key (str s) = P key (str s)

    pub LeavesItems : Option String → Items F → Type 0
    LeavesItems key nil = Unit
    LeavesItems key (cons x xs) = Leaves key x × LeavesItems key xs

    pub LeavesFields : Fields F → Type 0
    LeavesFields end = Unit
    LeavesFields (field k v fs) = Leaves (some k) v × LeavesFields fs

module _ {F : Type 0} where
  abbrev pub is_leaf : Value F → Bool
  is_leaf (list xs) = false
  is_leaf (dict fs) = false
  is_leaf _ = true

  pub Leaves-leaf :
      (P : Option String → Value F → Type 0) (key : Option String) (v : Value F)
      → is_leaf v ≡ true
      → P key v
      → Leaves P key v
  unfolding Leaves
  Leaves-leaf P key (list xs) h p = cc
  Leaves-leaf P key (dict fs) h p = cc
  Leaves-leaf P key null h p = p
  Leaves-leaf P key (bool b) h p = p
  Leaves-leaf P key (int n) h p = p
  Leaves-leaf P key (float x) h p = p
  Leaves-leaf P key (str s) h p = p
