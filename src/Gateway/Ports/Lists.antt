-- ===== src/Gateway/Ports/Lists.antt =====
-- Lists of ports without repetitions.
use mathlib.Core.List.{append-nil, append_assoc}
use browser.Prelude.{
  ℕ, zero, suc, ◌+◌, ◌≤◌, ◌≡◌, refl, sym, ap, ◌∙◌, inl, inr, false, ◌||◌, List, [], ◌∷◌, ◌++◌,
  arith, ltb, nat_eq, if◌then◌else◌, Bool-cases, tests, length, length-append, All, All-append,
}
use browser.Prelude.Int.{ℤ, pos, negsuc}
use browser.Gateway.{has_id}

-- `_add`
unfoldable pub add_port : ℤ → List ℕ → List ℕ
add_port (negsuc n) ports = ports
add_port (pos p) ports =
    if ltb p 1 || ltb 65535 p then ports else if has_id p ports then ports else ports ++ p ∷ []

abbrev pub next_port : ℤ → ℤ
next_port (pos n) = pos (suc n)
next_port (negsuc zero) = pos 0
next_port (negsuc (suc n)) = negsuc n

-- for p in range(first, first + n): _add(p)
unfoldable pub add_range : ℕ → ℤ → List ℕ → List ℕ
add_range zero p ports = ports
add_range (suc n) p ports = add_range n (next_port p) (add_port p ports)

abbrev pub NoDup : List ℕ → Type 0
NoDup [] = Unit
NoDup (p ∷ ps) = (has_id p ps ≡ false) × NoDup ps

abbrev pub IsPort : ℕ → Type 0
IsPort p = (1 ≤ p) × (p ≤ 65535)

-- The ports are valid and distinct, start with those that were there, and are n more at most.
abbrev pub Extends : ℕ → List ℕ → List ℕ → Type 0
Extends n ports ports' =
    ((rest : List ℕ) × (ports' ≡ ports ++ rest))
    × ((length ports' ≤ length ports + n) × (All IsPort ports' × NoDup ports'))

has_id-append : (q p : ℕ) (ps : List ℕ) → has_id q (ps ++ p ∷ []) ≡ (has_id q ps || nat_eq q p)
unfolding has_id
has_id-append q p [] = ground arith
has_id-append q p (r ∷ ps) = ground (arith, has_id-append q p ps)

NoDup-append : (p : ℕ) (ps : List ℕ) → has_id p ps ≡ false → NoDup ps → NoDup (ps ++ p ∷ [])
unfolding has_id
NoDup-append p [] h t = (refl, tt)
NoDup-append p (q ∷ ps) h (e, t) =
    (ground (arith, has_id-append q p ps, e, h), NoDup-append p ps (ground (arith, h)) t)

Extends-self : (n : ℕ) (ports : List ℕ) → All IsPort ports → NoDup ports → Extends n ports ports
Extends-self n ports h t = (([], sym (append-nil ports)), (omega arith, (h, t)))

pub add_port-Extends :
    (p : ℤ) (ports : List ℕ) → All IsPort ports → NoDup ports → Extends 1 ports (add_port p ports)
unfolding add_port
add_port-Extends (negsuc n) ports h t = Extends-self 1 ports h t
add_port-Extends (pos p) ports h t = elim (Bool-cases (ltb p 1 || ltb 65535 p)) [
  | inl e ↦ rw e (Extends-self 1 ports h t)
  | inr e ↦ elim (Bool-cases (has_id p ports)) [
    | inl f ↦ rw (e, f) (Extends-self 1 ports h t)
    | inr f ↦
        rw (e, f)
          (
            (p ∷ [], refl),
            (
              omega (arith, length-append ports (p ∷ [])),
              (
                All-append IsPort ports (p ∷ []) h ((grind tests, grind tests), tt),
                NoDup-append p ports f t,
              ),
            ),
          )
  ]
]

pub Extends-trans :
    (n m k : ℕ) (a b c : List ℕ) → n + m ≡ k → Extends n a b → Extends m b c → Extends k a c
Extends-trans n m k a b c s ((r, e), (l, h)) ((r', e'), (l', h')) =
    ((r ++ r', e' ∙ (ap (λ xs. xs ++ r') e ∙ append_assoc a r r')), (omega arith, h'))

pub add_range-Extends :
    (n : ℕ) (p : ℤ) (ports : List ℕ)
    → All IsPort ports
    → NoDup ports
    → Extends n ports (add_range n p ports)
unfolding add_range
add_range-Extends zero p ports h t = Extends-self 0 ports h t
add_range-Extends (suc n) p ports h t =
    later (add_port-Extends p ports h t)
      (λ h' t'. add_range-Extends n (next_port p) (add_port p ports) h' t')
  where
    later :
        Extends 1 ports (add_port p ports)
        → (All IsPort (add_port p ports)
            → NoDup (add_port p ports)
            → Extends n (add_port p ports) (add_range n (next_port p) (add_port p ports)))
        → Extends (suc n) ports (add_range n (next_port p) (add_port p ports))
    later e f =
        Extends-trans 1 n (suc n) ports (add_port p ports)
          (add_range n (next_port p) (add_port p ports)) (omega arith) e (f e.1.1.0 e.1.1.1)
