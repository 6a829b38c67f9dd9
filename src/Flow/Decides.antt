-- ===== src/Flow/Decides.antt =====
-- What each test of `_condition_check` decides: whether it goes on, returns, or lets an exception through.
use browser.Prelude.{
  String, ◌≡◌, refl, sym, ap, ◌∙◌, ◌⊎◌, inl, inr, true, false, Option, none, some, arith,
  Bool-cases, Option-cases,
}
use browser.Value.{Value, Fields, get}
use browser.Flow.Floats.{Floats, is_truthy}
use browser.Flow.Condition.{
  Reply, raised, failed, answered, Probe, Stage, crash, stop, next, ◌>>=◌, text_of, stripped_of,
  payload_of, is_true, found_of, is_dialog, seen, check_page, check_selector, check_text, check_js,
}

-- The text of a condition, if it is given, is part of what the page shows.
abbrev pub PageHolds : Option String → Option String → Type 0
PageHolds none actual = Unit
PageHolds (some expected) actual = seen expected actual ≡ true

abbrev pub Never : String → Type 0
Never message = ⊥

-- The exceptions of a test, and of the one behind it where the first holds.
abbrev pub Either : (String → Type 0) → Type 0 → (String → Type 0) → String → Type 0
Either R P R' m = R m ⊎ (P × R' m)

module _ {F : Type 0} where
  abbrev pub ElementHolds : Probe F → F → Option String → Type 0
  ElementHolds probe timeout none = Unit
  ElementHolds probe timeout (some selector) =
      (v : Value F) × ((probe.wait_element selector timeout ≡ answered v)
        × (is_true (found_of (payload_of v)) ≡ true))

  abbrev pub TextHolds : Probe F → F → Option String → Option String → Type 0
  TextHolds probe timeout selector none = Unit
  TextHolds probe timeout selector (some text) =
      (v : Value F) × ((probe.wait_text text selector timeout ≡ answered v)
        × ((is_dialog (get "reason" (payload_of v)) ≡ false)
            × (is_true (get "success" (payload_of v)) ≡ true)))

  abbrev pub JsHolds : Floats F → Probe F → Option String → Type 0
  JsHolds fl probe none = Unit
  JsHolds fl probe (some expr) =
      (v : Value F) × ((probe.js expr ≡ answered v)
        × (is_truthy fl (get "result" (payload_of v)) ≡ true))

  -- The wait for the element, or the text, that is given raises this exception.
  abbrev pub ElementRaises : Probe F → F → Option String → String → Type 0
  ElementRaises probe timeout none message = ⊥
  ElementRaises probe timeout (some selector) message =
      probe.wait_element selector timeout ≡ raised message

  abbrev pub TextRaises : Probe F → F → Option String → Option String → String → Type 0
  TextRaises probe timeout selector none message = ⊥
  TextRaises probe timeout selector (some text) message =
      probe.wait_text text selector timeout ≡ raised message

  -- The stage goes on exactly if `P`, and where it returns nothing is matched; it raises an exception
  -- exactly if `R` holds of it.
  abbrev pub Decides : Type 0 → (String → Type 0) → Stage F → Type 0
  Decides P R (next d) = P × ((m : String) → ¬ R m)
  Decides P R (stop c) = (c.matched ≡ false) × ((¬ P) × ((m : String) → ¬ R m))
  Decides P R (crash message) = R message × (((m : String) → R m → message ≡ m) × ¬ P)

  pub bind-Decides :
      (P Q : Type 0) (R R' : String → Type 0) (s : Stage F) (f : Fields F → Stage F)
      → Decides P R s
      → ((d : Fields F) → Decides Q R' (f d))
      → Decides (P × Q) (Either R P R') (s >>= f)
  bind-Decides P Q R R' (crash message) f (raised_by, (only, wrong)) h = (
    inl raised_by,
    (λ m e. elim e [ inl r ↦ only m r | inr (p, r) ↦ elim (wrong p) [ ] ], λ (p, q). wrong p),
  )
  bind-Decides P Q R R' (stop c) f (unmatched, (wrong, quiet)) h =
      (unmatched, (λ (p, q). wrong p, λ m e. elim e [ inl r ↦ quiet m r | inr (p, r) ↦ wrong p ]))
  bind-Decides P Q R R' (next d) f (p, quiet) h = go (f d) (h d)
    where
      go : (s : Stage F) → Decides Q R' s → Decides (P × Q) (Either R P R') s
      go (crash message) (raised_by, (only, wrong)) = (
        inr (p, raised_by),
        (
          λ m e. elim e [ inl r ↦ elim (quiet m r) [ ] | inr (p', r) ↦ only m r ],
          λ (p', q). wrong q,
        ),
      )
      go (stop c) (unmatched, (wrong, quiet')) = (
        unmatched,
        (λ (p', q). wrong q, λ m e. elim e [ inl r ↦ quiet m r | inr (p', r) ↦ quiet' m r ]),
      )
      go (next d') (q, quiet') =
          ((p, q), λ m e. elim e [ inl r ↦ quiet m r | inr (p', r) ↦ quiet' m r ])

  abbrev message_of : String → Reply F → String
  message_of m (raised message) = message
  message_of m failed = m
  message_of m (answered v) = m

  Reply-cases :
      (r : Reply F)
      → (r ≡ failed) ⊎ (((m : String) × (r ≡ raised m)) ⊎ ((v : Value F) × (r ≡ answered v)))
  Reply-cases failed = inl refl
  Reply-cases (raised m) = inr (inl (m, refl))
  Reply-cases (answered v) = inr (inr (v, refl))

  pub check_page-Decides :
      (key : String) (v : Option (Value F)) (actual : Option String) (d : Fields F)
      → Decides (PageHolds (text_of v) actual) Never (check_page key v actual d)
  unfolding check_page
  check_page-Decides key v actual d = elim (Option-cases (text_of v)) [
    | inl e ↦ rw (e, check_page) (tt, λ m h. h)
    | inr (expected, e) ↦ elim (Bool-cases (seen expected actual)) [
      | inl f ↦ rw (e, f, check_page) (refl, λ m h. h)
      | inr f ↦ rw (e, f, check_page) (refl, (λ h. ground (arith, f, h), λ m h. h))
    ]
  ]

  pub check_selector-Decides :
      (fl : Floats F) (probe : Probe F) (timeout : F) (v : Option (Value F)) (d : Fields F)
      → Decides
          (ElementHolds probe timeout (stripped_of v))
          (ElementRaises probe timeout (stripped_of v))
          (check_selector fl probe timeout v d)
  unfolding check_selector
  check_selector-Decides fl probe timeout v d = elim (Option-cases (stripped_of v)) [
    | inl e ↦ rw (e, check_selector) (tt, λ m h. h)
    | inr (selector, e) ↦ elim (Reply-cases (probe.wait_element selector timeout)) [
      | inl f ↦ rw (e, f, check_selector) (refl, (λ (w, (h, _)). grind arith, λ m h. grind arith))
      | inr (inl (m, f)) ↦
          rw (e, f, check_selector)
            (f, (λ m' h. ap (message_of m) (sym f ∙ h), λ (w, (h, _)). grind arith))
      | inr (inr (w, f)) ↦ elim (Bool-cases (is_true (found_of (payload_of w)))) [
        | inl g ↦ rw (e, f, g, check_selector) ((w, (refl, g)), λ m h. grind arith)
        | inr g ↦
            rw (e, f, g, check_selector) (refl, (λ (w', (h, h')). grind arith, λ m h. grind arith))
      ]
    ]
  ]

  pub check_text-Decides :
      (fl : Floats F) (probe : Probe F) (timeout : F) (selector v : Option (Value F)) (d : Fields F)
      → Decides
          (TextHolds probe timeout (stripped_of selector) (stripped_of v))
          (TextRaises probe timeout (stripped_of selector) (stripped_of v))
          (check_text fl probe timeout selector v d)
  unfolding check_text
  check_text-Decides fl probe timeout selector v d = elim (Option-cases (stripped_of v)) [
    | inl e ↦ rw (e, check_text) (tt, λ m h. h)
    | inr (text, e) ↦ elim (Reply-cases (probe.wait_text text (stripped_of selector) timeout)) [
      | inl f ↦ rw (e, f, check_text) (refl, (λ (w, (h, _)). grind arith, λ m h. grind arith))
      | inr (inl (m, f)) ↦
          rw (e, f, check_text)
            (f, (λ m' h. ap (message_of m) (sym f ∙ h), λ (w, (h, _)). grind arith))
      | inr (inr (w, f)) ↦ elim (Bool-cases (is_dialog (get "reason" (payload_of w)))) [
        | inl g ↦
            rw (e, f, g, check_text) (refl, (λ (w', (h, (h', _))). grind arith, λ m h. grind arith))
        | inr g ↦ elim (Bool-cases (is_true (get "success" (payload_of w)))) [
          | inl k ↦ rw (e, f, g, k, check_text) ((w, (refl, (g, k))), λ m h. grind arith)
          | inr k ↦
              rw (e, f, g, k, check_text)
                (refl, (λ (w', (h, (_, h'))). grind arith, λ m h. grind arith))
        ]
      ]
    ]
  ]

  pub check_js-Decides :
      (fl : Floats F) (probe : Probe F) (v : Option (Value F)) (d : Fields F)
      → Decides (JsHolds fl probe (stripped_of v)) Never (check_js fl probe v d)
  unfolding check_js
  check_js-Decides fl probe v d = elim (Option-cases (stripped_of v)) [
    | inl e ↦ rw (e, check_js) (tt, λ m h. h)
    | inr (expr, e) ↦ elim (Reply-cases (probe.js expr)) [
      | inl f ↦ rw (e, f, check_js) (refl, (λ (w', (h, _)). grind arith, λ m h. h))
      | inr (inl (m, f)) ↦ rw (e, f, check_js) (refl, (λ (w', (h, _)). grind arith, λ m h. h))
      | inr (inr (w, f)) ↦ elim (Bool-cases (is_truthy fl (get "result" (payload_of w)))) [
        | inl g ↦ rw (e, f, g, check_js) ((w, (refl, g)), λ m h. h)
        | inr g ↦ rw (e, f, g, check_js) (refl, (λ (w', (h, h')). grind arith, λ m h. h))
      ]
    ]
  ]
