-- ===== src/Flow/Matched.antt =====
-- When `_condition_check` says that a condition holds.
use browser.Prelude.{String, ◌≡◌, refl, ◌↔◌, ◌⊎◌, inl, inr, true, Option, none, some, Bool-cases}
use browser.Value.{Fields, end, get}
use browser.Flow.Floats.{Floats}
use browser.Flow.Attempt.{Attempt, raises, returns, OnAttempt}
use browser.Flow.Condition.{
  raised, Probe, Check, Stage, crash, stop, next, text_of, stripped_of, check_page, is_condition,
  check_selector, check_text, check_js, result_of, check_stages, condition_check,
}
use browser.Flow.Decides.{
  Never, Either, PageHolds, ElementHolds, TextHolds, JsHolds, ElementRaises, TextRaises, Decides,
  bind-Decides, check_page-Decides, check_selector-Decides, check_text-Decides, check_js-Decides,
}

module _ {F : Type 0} where
  -- The exception is that of a wait for an element or a text.
  abbrev pub WaitRaises : Probe F → String → Type 0
  WaitRaises probe message =
      ((selector : String) × ((timeout : F) × (probe.wait_element selector timeout
            ≡ raised message)))
      ⊎ ((text : String) × ((selector : Option String) × ((timeout : F) × (probe.wait_text text
                  selector timeout
                ≡ raised message))))

  -- It returns that the condition is matched.
  abbrev pub IsMatched : Attempt (Check F) → Type 0
  IsMatched (raises message) = ⊥
  IsMatched (returns c) = c.matched ≡ true

  -- It raises this exception.
  abbrev pub Raises : Attempt (Check F) → String → Type 0
  Raises (raises message) m = message ≡ m
  Raises (returns c) m = ⊥

  Decides-iff :
      (P : Type 0) (R : String → Type 0) (s : Stage F)
      → Decides P R s
      → (IsMatched (result_of s) ↔ P) × ((m : String) → Raises (result_of s) m ↔ R m)
  Decides-iff P R (crash message) (raised_by, (only, wrong)) =
      ((λ h. elim h [ ], λ p. elim (wrong p) [ ]), λ m. (λ e. rw⁻¹ e raised_by, λ r. only m r))
  Decides-iff P R (stop c) (unmatched, (wrong, quiet)) =
      ((λ h. cc, λ p. elim (wrong p) [ ]), λ m. (λ h. elim h [ ], λ r. quiet m r))
  Decides-iff P R (next d) (p, quiet) =
      ((λ _. p, λ _. refl), λ m. (λ h. elim h [ ], λ r. quiet m r))

module _ {F : Type 0} (fl : Floats F) (probe : Probe F) (timeout : F) where
  -- What the keys of a condition ask for, all together.
  abbrev pub CondHolds : Fields F → Type 0
  CondHolds cond =
      (((PageHolds (text_of (get "url" cond)) probe.url
            × PageHolds (text_of (get "title" cond)) probe.title)
          × ElementHolds probe timeout (stripped_of (get "selector" cond)))
        × TextHolds probe timeout (stripped_of (get "selector" cond))
            (stripped_of (get "text" cond)))
      × JsHolds fl probe (stripped_of (get "js" cond))

  -- The texts of the url and of the title hold, and then the wait for the element raises, or the
  -- element is found and the wait for the text raises.
  abbrev pub CondRaises : Fields F → String → Type 0
  CondRaises cond m =
      (PageHolds (text_of (get "url" cond)) probe.url
        × PageHolds (text_of (get "title" cond)) probe.title)
      × (ElementRaises probe timeout (stripped_of (get "selector" cond)) m
          ⊎ (ElementHolds probe timeout (stripped_of (get "selector" cond))
              × TextRaises probe timeout (stripped_of (get "selector" cond))
                  (stripped_of (get "text" cond)) m))

  abbrev StageRaises : Fields F → String → Type 0
  StageRaises cond =
      Either
        (Either
          (Either (Either Never (PageHolds (text_of (get "url" cond)) probe.url) Never)
            (PageHolds (text_of (get "url" cond)) probe.url
              × PageHolds (text_of (get "title" cond)) probe.title)
            (ElementRaises probe timeout (stripped_of (get "selector" cond))))
          ((PageHolds (text_of (get "url" cond)) probe.url
              × PageHolds (text_of (get "title" cond)) probe.title)
            × ElementHolds probe timeout (stripped_of (get "selector" cond)))
          (TextRaises probe timeout (stripped_of (get "selector" cond))
            (stripped_of (get "text" cond))))
        (((PageHolds (text_of (get "url" cond)) probe.url
              × PageHolds (text_of (get "title" cond)) probe.title)
            × ElementHolds probe timeout (stripped_of (get "selector" cond)))
          × TextHolds probe timeout (stripped_of (get "selector" cond))
              (stripped_of (get "text" cond)))
        Never

  StageRaises-CondRaises : (cond : Fields F) (m : String) → StageRaises cond m ↔ CondRaises cond m
  StageRaises-CondRaises cond m = (there, back)
    where
      there : StageRaises cond m → CondRaises cond m
      there (inl (inl (inl (inl never)))) = elim never [ ]
      there (inl (inl (inl (inr (_, never))))) = elim never [ ]
      there (inl (inl (inr (shown, r)))) = (shown, inl r)
      there (inl (inr ((shown, found), r))) = (shown, inr (found, r))
      there (inr (_, never)) = elim never [ ]

      back : CondRaises cond m → StageRaises cond m
      back (shown, inl r) = inl (inl (inr (shown, r)))
      back (shown, inr (found, r)) = inl (inr ((shown, found), r))

  check_stages-Decides :
      (cond : Fields F)
      → Decides (CondHolds cond) (StageRaises cond) (check_stages fl probe timeout cond)
  unfolding check_stages
  check_stages-Decides cond =
      bind-Decides _ _ _ _ _ (check_js fl probe (get "js" cond))
        (bind-Decides _ _ _ _ _
          (check_text fl probe timeout (get "selector" cond) (get "text" cond))
          (bind-Decides _ _ _ _ _ (check_selector fl probe timeout (get "selector" cond))
            (bind-Decides _ _ _ _ _ (check_page "title" (get "title" cond) probe.title)
              (check_page-Decides "url" (get "url" cond) probe.url end)
              (check_page-Decides "title" (get "title" cond) probe.title))
            (check_selector-Decides fl probe timeout (get "selector" cond)))
          (check_text-Decides fl probe timeout (get "selector" cond) (get "text" cond)))
        (check_js-Decides fl probe (get "js" cond))

  -- It returns that a condition is matched exactly if the condition has one of the five keys and all
  -- that it asks for holds: the texts of the url and of the title are part of those of the page, the
  -- element is found, the text is there and no dialog blocks, and the expression is true. It raises
  -- an exception exactly if the condition has one of the keys, the texts of the url and of the title
  -- hold, and the wait for the element raises that exception, or the element is found and the wait
  -- for the text raises it.
  pub condition_check_iff :
      (cond : Fields F)
      → (IsMatched (condition_check fl probe timeout cond)
          ↔ ((is_condition cond ≡ true) × CondHolds cond))
        × ((m : String)
            → Raises (condition_check fl probe timeout cond) m
              ↔ ((is_condition cond ≡ true) × CondRaises cond m))
  unfolding condition_check
  condition_check_iff cond = elim (Bool-cases (is_condition cond)) [
    | inl e ↦
        let ((onward, back), crashes) =
          Decides-iff (CondHolds cond) (StageRaises cond) _ (check_stages-Decides cond) in
        rw (e, condition_check)
          (
            (λ h. (refl, onward h), λ (_, h). back h),
            λ m.
                let (there, back') = crashes m in
                let (plain, staged) = StageRaises-CondRaises cond m in
                (λ h. (refl, plain (there h)), λ (_, h). back' (staged h)),
          )
    | inr e ↦
        rw (e, condition_check) ((λ h. cc, λ (h, _). cc), λ m. (λ h. elim h [ ], λ (h, _). cc))
  ]

  ElementRaises-WaitRaises :
      (selector : Option String) (m : String)
      → ElementRaises probe timeout selector m
      → WaitRaises probe m
  ElementRaises-WaitRaises (some selector) m h = inl (selector, (timeout, h))
  ElementRaises-WaitRaises none m h = elim h [ ]

  TextRaises-WaitRaises :
      (selector text : Option String) (m : String)
      → TextRaises probe timeout selector text m
      → WaitRaises probe m
  TextRaises-WaitRaises selector (some text) m h = inr (text, (selector, (timeout, h)))
  TextRaises-WaitRaises selector none m h = elim h [ ]

  CondRaises-WaitRaises : (cond : Fields F) (m : String) → CondRaises cond m → WaitRaises probe m
  CondRaises-WaitRaises cond m (shown, inl r) = ElementRaises-WaitRaises _ m r
  CondRaises-WaitRaises cond m (shown, inr (found, r)) = TextRaises-WaitRaises _ _ m r

  abbrev RaisesOfWait : Attempt (Check F) → Type 0
  RaisesOfWait a = OnAttempt (WaitRaises probe) (λ c. Unit) a

  pub condition_check-RaisesOfWait :
      (cond : Fields F) → RaisesOfWait (condition_check fl probe timeout cond)
  condition_check-RaisesOfWait cond =
      go (condition_check fl probe timeout cond) (λ m. ((condition_check_iff cond).1 m).0)
    where
      go :
          (a : Attempt (Check F))
          → ((m : String) → Raises a m → (is_condition cond ≡ true) × CondRaises cond m)
          → RaisesOfWait a
      go (raises message) f = CondRaises-WaitRaises cond message (f message refl).1
      go (returns c) f = tt
