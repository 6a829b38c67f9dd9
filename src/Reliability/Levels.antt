-- ===== src/Reliability/Levels.antt =====
-- What holds of the defaults of each level.
use browser.Prelude.{
  ℕ, zero, suc, String, ◌≡◌, refl, sym, ap, ◌∙◌, inl, inr, Bool, true, false, Option, none, some,
  List, [], ◌∷◌, eq_iff, ◌==◌, if◌then◌else◌, Bool-cases, All,
}
use browser.Text.{strip, lower, lower_char, lstrip_by, rstrip_by, is_space}
use browser.Value.{Value, Fields, end, field, get, put}
use browser.Value.Keys.{Distinct, get-put}
use browser.Flow.Floats.{Floats, to_int}
use browser.Reliability.{Kind, kinds, coerced, level_defaults}
use browser.Reliability.Parse.{
  coerce_boolish, coerce_choice, coerce_int, coerce, is_unset, apply_defaults,
}

pub level_defaults-Distinct : (F : Type 0) (n : ℕ) → Distinct (level_defaults {F = F} n)
unfolding get
level_defaults-Distinct F zero = (refl, (refl, (refl, (refl, (refl, (refl, (refl, tt)))))))
level_defaults-Distinct F (suc zero) = tt
level_defaults-Distinct F (suc (suc zero)) =
    (refl, (refl, (refl, (refl, (refl, (refl, (refl, (refl, tt))))))))
level_defaults-Distinct F (suc (suc (suc zero))) =
    (refl, (refl, (refl, (refl, (refl, (refl, (refl, (refl, (refl, (refl, tt))))))))))
level_defaults-Distinct F (suc (suc (suc (suc n)))) = tt

module _ {F : Type 0} where
  -- The default where the run says nothing, or null.
  abbrev pub filled : Option (Value F) → Option (Value F) → Option (Value F)
  filled user none = user
  filled user (some d) = if is_unset user then some d else user

  filled_set : (u : Option (Value F)) (d : Value F) → is_unset u ≡ false → filled u (some d) ≡ u
  filled_set u d e = rw e refl

  filled_unset :
      (u : Option (Value F)) (d : Value F) → is_unset u ≡ true → filled u (some d) ≡ some d
  filled_unset u d e = rw e refl

  abbrev next_value :
      String → String → Value F → Fields F → Fields F → Fields F → Bool → Option (Value F)
  next_value j key v defaults src applied unset =
      get j
        (apply_defaults defaults
          (if unset then (put key v src, put key v applied) else (src, applied))).0

  pub apply_defaults-get :
      (defaults src applied : Fields F) (j : String)
      → Distinct defaults
      → get j (apply_defaults defaults (src, applied)).0 ≡ filled (get j src) (get j defaults)
  unfolding apply_defaults get
  apply_defaults-get end src applied j h = refl
  apply_defaults-get (field key v defaults) src applied j (h, t) =
      elim (Bool-cases (is_unset (get key src))) [
        | inr e ↦
            ap (next_value j key v defaults src applied) e
            ∙ (apply_defaults-get defaults src applied j t ∙ elim (Bool-cases (key == j)) [
              | inr f ↦ rw f refl
              | inl f ↦ rw f (
                  ap (filled (get j src)) (ap (λ i. get i defaults) (sym ((eq_iff key j).0 f)) ∙ h)
                  ∙ sym (
                      filled_set (get j src) v
                        (ap (λ i. is_unset (get i src)) (sym ((eq_iff key j).0 f)) ∙ e)))
            ])
        | inl e ↦
            ap (next_value j key v defaults src applied) e
            ∙ (apply_defaults-get defaults (put key v src) (put key v applied) j t
                ∙ (ap (λ u. filled u (get j defaults)) (get-put key j v src)
                    ∙ elim (Bool-cases (key == j)) [
                      | inr f ↦ rw f refl
                      | inl f ↦ rw f (
                          ap (filled (some v))
                            (ap (λ i. get i defaults) (sym ((eq_iff key j).0 f)) ∙ h)
                          ∙ sym (
                              filled_unset (get j src) v
                                (ap (λ i. is_unset (get i src)) (sym ((eq_iff key j).0 f)) ∙ e)))
                    ]))
      ]

module _ {F : Type 0} (fl : Floats F) where
  -- A default is what coercion makes of it.
  abbrev pub Fixed : Kind → Option (Value F) → Type 0
  Fixed kind none = Unit
  Fixed kind (some d) = coerce fl kind d ≡ coerced d

  Fixed-none : (keys : List (String × Kind)) → All (λ p. Fixed p.1 none) keys
  Fixed-none [] = tt
  Fixed-none ((key, kind) ∷ keys) = (tt, Fixed-none keys)

  pub level_defaults-Fixed : (n : ℕ) → All (λ p. Fixed p.1 (get p.0 (level_defaults n))) kinds
  unfolding get coerce coerce_boolish coerce_choice coerce_int to_int strip lower lower_char
      lstrip_by rstrip_by is_space
  level_defaults-Fixed zero = (
    refl,
    (
      refl,
      (
        refl,
        (
          tt,
          (
            refl,
            (
              refl,
              (
                tt,
                (
                  tt,
                  (
                    tt,
                    (
                      tt,
                      (
                        tt,
                        (
                          tt,
                          (
                            tt,
                            (
                              tt,
                              (
                                tt,
                                (tt, (refl, (tt, (tt, (tt, (refl, (tt, (tt, (tt, (tt, tt)))))))))),
                              ),
                            ),
                          ),
                        ),
                      ),
                    ),
                  ),
                ),
              ),
            ),
          ),
        ),
      ),
    ),
  )
  level_defaults-Fixed (suc zero) = Fixed-none kinds
  level_defaults-Fixed (suc (suc zero)) = (
    refl,
    (
      refl,
      (
        refl,
        (
          refl,
          (
            refl,
            (
              refl,
              (
                tt,
                (
                  tt,
                  (
                    tt,
                    (
                      tt,
                      (
                        tt,
                        (
                          tt,
                          (
                            tt,
                            (
                              tt,
                              (
                                tt,
                                (tt, (refl, (tt, (tt, (tt, (refl, (tt, (tt, (tt, (tt, tt)))))))))),
                              ),
                            ),
                          ),
                        ),
                      ),
                    ),
                  ),
                ),
              ),
            ),
          ),
        ),
      ),
    ),
  )
  level_defaults-Fixed (suc (suc (suc zero))) = (
    refl,
    (
      refl,
      (
        refl,
        (
          refl,
          (
            refl,
            (
              refl,
              (
                tt,
                (
                  tt,
                  (
                    tt,
                    (
                      tt,
                      (
                        tt,
                        (
                          tt,
                          (
                            tt,
                            (
                              tt,
                              (
                                tt,
                                (
                                  tt,
                                  (refl, (refl, (refl, (tt, (refl, (tt, (tt, (tt, (tt, tt))))))))),
                                ),
                              ),
                            ),
                          ),
                        ),
                      ),
                    ),
                  ),
                ),
              ),
            ),
          ),
        ),
      ),
    ),
  )
  level_defaults-Fixed (suc (suc (suc (suc n)))) = Fixed-none kinds
