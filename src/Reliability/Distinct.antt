-- ===== src/Reliability/Distinct.antt =====
-- The keys of the policy differ.
use browser.Prelude.{refl}
use browser.Assoc.{lookup}
use browser.Assoc.Laws.{Distinct as DistinctKeys}
use browser.Reliability.{kinds}

pub kinds-Distinct : DistinctKeys kinds
unfolding lookup
kinds-Distinct = (
  refl,
  (
    refl,
    (
      refl,
      (
        refl,
        (
          refl,
          (
            refl,
            (
              refl,
              (
                refl,
                (
                  refl,
                  (
                    refl,
                    (
                      refl,
                      (
                        refl,
                        (
                          refl,
                          (
                            refl,
                            (
                              refl,
                              (
                                refl,
                                (
                                  refl,
                                  (
                                    refl,
                                    (refl, (refl, (refl, (refl, (refl, (refl, (refl, tt))))))),
                                  ),
                                ),
                              ),
                            ),
                          ),
                        ),
                      ),
                    ),
                  ),
                ),
              ),
            ),
          ),
        ),
      ),
    ),
  ),
)
