-- ===== src/Sensitivity.antt =====
-- sensitivity.py: keys that may name a secret.
use browser.Prelude.{String, Bool, false, ◌||◌, List, [], ◌∷◌, ◌==◌, if◌then◌else◌, one_of}
use browser.Text.{strip, lower, contains}

abbrev pub sensitive_substrings : List String
sensitive_substrings =
    "token" ∷ "secret" ∷ "password" ∷ "passwd" ∷ "pwd" ∷ "authorization" ∷ "cookie" ∷ "session"
    ∷ "jwt" ∷ "bearer" ∷ "api-key" ∷ "api_key" ∷ "apikey" ∷ []

abbrev pub sensitive_exact : List String
sensitive_exact = "auth" ∷ []

-- any(s in k for s in substrings)
unfoldable pub contains_any : String → List String → Bool
contains_any k [] = false
contains_any k (s ∷ ss) = contains k s || contains_any k ss

unfoldable pub is_sensitive_key : String → Bool
unfolding contains_any
is_sensitive_key key =
    let k = lower (strip key) in
    if k == "" then false else one_of k sensitive_exact || contains_any k sensitive_substrings
