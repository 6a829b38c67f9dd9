-- ===== src/Telemetry.antt =====
-- telemetry.py: the bounded buffers of a tab, its requests, and the downloads among them.
pub mod Buffers
pub mod Downloads
pub mod Requests
pub mod Texts
pub mod Parts
pub mod Headers
pub mod Ingest
pub mod Snapshot
use mathlib.Core.List.{reverse}
use browser.Prelude.{
  ℕ, ◌+◌, ◌-◌, min, max, String, Bool, Option, none, some, List, [], ◌∷◌, ◌++◌, map, ltb, leb, ◌==◌,
  if◌then◌else◌, length, drop,
}
use browser.Prelude.Int.{ℤ, pos, negsuc, pos_part}
use browser.Value.{Value, null, bool, int, str, Fields, get}
use browser.Flow.Condition.{text_of}

-- del items[: len(items) - max], where there are more than that
unfoldable pub keep_last {ℓ} : {A : Type ℓ} → ℕ → List A → List A
keep_last bound items =
    if ltb bound (length items) then drop (length items - bound) items else items

-- `_push`, of `max_events` items
unfoldable pub push {ℓ} : {A : Type ℓ} → ℕ → List A → A → List A
unfolding keep_last
push max_events buf item = keep_last max_events (buf ++ item ∷ [])

-- max(lo, min(n, hi))
unfoldable pub clamp_ℤ : ℕ → ℕ → ℤ → ℕ
clamp_ℤ lo hi n = max lo (min (pos_part n) hi)

-- requestId -> metadata, in the order of insertion
abbrev pub Requests : Type 0 → Type 0
Requests F = List (String × Fields F)

-- now - ts > max_age
abbrev pub is_old : ℕ → ℕ → ℤ → Bool
is_old now max_age (pos t) = ltb (max_age + t) now
is_old now max_age (negsuc t) = ltb max_age (now + (t + 1))

-- int(n), with the default where it raises
abbrev pub int_or : ℕ → Option ℤ → ℤ
int_or default none = pos default
int_or default (some n) = n

module _ {F : Type 0} where
  unfoldable pub put_request : String → Fields F → Requests F → Requests F
  put_request k meta [] = (k, meta) ∷ []
  put_request k meta ((j, old) ∷ reqs) =
      let rest = put_request k meta reqs in if j == k then (j, meta) ∷ reqs else (j, old) ∷ rest

  unfoldable pub get_request : String → Requests F → Option (Fields F)
  get_request k [] = none
  get_request k ((j, meta) ∷ reqs) = if j == k then some meta else get_request k reqs

  -- `_remember_request` and `_remember_done_request`
  unfoldable pub remember_request : ℕ → String → Fields F → Requests F → Requests F
  remember_request max_request_map request_id meta reqs =
      if request_id == ""
      then reqs
      else keep_last max_request_map (put_request request_id meta reqs)

  -- `v` if it is an int; bools are
  abbrev pub int_of : Option (Value F) → Option ℤ
  int_of (some (int n)) = some n
  int_of (some (bool b)) = some (pos (if b then 1 else 0))
  int_of _ = none

  -- When a response ended, or else when its request was made.
  unfoldable pub time_of : Fields F → Option ℤ
  time_of meta = elim (int_of (get "endTs" meta)) [
    | some n ↦ some n
    | none ↦ int_of (get "ts" meta)
  ]

  abbrev str_or : Option (Value F) → Option (Value F) → Option String
  str_or (some (str s)) other = if s == "" then none else some s
  str_or _ other = text_of other

  unfoldable pub url_of : Fields F → Option String
  url_of meta = str_or (get "urlFull" meta) (get "url" meta)

  abbrev pub or_null : Option (Value F) → Value F
  or_null none = null
  or_null (some v) = v

-- An entry of the result of `recent_downloads`.
pub record Download (F : Type 0) : Type 0 where
  pub url : String
  pub file_name : Value F
  pub mime_type : Value F
  pub status : Value F
  pub ts : ℤ

module _ {F : Type 0} where
  abbrev download : Fields F → String → ℤ → Download F
  download meta url ts = record {
    url = url;
    file_name = or_null (get "downloadFileName" meta);
    mime_type = or_null (get "contentType" meta);
    status = or_null (get "status" meta);
    ts = ts;
  }

  -- One round of the loop: what it appends, if nothing makes it go on.
  unfoldable pub download_of : ℕ → ℕ → Fields F → Option (Download F)
  download_of now max_age meta = elim (time_of meta) [
    | none ↦ none
    | some ts ↦
        let found : Option (Download F) = elim (text_of (get "contentDisposition" meta)) [
          | none ↦ none
          | some cd ↦ elim (url_of meta) [ none ↦ none | some url ↦ some (download meta url ts) ]
        ] in
        if is_old now max_age ts then none else found
  ]

  -- The loop, with what it has found, until there are as many as the limit.
  unfoldable pub collect : ℕ → ℕ → ℕ → List (Fields F) → List (Download F) → List (Download F)
  collect now max_age limit [] out = out
  collect now max_age limit (meta ∷ metas) out = elim (download_of now max_age meta) [
    | none ↦ collect now max_age limit metas out
    | some d ↦
        let more = collect now max_age limit metas (out ++ d ∷ []) in
        if leb limit (length (out ++ d ∷ [])) then out ++ d ∷ [] else more
  ]

  abbrev pub metas_of : Requests F → List (Fields F)
  metas_of reqs = map (λ (k, meta). meta) reqs

  unfoldable pub recent_downloads : ℕ → Option ℤ → Option ℤ → Requests F → List (Download F)
  recent_downloads now max_age limit req_done =
      collect now (clamp_ℤ 0 60000 (int_or 5000 max_age)) (clamp_ℤ 1 10 (int_or 3 limit))
        (reverse (metas_of req_done)) []
