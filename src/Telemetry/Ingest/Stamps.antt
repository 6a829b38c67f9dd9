-- ===== src/Telemetry/Ingest/Stamps.antt =====
-- Entries with their times, in buffers and maps that are bounded.
use browser.Prelude.{
  ℕ, zero, suc, ◌-◌, ◌≤◌, String, ◌≡◌, refl, ◌∙◌, inl, inr, false, Option, none, some, List, [],
  ◌∷◌, ◌++◌, arith, ltb, ◌==◌, ltb→lt, ltb→le, Bool-cases, length, drop, length-drop, All,
  All-append,
}
use browser.Value.{Value, int, Fields, end, field, get, put}
use browser.Prelude.Int.{pos}
use browser.Value.Keys.{get-put}
use browser.Telemetry.{Requests, keep_last, push, put_request, remember_request}
use browser.Telemetry.Parts.{put_entries}
use browser.Telemetry.Ingest.{Tier0Telemetry, stamped, pop_request, pop_if_any}

length-keep_last : {A : Type 0} (n : ℕ) (xs : List A) → length (keep_last n xs) ≤ n
unfolding keep_last
length-keep_last n xs = elim (Bool-cases (ltb n (length xs))) [
  | inl e ↦
      rw (e, keep_last) (omega (arith, ltb→lt n (length xs) e, length-drop (length xs - n) xs))
  | inr e ↦ rw (e, keep_last) (ltb→le n (length xs) e)
]

All-drop : {A : Type 0} (P : A → Type 0) (n : ℕ) (xs : List A) → All P xs → All P (drop n xs)
All-drop P zero xs h = h
All-drop P (suc n) [] h = tt
All-drop P (suc n) (x ∷ xs) (p, h) = All-drop P n xs h

All-keep_last :
    {A : Type 0} (P : A → Type 0) (n : ℕ) (xs : List A) → All P xs → All P (keep_last n xs)
unfolding keep_last
All-keep_last P n xs h = elim (Bool-cases (ltb n (length xs))) [
  | inl e ↦ rw (e, keep_last) (All-drop P (length xs - n) xs h)
  | inr e ↦ rw (e, keep_last) h
]

module _ {F : Type 0} where
  -- An entry with a time that is not after the cursor.
  abbrev pub IsStamped : ℕ → Fields F → Type 0
  IsStamped cursor entry = (t : ℕ) × (get "ts" entry ≡ some (int (pos t))) × (t ≤ cursor)

  abbrev pub IsBuffer : ℕ → ℕ → List (Fields F) → Type 0
  IsBuffer bound cursor buf = (length buf ≤ bound) × All (IsStamped cursor) buf

  get-put_entries :
      (k : String) (entries : List (String × Option (Value F))) (fs : Fields F)
      → All (λ p. (p.0 == k) ≡ false) entries
      → get k (put_entries entries fs) ≡ get k fs
  unfolding put_entries
  get-put_entries k [] fs h = refl
  get-put_entries k ((j, none) ∷ entries) fs (h, t) = get-put_entries k entries fs t
  get-put_entries k ((j, some v) ∷ entries) fs (h, t) =
      get-put_entries k entries (put j v fs) t ∙ (get-put j k v fs ∙ rw h refl)

  stamped-IsStamped :
      (ts cursor : ℕ) (entries : List (String × Option (Value F)))
      → All (λ p. (p.0 == "ts") ≡ false) entries
      → ts ≤ cursor
      → IsStamped cursor (stamped ts entries)
  unfolding get
  stamped-IsStamped ts cursor entries h h' =
      (ts, get-put_entries "ts" entries (field "ts" (int (pos ts)) end) h, h')

  push-IsBuffer :
      (bound cursor : ℕ) (buf : List (Fields F)) (item : Fields F)
      → IsBuffer bound cursor buf
      → IsStamped cursor item
      → IsBuffer bound cursor (push bound buf item)
  unfolding push
  push-IsBuffer bound cursor buf item (h, t) s = (
    length-keep_last bound (buf ++ item ∷ []),
    All-keep_last (IsStamped cursor) bound (buf ++ item ∷ [])
        (All-append (IsStamped cursor) buf (item ∷ []) t (s, tt)),
  )

  pub push-stamped-IsBuffer :
      (bound cursor ts : ℕ) (buf : List (Fields F)) (entries : List (String × Option (Value F)))
      → IsBuffer bound cursor buf
      → All (λ p. (p.0 == "ts") ≡ false) entries
      → ts ≤ cursor
      → IsBuffer bound cursor (push bound buf (stamped ts entries))
  push-stamped-IsBuffer bound cursor ts buf entries b a h =
      push-IsBuffer bound cursor buf (stamped ts entries) b
        (stamped-IsStamped ts cursor entries a h)

  abbrev pub IsSound : ℕ → ℕ → Tier0Telemetry F → Type 0
  IsSound max_events max_request_map st =
      IsBuffer st.max_events st.cursor st.console
      × IsBuffer st.max_events st.cursor st.errors
      × IsBuffer st.max_events st.cursor st.network
      × IsBuffer st.max_events st.cursor st.har_lite
      × IsBuffer st.max_events st.cursor st.dialogs
      × IsBuffer st.max_events st.cursor st.navigation
      × (length st.req ≤ st.max_request_map)
      × (length st.req_done ≤ st.max_request_map)
      × (st.max_events ≡ max_events)
      × (st.max_request_map ≡ max_request_map)

  length-pop_request : (k : String) (reqs : Requests F) → length (pop_request k reqs) ≤ length reqs
  unfolding pop_request
  length-pop_request k [] = omega arith
  length-pop_request k ((j, meta) ∷ reqs) = ground (arith, length-pop_request k reqs)

  pub length-pop_if_any :
      (k : String) (reqs : Requests F) → length (pop_if_any k reqs) ≤ length reqs
  unfolding pop_if_any
  length-pop_if_any k reqs = ground (arith, length-pop_request k reqs)

  pub length-remember_request :
      (bound : ℕ) (k : String) (meta : Fields F) (reqs : Requests F)
      → length reqs ≤ bound
      → length (remember_request bound k meta reqs) ≤ bound
  unfolding remember_request
  length-remember_request bound k meta reqs h = elim (Bool-cases (k == "")) [
    | inl e ↦ rw (e, remember_request) h
    | inr e ↦ rw (e, remember_request) (length-keep_last bound (put_request k meta reqs))
  ]
