-- ===== src/Config/Http/Requests.antt =====
-- Which requests are made, and how much of an answer is kept.
use native.Mathlib.Numerals.{add-one}
use browser.Prelude.{
  ℕ, suc, ◌≤◌, String, ◌≡◌, sym, ap, ◌∙◌, ◌⊎◌, inl, inr, true, false, Option, none, some, List, [],
  ◌∷◌, arith, eq_iff, ltb, Bool-cases, Option-cases, tests, length, take, length-take,
  take_of_length-le, take-take-suc, All,
}
use browser.Url.{UrlLib, SplitUrl}
use browser.Config.{BrowserConfig, is_host_allowed}
use browser.Config.Http.{
  HttpError, Result-cases, ok, host_or_empty, check_parts, check_url, redirect_request, open_from,
  read_body, HttpResponse, respond, http_get,
}

module _ (u : UrlLib) (config : BrowserConfig) where
  -- An http or https URL whose host is on the allowlist.
  abbrev pub IsPermitted : String → Type 0
  IsPermitted url =
      (parts : SplitUrl) × (u.urlsplit url ≡ some parts)
      × ((parts.scheme ≡ "http") ⊎ (parts.scheme ≡ "https"))
      × (is_host_allowed config (host_or_empty (u.hostname parts)) ≡ true)

  parts_permitted :
      (parts : SplitUrl)
      → check_parts u config parts ≡ ok tt
      → ((parts.scheme ≡ "http") ⊎ (parts.scheme ≡ "https"))
        × (is_host_allowed config (host_or_empty (u.hostname parts)) ≡ true)
  unfolding check_parts
  parts_permitted parts h =
      (ground (arith, eq_iff parts.scheme "http", eq_iff parts.scheme "https"), ground arith)

  check_url-IsPermitted : (url : String) → check_url u config url ≡ ok tt → IsPermitted url
  unfolding check_url
  check_url-IsPermitted url h = elim (Option-cases (u.urlsplit url)) [
    | inl e ↦ absurd (ground arith)
    | inr (parts, e) ↦
        let (scheme, host) = parts_permitted parts (rw (e, check_url) at h) in
        (parts, e, scheme, host)
  ]

  redirect-IsPermitted :
      (url newurl next : String) → redirect_request u config url newurl ≡ ok next → IsPermitted next
  unfolding redirect_request
  redirect-IsPermitted url newurl next h =
      elim (Result-cases (check_url u config (u.urljoin url newurl))) [
        | inl (e, p) ↦ absurd (ground arith)
        | inr (_, p) ↦
            let same : u.urljoin url newurl ≡ next = ground arith in
            check_url-IsPermitted next (rw same at p)
      ]

  open_from-IsPermitted :
      (url : String) (redirects : List String)
      → IsPermitted url
      → All IsPermitted (open_from u config url redirects).0
  unfolding open_from
  open_from-IsPermitted url [] h = (h, tt)
  open_from-IsPermitted url (newurl ∷ redirects) h =
      elim (Result-cases (redirect_request u config url newurl)) [
        | inl (e, p) ↦ rw (p, All, open_from) (h, tt)
        | inr (next, p) ↦
            rw (p, All, open_from)
              (h, open_from-IsPermitted next redirects (redirect-IsPermitted url newurl next p))
      ]

  -- Every URL that is asked for, the first one and each redirect, is an http or https URL whose host
  -- the allowlist lets through, also where the request ends in an error.
  pub http_get-IsPermitted :
      (url : String) (redirects : List String) (content : List ℕ)
      → All IsPermitted (http_get u config url redirects content).0
  unfolding http_get
  http_get-IsPermitted url redirects content = elim (Result-cases (check_url u config url)) [
    | inl (e, p) ↦ rw (p, All, http_get) tt
    | inr (_, p) ↦
        rw (p, All, http_get) (open_from-IsPermitted url redirects (check_url-IsPermitted url p))
  ]

read_body_lem :
    (n : ℕ) (content : List ℕ) → read_body n content ≡ (take n content, ltb n (length content))
unfolding read_body
read_body_lem n content =
    let measured = length-take (suc n) content in
    rw add-one (elim (Bool-cases (ltb n (length content))) [
      | inl e ↦
          let cut : ltb n (length (take (suc n) content)) ≡ true = omega tests in
          rw (cut, e) (ap (λ xs. (xs, true)) (take-take-suc n content))
      | inr e ↦
          let fits : length content ≤ n = ground arith in
          let whole : ltb n (length (take (suc n) content)) ≡ false = ground arith in
          rw (whole, e)
            (ap (λ xs. (xs, false))
              (take_of_length-le (suc n) content (omega arith)
                ∙ sym (take_of_length-le n content fits)))
    ])

respond_lem :
    (n : ℕ) (content : List ℕ) (e : Option HttpError) (r : HttpResponse)
    → respond n content e ≡ ok r
    → (r.body ≡ take n content) × (r.truncated ≡ ltb n (length content))
unfolding respond
respond_lem n content (some e) r h = cc
respond_lem n content none r h = ground (arith, read_body_lem n content)

-- The body of a response is what the server sent, cut to the limit, and it says whether it was cut.
pub http_get-body :
    (u : UrlLib) (config : BrowserConfig) (url : String) (redirects : List String)
    (content : List ℕ) (r : HttpResponse)
    → (http_get u config url redirects content).1 ≡ ok r
    → (r.body ≡ take config.http_max_bytes content)
      × (r.truncated ≡ ltb config.http_max_bytes (length content))
unfolding http_get
http_get-body u config url redirects content r h = elim (Result-cases (check_url u config url)) [
  | inl (e, p) ↦ absurd (ground arith)
  | inr (_, p) ↦ respond_lem _ content _ r (rw (p, http_get) at h)
]
