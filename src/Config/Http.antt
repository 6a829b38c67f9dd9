-- ===== src/Config/Http.antt =====
-- http_client.py: the checks before a request and before each redirect, and the cut of the body.
pub mod Requests
use browser.Prelude.{
  ℕ, ◌+◌, String, ◌≡◌, refl, ◌⊎◌, inl, inr, Bool, not, Option, none, some, List, [], ◌∷◌, ltb,
  if◌then◌else◌, one_of, length, take,
}
use browser.Url.{UrlLib, SplitUrl}
use browser.Config.{BrowserConfig, is_host_allowed}

pub data HttpError : Type 0 where
  unsupported_scheme host_not_allowed value_error : HttpError

pub data Result {ℓ} (A : Type ℓ) : Type ℓ where
  ok : A → Result A
  err : HttpError → Result A

pub Result-cases {ℓ} :
    {A : Type ℓ} (r : Result A) → ((e : HttpError) × (r ≡ err e)) ⊎ ((a : A) × (r ≡ ok a))
Result-cases (err e) = inl (e, refl)
Result-cases (ok a) = inr (a, refl)

infixl 5 ◌>>=◌ ◌>>◌
abbrev pub ◌>>=◌ {ℓ κ} : {A : Type ℓ} {B : Type κ} → Result A → (A → Result B) → Result B
ok a >>= f = f a
err e >>= f = err e

abbrev pub ◌>>◌ {ℓ κ} : {A : Type ℓ} {B : Type κ} → Result A → Result B → Result B
m >> k = m >>= λ _. k

abbrev pub host_or_empty : Option String → String
host_or_empty none = ""
host_or_empty (some host) = host

module _ (u : UrlLib) (config : BrowserConfig) where
  -- `parsed.scheme` and `parsed.hostname or ""` are in order.
  unfoldable pub check_parts : SplitUrl → Result (Unit {0})
  check_parts parsed =
      if not (one_of parsed.scheme ("http" ∷ "https" ∷ []))
      then err unsupported_scheme
      else if not (is_host_allowed config (host_or_empty (u.hostname parsed)))
      then err host_not_allowed
      else ok tt

  -- The same two tests open `http_get` and `redirect_request`.
  unfoldable pub check_url : String → Result (Unit {0})
  unfolding check_parts
  check_url url = elim (u.urlsplit url) [
    | none ↦ err value_error
    | some parsed ↦ check_parts parsed
  ]

  -- The URL that the redirected request is made for.
  unfoldable pub redirect_request : String → String → Result String
  redirect_request full_url newurl = do
    check_url (u.urljoin full_url newurl)
    ok (u.urljoin full_url newurl)

  -- The URLs that the opener asks for, one more for each redirect that a server answers with, and
  -- the error that ends the chain.
  unfoldable pub open_from : String → List String → List String × Option HttpError
  open_from url [] = (url ∷ [], none)
  open_from url (newurl ∷ redirects) = elim (redirect_request url newurl) [
    | err e ↦ (url ∷ [], some e)
    | ok next ↦ let (requested, error) = open_from next redirects in (url ∷ requested, error)
  ]

-- resp.read(max_bytes + 1), cut to max_bytes, and whether something was cut
unfoldable pub read_body : ℕ → List ℕ → List ℕ × Bool
read_body max_bytes content =
    let body = take (max_bytes + 1) content in
    let truncated = ltb max_bytes (length body) in
    (if truncated then take max_bytes body else body, truncated)

pub record HttpResponse : Type 0 where
  pub body : List ℕ
  pub truncated : Bool

unfoldable pub respond : ℕ → List ℕ → Option HttpError → Result HttpResponse
respond max_bytes content (some e) = err e
respond max_bytes content none =
    let (body, truncated) = read_body max_bytes content in
    ok (record { body = body; truncated = truncated })

-- The URLs asked for, and the result; `redirects` and `content` are what the servers answer.
unfoldable pub http_get :
    UrlLib → BrowserConfig → String → List String → List ℕ → List String × Result HttpResponse
http_get u config url redirects content = elim (check_url u config url) [
  | err e ↦ ([], err e)
  | ok _ ↦
      let (requested, error) = open_from u config url redirects in
      (requested, respond config.http_max_bytes content error)
]
