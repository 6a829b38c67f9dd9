-- ===== src/Tests/Config.antt =====
-- Runs of the allowlist and of the guarded requests.
use browser.Prelude.{◌≡◌, refl, ◌↔◌, ◌⊎◌, true, false, none, some, [], ◌∷◌, All}
use browser.Text.{strip, lower, lstrip_by, rstrip_by, ends_with, split, split_once}
use browser.Config.{
  launch, extension, attach, normalize_mode, BrowserConfig, parse_allow_hosts, normalize_host,
  normalize_allowed, allows, allowed_by, is_host_allowed,
}
use browser.Config.Hosts.{Covers, Any, is_host_allowed_iff}
use browser.Config.Http.{
  err, host_not_allowed, check_parts, check_url, redirect_request, open_from, read_body,
  HttpResponse, respond, http_get,
}
use browser.Config.Http.Requests.{IsPermitted, http_get-IsPermitted}
use browser.Tests.Fixtures.{short_urls}

-- Opens what the runs below compute with.
runs : Unit {0}
unfolding strip lower lstrip_by rstrip_by ends_with split split_once normalize_mode
    parse_allow_hosts normalize_host normalize_allowed allows allowed_by is_host_allowed check_parts
    check_url redirect_request open_from read_body respond http_get
runs = tt

modes :
    (normalize_mode (some " EXT ") ≡ extension)
    × (normalize_mode (some "connect") ≡ attach)
    × (normalize_mode none ≡ launch)
unfolding runs
modes = (refl, refl, refl)

abbrev guarded : BrowserConfig
guarded = record { mode = launch; allow_hosts = "example.com" ∷ ".test." ∷ []; http_max_bytes = 2 }

parse_run : parse_allow_hosts " Example.com, *,, b " ≡ "example.com" ∷ "b" ∷ []
unfolding runs
parse_run = refl

allowed_runs :
    (is_host_allowed guarded "WWW.Example.COM." ≡ true)
    × (is_host_allowed guarded "evil-example.com" ≡ false)
    × (is_host_allowed guarded "a.test" ≡ true)
unfolding runs
allowed_runs = (refl, refl, refl)

is_host_allowed_iff_example : (is_host_allowed guarded "a.test" ≡ true) ↔ (
    (guarded.allow_hosts ≡ [])
    ⊎ Any (λ raw. Covers raw (normalize_host "a.test")) guarded.allow_hosts)
is_host_allowed_iff_example = is_host_allowed_iff guarded "a.test"

redirect_blocked :
    http_get short_urls guarded "example.com" ("a.test" ∷ "evil.org" ∷ []) (1 ∷ 2 ∷ 3 ∷ [])
    ≡ ("example.com" ∷ "a.test" ∷ [], err host_not_allowed)
unfolding runs
redirect_blocked = refl

http_get-IsPermitted_example :
    All
      (IsPermitted short_urls guarded)
      (http_get short_urls guarded "example.com" ("a.test" ∷ "evil.org" ∷ []) (1 ∷ [])).0
http_get-IsPermitted_example =
    http_get-IsPermitted short_urls guarded "example.com" ("a.test" ∷ "evil.org" ∷ []) (1 ∷ [])

abbrev cut_response : HttpResponse
cut_response = record { body = 1 ∷ 2 ∷ []; truncated = true }
