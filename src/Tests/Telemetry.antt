-- ===== src/Tests/Telemetry.antt =====
-- Runs of the buffers of a tab.
use mathlib.Core.List.{reverse}
use browser.Prelude.{ℕ, ◌≡◌, refl, none, some, [], ◌∷◌, map, take}
use browser.Prelude.Int.{pos}
use browser.Value.{int, str, Fields, end, field, get}
use browser.Telemetry.{
  keep_last, push, clamp_ℤ, Requests, put_request, get_request, remember_request, time_of, url_of,
  download_of, collect, metas_of, int_or, recent_downloads,
}
use browser.Telemetry.Buffers.{push_all}
use browser.Telemetry.Downloads.{all_downloads, recent_downloads-take}

-- Opens what the runs below compute with.
runs : Unit {0}
unfolding get keep_last push clamp_ℤ put_request get_request remember_request time_of url_of
    download_of collect recent_downloads
runs = tt

push_run : push_all {A = ℕ} 2 [] (1 ∷ 2 ∷ 3 ∷ []) ≡ 2 ∷ 3 ∷ []
unfolding runs
push_run = refl

abbrev response : ℕ → Fields ℕ
response ts =
    field "ts" (int (pos ts))
      (field "contentDisposition" (str "attachment") (field "url" (str "https://a.b/f") end))

abbrev responses : Requests ℕ
responses = ("1", response 10) ∷ ("2", response 900) ∷ ("3", end) ∷ ("4", response 950) ∷ []

download_run :
    map (λ d. d.ts) (recent_downloads 1000 (some (pos 500)) none responses) ≡ pos 950 ∷ pos 900 ∷ []
unfolding runs
download_run = refl

request_run :
    remember_request 2 "4" end (("1", response 1) ∷ ("2", end) ∷ []) ≡ ("2", end) ∷ ("4", end) ∷ []
unfolding runs
request_run = refl

recent_downloads-take_example :
    recent_downloads 1000 (some (pos 500)) none responses
    ≡ take (clamp_ℤ 1 10 (int_or 3 none)) (
        all_downloads 1000
          (clamp_ℤ 0 60000 (int_or 5000 (some (pos 500))))
          (reverse (metas_of responses)))
recent_downloads-take_example = recent_downloads-take 1000 (some (pos 500)) none responses

abbrev two_requests : Requests ℕ
two_requests = ("1", response 1) ∷ ("2", end) ∷ []
