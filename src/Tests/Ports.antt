-- ===== src/Tests/Ports.antt =====
-- Runs of the ports that the gateway tries.
use browser.Prelude.{String, ◌≡◌, refl, Option, some, [], ◌∷◌, ◌==◌, All}
use browser.Prelude.Int.{ℤ, pos, negsuc}
use browser.Text
use browser.Text.{strip}
use browser.Telemetry.{clamp_ℤ}
use browser.Gateway.{has_id}
use browser.Gateway.Ports.{
  read_digits, match_range, base_port, add_between, span_of, port_candidates,
}
use browser.Gateway.Ports.Lists.{IsPort, NoDup, add_port, add_range}
use browser.Gateway.Ports.Candidates.{StartsAt, IsShort, port_candidates_lem}

-- Opens what the runs below compute with.
runs : Unit {0}
unfolding strip Text.lstrip_by Text.rstrip_by Text.is_space Text.split_once Text.all_digits clamp_ℤ
    has_id read_digits match_range add_between span_of port_candidates add_port add_range
runs = tt

-- The span is read as two.
abbrev two : String → Option ℤ
two s = some (pos 2)

plain_run : port_candidates two (pos 9000) "" "2" ≡ 9000 ∷ 9001 ∷ 9002 ∷ []
unfolding runs
plain_run = refl

top_run : port_candidates two (pos 65534) "" "2" ≡ 65534 ∷ 65535 ∷ []
unfolding runs
top_run = refl

range_run : port_candidates two (pos 9000) " 82 - 80 " "" ≡ 9000 ∷ 80 ∷ 81 ∷ 82 ∷ []
unfolding runs
range_run = refl

negative_run : port_candidates two (negsuc 0) "" "2" ≡ 1 ∷ []
unfolding runs
negative_run = refl

port_candidates_lem_example :
    ((All IsPort (port_candidates two (pos 9000) " 82 - 80 " "")
        × NoDup (port_candidates two (pos 9000) " 82 - 80 " ""))
      × StartsAt (base_port (pos 9000)) (port_candidates two (pos 9000) " 82 - 80 " ""))
    × IsShort (strip " 82 - 80 " == "") (port_candidates two (pos 9000) " 82 - 80 " "")
port_candidates_lem_example = port_candidates_lem two (pos 9000) " 82 - 80 " ""
