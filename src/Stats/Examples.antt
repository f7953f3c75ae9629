-- ===== src/Stats/Examples.antt =====
-- The cases of agent/stats_test.go, and instances of the theorems on the counters.
use flightpatch.Common.{ℕ, ◌<◌, true, false, List, [], ◌∷◌, ◌++◌, some, ◌≡◌, refl, arith}
use flightpatch.Stats.Links.{Link, tcp, udp, is_up}
use flightpatch.Stats.Race.Log.{settled, made, logged, last_value, run_schedule-links}
use flightpatch.Stats.Race.{Thread, setting, run_schedule}
use flightpatch.Stats.{Stats, new_stats, set_link, set_connected, vdl2_link_bit, next_links}

-- ADS-B and VDL2 come up, and ADS-B drops.
abbrev one_left : Stats
one_left = set_connected (set_link (set_connected new_stats true) vdl2_link_bit true) false

one_left_connected : one_left.connected ≡ 1
unfolding set_connected set_link next_links new_stats
one_left_connected = refl

-- Two ADS-B receivers share one bit: the drop of one hides the other.
shared_bit : (set_connected (set_connected (set_connected new_stats true) true) false).connected ≡ 0
unfolding set_connected set_link next_links new_stats
shared_bit = refl

abbrev fed : Stats
fed = record { bytes_fed = 0; connected = 1; links = 1; channel = some false }

abbrev schedule : List ℕ
schedule = 0 ∷ 1 ∷ 0 ∷ 1 ∷ 1 ∷ 1 ∷ []

abbrev both : List Thread
both = setting 1 false ∷ setting 2 true ∷ []

fed-small : fed.links < 4
fed-small = omega arith

-- The second thread's first comparison fails.
run_schedule-links_example :
    ((i : ℕ)
      → settled i both ++ made i (logged schedule both fed)
        ≡ settled i (run_schedule schedule both fed).1)
    × ((m : Link)
        → is_up m (run_schedule schedule both fed).0.links
          ≡ last_value m (logged schedule both fed) (is_up m fed.links))
run_schedule-links_example =
    run_schedule-links schedule both fed ((tcp, refl), ((udp, refl), tt)) fed-small
