-- ===== src/ConnLimit/Tests.antt =====
-- A limiter of two connections for each address: the theorems at concrete inputs.
use woongkie_talkie.Base.{◌≤◌, List, [], ◌∷◌}
use woongkie_talkie.ConnLimit.Admission.{connections}
use woongkie_talkie.ConnLimit.Bounds.{Op, arrives, departs, cleans, run, idle_server, run-bounded}

abbrev visits : List Op
visits =
    arrives "10.0.0.1" 1
    ∷ arrives "10.0.0.1" 2
    ∷ arrives "10.0.0.1" 3
    ∷ departs "10.0.0.1" 0 4
    ∷ cleans 9
    ∷ arrives "10.0.0.1" 10
    ∷ []

run-bounded_example : connections "10.0.0.1" (run visits (idle_server 2)).open_ ≤ 2
run-bounded_example = run-bounded 2 visits "10.0.0.1"
