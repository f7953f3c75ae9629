-- ===== src/Children/Examples.antt =====
-- Children of an agent, and an instance of the theorem on them.
use flightpatch.Children.{
  Spawn, no_job, assign_each, doomed, first_job, assignable, assign_each-doomed,
}
use flightpatch.Common.{true, false, List, [], ◌∷◌, some, if◌then◌else◌, ◌≡◌}

abbrev works : Spawn
works = record { process = some 7; created = 4; limits = true; opens = true; assigns = true }

abbrev spawns : List Spawn
spawns =
    works
    ∷ ((record works { process = some 8; opens = false })
        ∷ (record works { process = some 9 } ∷ []))

assign_each-doomed_example :
    doomed (assign_each spawns no_job) ≡ (if first_job spawns then assignable spawns [] else [])
assign_each-doomed_example = assign_each-doomed spawns
