-- ===== src/Decoders/Run.antt =====
-- The loop `run` of agent/decoders.go: its rounds with what each of them meets, and the end of its
-- context, with `setActive`, the probes, and `writeReceiverInventory` of
-- agent/receiver_inventory.go. The hardware, the child processes, JSON and SHA-256 are arguments.
use flightpatch.Common.{ℕ, suc, Bool, false, not, List, [], ◌∷◌, ◌++◌, Option, if◌then◌else◌, ltb}
use flightpatch.Config.Save.{SaveFaults, replace_with, save}
use flightpatch.Config.{DeviceConfig}
use flightpatch.Decoders.Assign.{bundle_of, assign_roles}
use flightpatch.Decoders.Cycle.{is_empty_list, stop_all, sort_inventory, reconcile}
use flightpatch.Decoders.{Dongle, ReceiverInventory, Manager}
use flightpatch.Dongles.{Cache, Reading, enumerate_dongles}
use flightpatch.Files.{Files}
use flightpatch.Stats.{Stats, notify}
use flightpatch.Text.{Str, str_eq, is_empty, trim_space}

-- `strings.Join(a, "\x00")`
unfoldable pub join_nul : List Str → Str
join_nul [] = []
join_nul (s ∷ []) = s
join_nul (s ∷ (t ∷ rest)) = s ++ (0 ∷ join_nul (t ∷ rest))

-- `setActive`: a changed status wakes the telemetry.
unfoldable pub set_active : List Str → Manager → Stats → Manager × Stats
set_active a m s =
    (record m { status = a }, if str_eq (join_nul m.status) (join_nul a) then s else notify s)

-- What a probe for VDL2 meets: whether there is a program and it starts, and the lines that it puts
-- out within the window.
pub record Probe : Type 0 where
  pub found : Bool
  pub starts : Bool
  pub lines : List Str

unfoldable pub count_lines : List Str → ℕ
count_lines [] = 0
count_lines (l ∷ ls) = if is_empty (trim_space l) then count_lines ls else suc (count_lines ls)

-- `probeVDL2`
unfoldable pub probe_vdl2 : Probe → Bool × ℕ
probe_vdl2 p =
    let lines = count_lines p.lines in
    if not p.found then (false, 0) else if not p.starts then (false, 0) else (ltb 0 lines, lines)

-- `writeReceiverInventory`, to the path of receivers.json.
unfoldable pub write_receiver_inventory :
    (List ReceiverInventory → Option Str)
    → SaveFaults
    → Str
    → List ReceiverInventory
    → Files
    → Bool × Files
write_receiver_inventory document w path receivers fs =
    let written = replace_with w path (document (sort_inventory receivers)) fs in
    if not w.makes_dir then (false, fs) else written

-- What the rounds of `run` work on.
pub record World : Type 0 where
  pub cfg : DeviceConfig
  pub manager : Manager
  pub stats : Stats
  pub cache : Cache
  pub files : Files

-- What a round meets: the settings and the flag as the beats have left them, the libraries, devices
-- and ports, the programs at hand, the probes, and the faults of the files.
pub record Tick : Type 0 where
  pub control : DeviceConfig → DeviceConfig
  pub enabled : Bool
  pub loaded : Bool
  pub readings : List Reading
  pub ports : List Str
  pub found : Str → Bool
  pub is_windows : Bool
  pub probes : Dongle → Probe
  pub saves : SaveFaults
  pub inventory_saves : SaveFaults

-- The savings of `assignRoles`.
unfoldable pub save_all :
    (DeviceConfig → Option Str) → SaveFaults → List DeviceConfig → Files → Files
save_all marshal w [] fs = fs
save_all marshal w (c ∷ cs) fs = save_all marshal w cs (save marshal w c fs).1

module _ (sha256 : Str → Str) (marshal : DeviceConfig → Option Str)
    (document : List ReceiverInventory → Option Str) (inventory_path : Str) where
  -- The round where dongles are found.
  unfoldable pub feed_round : Tick → List Dongle → World → World
  feed_round t dongles w =
      let a =
        assign_roles (bundle_of t.found t.is_windows) (λ d. (probe_vdl2 (t.probes d)).0) dongles
          w.cfg in
      let m = reconcile sha256 a.cfg dongles a.out w.manager in
      record {
        cfg = a.cfg;
        manager = m;
        stats = (set_active m.status w.manager w.stats).1;
        cache = w.cache;
        files =
            (write_receiver_inventory document t.inventory_saves inventory_path m.receivers
              (save_all marshal t.saves a.saved w.files)).1;
      }

  -- The round where feeding is disabled.
  unfoldable pub idle_round : World → World
  idle_round w =
      let m = reconcile sha256 w.cfg [] [] w.manager in
      record w { manager = m; stats = (set_active m.status w.manager w.stats).1 }

  unfoldable pub round : Tick → World → World
  round t w =
      let m : Manager = record w.manager { enabled = t.enabled } in
      let w' : World = record w { cfg = t.control w.cfg; manager = m } in
      let (dongles, cache) = enumerate_dongles t.loaded t.readings t.ports w.cache in
      let seen : World = record w' { cache = cache } in
      let idle = idle_round w' in
      let feed = feed_round t dongles seen in
      if not t.enabled then idle else if is_empty_list dongles then seen else feed

  unfoldable pub rounds : List Tick → World → World
  rounds [] w = w
  rounds (t ∷ ts) w = rounds ts (round t w)

  -- `run`, until its context ends.
  unfoldable pub run : List Tick → World → World
  run ts w =
      let last = rounds ts w in
      let m = stop_all last.manager in
      record last { manager = m; stats = (set_active m.status last.manager last.stats).1 }
