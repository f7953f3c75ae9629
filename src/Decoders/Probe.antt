-- ===== src/Decoders/Probe.antt =====
-- Finding the programs and listening with them: `exePath`, `probeRole`, `probeVDL2` and
-- `probeADSBBytes` of agent/decoders.go. What the file system, the search path and the child processes
-- answer is an argument.
use flightpatch.Common.{
  ℕ, ◌+◌, Bool, true, false, not, ◌&&◌, List, [], ◌∷◌, Option, none, some, if◌then◌else◌,
  option_else,
}
use flightpatch.Config.{DeviceConfig}
use flightpatch.Decoders.Assign.{adsb_exe_name, vdl2_exe_name, probe_role}
use flightpatch.Decoders.Run.{probe_vdl2}
use flightpatch.Decoders.{Dongle}
use flightpatch.Text.Decimal.{decimal}
use flightpatch.Text.{Str, codes, is_empty}

-- `os.Stat` without an error, `filepath.Join`, and `exec.LookPath`.
pub record Programs : Type 0 where
  pub exists : Str → Bool
  pub join : Str → Str → Str
  pub look_path : Str → Option Str

-- `exePath`
unfoldable pub exe_path : Programs → Str → Str → Option Str
exe_path p dir name =
    let beside = p.join dir name in
    if not (is_empty dir) && p.exists beside then some beside else p.look_path name

-- The command lines of the two probes.
abbrev pub vdl2_probe : DeviceConfig → Dongle → Str → List Str
vdl2_probe cfg d exe =
    exe
    ∷ (codes "--rtlsdr"
        ∷ (decimal d.index
            ∷ (codes "--gain"
                ∷ (cfg.gain
                    ∷ (codes "--output" ∷ (codes "decoded:text:file:path=-" ∷ cfg.vdl2_freqs))))))

abbrev pub probe_port : Str
probe_port = codes "31005"

abbrev pub adsb_probe : Dongle → Str → List Str
adsb_probe d exe =
    exe
    ∷ (codes "--device-index"
        ∷ (decimal d.index
            ∷ (codes "--net"
                ∷ (codes "--net-beast" ∷ (codes "--net-bo-port" ∷ (probe_port ∷ []))))))

-- The reads of a probe for ADS-B, up to the first with an error: the bytes of each, and whether it
-- has one.
unfoldable pub count_bytes : List (ℕ × Bool) → ℕ
count_bytes [] = 0
count_bytes ((n, failed) ∷ reads) = let rest = count_bytes reads in if failed then n else n + rest

-- What such a probe meets: whether the decoder starts, the reads if its port is dialled.
pub record Listening : Type 0 where
  pub starts : Bool
  pub reads : Option (List (ℕ × Bool))

abbrev heard_bytes : Listening → ℕ
heard_bytes l = let n = option_else l.reads 0 count_bytes in if not l.starts then 0 else n

-- What the child processes do with a command line: for VDL2 whether it starts and its lines.
pub record Children : Type 0 where
  pub decodes : List Str → Bool × List Str
  pub listens : List Str → Listening

module _ (p : Programs) (run : Children) (is_windows : Bool) (cfg : DeviceConfig) (d : Dongle) where
  -- `probeVDL2`
  unfoldable pub listen_vdl2 : Bool × ℕ
  listen_vdl2 =
      option_else (exe_path p cfg.decoder_dir (vdl2_exe_name is_windows))
        (probe_vdl2 (record { found = false; starts = false; lines = [] }))
        (λ exe.
          let (starts, lines) = run.decodes (vdl2_probe cfg d exe) in
          probe_vdl2 (record { found = true; starts = starts; lines = lines }))

  -- `probeADSBBytes`
  unfoldable pub probe_adsb_bytes : ℕ
  probe_adsb_bytes =
      option_else (exe_path p cfg.decoder_dir (adsb_exe_name is_windows)) 0
        (λ exe. heard_bytes (run.listens (adsb_probe d exe)))

  -- `probeRole`: the role, and the bytes of ADS-B, which only the log tells, where they are counted.
  unfoldable pub probe_dongle : Str × Option ℕ
  probe_dongle =
      let (heard, lines) = listen_vdl2 in
      let bytes = probe_adsb_bytes in (probe_role heard, if heard then none else some bytes)
