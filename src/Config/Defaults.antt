-- ===== src/Config/Defaults.antt =====
-- What `LoadConfig` hands to the rest of the agent.
use flightpatch.Common.{false, [], Option, ◌≡◌, ◌≢◌, arith}
use flightpatch.Config.{DeviceConfig, fill_defaults}
use flightpatch.Text.{Str, is_empty}

-- The settings that the agent cannot work without are all there.
pub record IsComplete (c : DeviceConfig) : Type 0 where
  pub server : is_empty c.server ≡ false
  pub feed : is_empty c.feed ≡ false
  pub local_beast : is_empty c.local_beast ≡ false
  pub vdl2_feed : is_empty c.vdl2_feed ≡ false
  pub local_vdl2 : is_empty c.local_vdl2 ≡ false
  pub gain : is_empty c.gain ≡ false
  pub default_role : is_empty c.default_role ≡ false
  pub vdl2_freqs : c.vdl2_freqs ≢ []

-- Loaded settings are complete, whatever the file held.
pub fill_defaults-IsComplete :
    (exe_dir : Option Str) (c : DeviceConfig) → IsComplete (fill_defaults exe_dir c)
unfolding fill_defaults
fill_defaults-IsComplete exe_dir c = ground arith

-- Where settings are complete and name a decoder directory, loading changes nothing: what was saved
-- comes back, the identity and the roles with it.
pub fill_defaults-eq :
    (exe_dir : Option Str) (c : DeviceConfig)
    → IsComplete c
    → is_empty c.decoder_dir ≡ false
    → fill_defaults exe_dir c ≡ c
unfolding fill_defaults
fill_defaults-eq exe_dir c h d = ground arith
