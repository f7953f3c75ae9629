-- ===== src/Decoders/Inventory.antt =====
-- The file of `writeReceiverInventory` in agent/receiver_inventory.go.
use flightpatch.Common.{List, Option, some, ◌≡◌, inl, inr, Bool-cases}
use flightpatch.Config.Save.{SaveFaults, IsOld, Replaced, replace_lem, refused_lem}
use flightpatch.Decoders.Cycle.{sort_inventory}
use flightpatch.Decoders.Run.{write_receiver_inventory}
use flightpatch.Decoders.{ReceiverInventory}
use flightpatch.Files.{Files}
use flightpatch.Text.{Str}

-- A reader of the inventory never meets a part of it: where the old file, or what is not there, is at
-- the path, and every earlier disk has it or the new one, every disk since has the old file or all of
-- the new one, which lists the receivers in order; the new one is there at the end if the call
-- succeeds, and the old one if it fails.
pub write_receiver_inventory-Replaced :
    (document : List ReceiverInventory → Option Str) (w : SaveFaults) (path : Str)
    (receivers : List ReceiverInventory) (fs : Files) (old : Option Str) (b : Str)
    → document (sort_inventory receivers) ≡ some b
    → IsOld path old b fs
    → Replaced path old b (write_receiver_inventory document w path receivers fs)
unfolding write_receiver_inventory
write_receiver_inventory-Replaced document w path receivers fs old b e h =
    elim (Bool-cases w.makes_dir) [
      | inl made ↦ rw made (rw e (replace_lem path old b w.writes w.renames fs h))
      | inr failed ↦ rw failed (refused_lem path old b fs h)
    ]
