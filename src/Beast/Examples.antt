-- ===== src/Beast/Examples.antt =====
-- Tests on the inputs of agent/uat_test.go and agent/receiver_identity_test.go, and instances of
-- the theorems on frames.
use flightpatch.Common.{[], ◌∷◌, none, some, ◌≡◌, refl}
use flightpatch.Text.{Str, codes}
use flightpatch.Beast.{avr_to_beast, beast_receiver_frame}

abbrev identity : Str
identity = 1 ∷ 2 ∷ 0x1a ∷ 3 ∷ 4 ∷ 5 ∷ 6 ∷ 7 ∷ []

receiver_frame_escapes :
    beast_receiver_frame identity ≡ 0x1a ∷ 0xe3 ∷ 1 ∷ 2 ∷ 0x1a ∷ 0x1a ∷ 3 ∷ 4 ∷ 5 ∷ 6 ∷ 7 ∷ []
unfolding beast_receiver_frame
receiver_frame_escapes = refl

receiver_frame_rejects : beast_receiver_frame (1 ∷ []) ≡ []
unfolding beast_receiver_frame
receiver_frame_rejects = refl

abbrev escaping_line : Str
escaping_line = codes "*1A000000000000;"

abbrev escaping_frame : Str
escaping_frame =
    0x1a ∷ 0x32 ∷ 0 ∷ 0 ∷ 0 ∷ 0 ∷ 0 ∷ 0 ∷ 0x80 ∷ 0x1a ∷ 0x1a ∷ 0 ∷ 0 ∷ 0 ∷ 0 ∷ 0 ∷ 0 ∷ []

avr_to_beast_escapes : avr_to_beast escaping_line ≡ some escaping_frame
unfolding avr_to_beast
avr_to_beast_escapes = refl

avr_to_beast_rejects : avr_to_beast (codes "not-a-frame") ≡ none
unfolding avr_to_beast
avr_to_beast_rejects = refl
