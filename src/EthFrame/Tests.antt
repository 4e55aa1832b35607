-- ===== src/EthFrame/Tests.antt =====
-- The field functions of assignment2/src/assignment2.c at concrete frames, and their theorems.
use grnvs.Prelude.{◌≡◌, refl, [], ◌∷◌}
use grnvs.EthFrame.{Bytes, get_mac, get_type}

abbrev own : Bytes
own = 2 ∷ 0 ∷ 0 ∷ 0 ∷ 0 ∷ 9 ∷ []

abbrev frame : Bytes
frame = 2 ∷ 0 ∷ 0 ∷ 0 ∷ 0 ∷ 9 ∷ 4 ∷ 4 ∷ 4 ∷ 4 ∷ 4 ∷ 4 ∷ 0x86 ∷ 0xdd ∷ 0x60 ∷ []

fields : (get_type frame ≡ 0x86dd) × (get_mac frame 0 ≡ own)
unfolding get_type get_mac
fields = (refl, refl)
