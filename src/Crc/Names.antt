-- ===== src/Crc/Names.antt =====
-- The checksums under which users and message recipients are indexed.
use ele_bbs_go.Base.{ℕ, ◌≡◌, refl, ap₂, true, [], ◌∷◌, map, arith, Bytes}
use ele_bbs_go.Pascal.Cp437.{Text, to_cp437}
use ele_bbs_go.Pascal.Text.{upper_byte, up_case}
use ele_bbs_go.Pascal.Text.Fold.{up_case_idem, to_cp437-up_case}
use ele_bbs_go.Crc.{ra, lower_byte, jam}

-- A forced checksum does not depend on the case of the name.
pub ra-up_case : (s : Text) → ra (up_case s) true ≡ ra s true
unfolding ra
ra-up_case s = rw (up_case_idem s)

lower_byte-upper_byte : (c : ℕ) → lower_byte (upper_byte c) ≡ lower_byte c
unfolding lower_byte upper_byte
lower_byte-upper_byte c = ground arith

map-lower_byte-upper_byte : (b : Bytes) → map lower_byte (map upper_byte b) ≡ map lower_byte b
map-lower_byte-upper_byte [] = refl
map-lower_byte-upper_byte (c ∷ b) = ap₂ ◌∷◌ (lower_byte-upper_byte c) (map-lower_byte-upper_byte b)

-- A recipient's checksum does not depend on the case of the name.
pub jam-up_case : (s : Text) → jam (up_case s) ≡ jam s
unfolding jam
jam-up_case s = rw (to_cp437-up_case s) (rw (map-lower_byte-upper_byte (to_cp437 s)))
