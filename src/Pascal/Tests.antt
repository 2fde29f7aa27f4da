-- ===== src/Pascal/Tests.antt =====
-- Texts and bytes put through the conversions.
use ele_bbs_go.Base.{refl, [], ◌∷◌, arith}
use ele_bbs_go.Pascal.Cp437.{rune_of, cp437_table}
use ele_bbs_go.Pascal.Text.{trim_right}
use ele_bbs_go.Pascal.Text.ShortString.{FitsString}

-- "é!" fits three bytes.
e_acute-FitsString : FitsString 3 (0xe9 ∷ b'!' ∷ [])
unfolding trim_right rune_of cp437_table
e_acute-FitsString = record {
  short = omega arith;
  has_bytes = ((0x82, omega arith, refl), ((0x21, omega arith, refl), tt));
  no_nul_end = refl;
}
