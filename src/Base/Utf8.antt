-- ===== src/Base/Utf8.antt =====
-- UTF-8 as Go decodes and encodes it.
use ele_bbs_go.Base.Tests.{leb, ltb, ◌==◌, if◌then◌else◌}
use ele_bbs_go.Base.Lists.{Bytes, drop, length}
use Prim.Native.Nat.{ℕ, zero, suc, ◌+◌, ◌-◌, ◌*◌, ◌/◌, ◌%◌}
use mathlib.Core.Bool.{Bool, ◌&&◌}
use mathlib.Core.List.{List, [], ◌∷◌, ◌++◌}

-- `WriteRune`, for a rune that is a Unicode character.
unfoldable pub encode_rune : ℕ → Bytes
encode_rune r =
    if ltb r 0x80
    then r ∷ []
    else if ltb r 0x800
    then (0xc0 + r / 64) ∷ (0x80 + r % 64) ∷ []
    else if ltb r 0x10000
    then (0xe0 + r / 4096) ∷ (0x80 + r / 64 % 64) ∷ (0x80 + r % 64) ∷ []
    else (0xf0 + r / 262144) ∷ (0x80 + r / 4096 % 64) ∷ (0x80 + r / 64 % 64) ∷ (0x80 + r % 64) ∷ []

-- The bytes of a Go string with these characters.
unfoldable pub utf8 : List ℕ → Bytes
unfolding encode_rune
utf8 [] = []
utf8 (r ∷ s) = encode_rune r ++ utf8 s

abbrev cont : ℕ → Bool
cont c = leb 0x80 c && leb c 0xbf

-- A rune and its width: U+FFFD and one byte where the encoding is wrong.
abbrev bad : ℕ × ℕ
bad = (0xfffd, 1)

-- The bounds of the second byte, by the first.
abbrev second_of_three : ℕ → ℕ → Bool
second_of_three a b =
    if a == 0xe0
    then leb 0xa0 b && leb b 0xbf
    else if a == 0xed
    then leb 0x80 b && leb b 0x9f
    else cont b

abbrev second_of_four : ℕ → ℕ → Bool
second_of_four a b =
    if a == 0xf0
    then leb 0x90 b && leb b 0xbf
    else if a == 0xf4
    then leb 0x80 b && leb b 0x8f
    else cont b

unfoldable pub decode_two : ℕ → ℕ → ℕ × ℕ
decode_two a b =
    if leb 0xc2 a && leb a 0xdf && cont b then ((a - 0xc0) * 64 + (b - 0x80), 2) else bad

unfoldable pub decode_three : ℕ → ℕ → ℕ → ℕ × ℕ
unfolding decode_two
decode_three a b c =
    if leb 0xe0 a && leb a 0xef
    then (if second_of_three a b && cont c
        then ((a - 0xe0) * 4096 + (b - 0x80) * 64 + (c - 0x80), 3)
        else bad)
    else decode_two a b

unfoldable pub decode_four : ℕ → ℕ → ℕ → ℕ → ℕ × ℕ
unfolding decode_three
decode_four a b c d =
    if leb 0xf0 a && leb a 0xf4
    then (if second_of_four a b && cont c && cont d
        then ((a - 0xf0) * 262144 + (b - 0x80) * 4096 + (c - 0x80) * 64 + (d - 0x80), 4)
        else bad)
    else decode_three a b c

-- `DecodeRuneInString` of a string that is not empty: its first byte and the rest.
unfoldable pub decode_rune : ℕ → Bytes → ℕ × ℕ
unfolding decode_two decode_three decode_four
decode_rune a s = if ltb a 0x80 then (a, 1) else longer s
  where
    longer : Bytes → ℕ × ℕ
    longer [] = bad
    longer (b ∷ []) = decode_two a b
    longer (b ∷ c ∷ []) = decode_three a b c
    longer (b ∷ c ∷ d ∷ s') = decode_four a b c d

-- The characters of a Go string, as `range` gives them, for a number of rounds.
unfoldable pub runes_loop : ℕ → Bytes → List ℕ
unfolding decode_rune
runes_loop zero s = []
runes_loop (suc fuel) [] = []
runes_loop (suc fuel) (a ∷ s) = let (r, n) = decode_rune a s in r ∷ runes_loop fuel (drop n (a ∷ s))

unfoldable pub runes : Bytes → List ℕ
unfolding runes_loop
runes s = runes_loop (length s) s
