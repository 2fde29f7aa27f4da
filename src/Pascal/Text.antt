-- ===== src/Pascal/Text.antt =====
-- internal/pascal/string.go: Pascal ShortStrings and the text helpers that names are compared by.
pub mod Fold
pub mod ShortString
use ele_bbs_go.Base.{
  ℕ, ◌+◌, ◌-◌, ◌%◌, Bool, true, false, ◌&&◌, ◌||◌, List, [], ◌∷◌, ◌++◌, map, Bytes, ltb, leb, ◌==◌,
  if◌then◌else◌, length, take, drop, replicate,
}
use ele_bbs_go.Pascal.Cp437.{Text, from_cp437, to_cp437}

-- `strings.TrimRight` and `strings.TrimLeft` by a test on runes.
unfoldable pub trim_right : (ℕ → Bool) → Text → Text
trim_right p [] = []
trim_right p (c ∷ s) = elim (trim_right p s) [
  | [] ↦ if p c then [] else c ∷ []
  | x ∷ xs ↦ c ∷ x ∷ xs
]

unfoldable pub trim_left : (ℕ → Bool) → Text → Text
trim_left p [] = []
trim_left p (c ∷ s) = if p c then trim_left p s else c ∷ s

abbrev pub is_nul : ℕ → Bool
is_nul c = c == 0

-- `unicode.IsSpace`.
unfoldable pub is_space : ℕ → Bool
is_space c =
    leb 0x09 c && leb c 0x0d
    || c == 0x20
    || c == 0x85
    || c == 0xa0
    || c == 0x1680
    || leb 0x2000 c && leb c 0x200a
    || c == 0x2028
    || c == 0x2029
    || c == 0x202f
    || c == 0x205f
    || c == 0x3000

-- `Trim`: `strings.TrimSpace`.
unfoldable pub trim : Text → Text
unfolding trim_left trim_right is_space
trim s = trim_right is_space (trim_left is_space s)

-- `String`: the length byte is clipped to what the buffer holds.
unfoldable pub string : Bytes → Text
unfolding trim_right from_cp437
string [] = []
string (n ∷ b) =
    let n' = if ltb (length b) n then length b else n in trim_right is_nul (from_cp437 (take n' b))

-- `PutString` overwrites the whole buffer: length byte, text, zeros.
unfoldable pub put_string : Bytes → Text → Bytes
unfolding to_cp437
put_string [] s = []
put_string (_ ∷ b) s =
    let raw = take (length b) (to_cp437 s) in
    (length raw % 256) ∷ (raw ++ replicate (length b - length raw) 0)

-- One round of the loop of `UpCase`.
unfoldable pub upper_byte : ℕ → ℕ
upper_byte c = if leb b'a' c && leb c b'z' then c - 32 else c

unfoldable pub up_case : Text → Text
unfolding upper_byte from_cp437 to_cp437
up_case s = from_cp437 (map upper_byte (to_cp437 s))

-- The loop of `NoDoubleSpace`; the flag is `prevSpace`.
pub no_double_space_loop : Bool → Text → Text
unfolding is_space
no_double_space_loop prev_space [] = []
no_double_space_loop prev_space (r ∷ s) = elim (is_space r) [
  | true ↦ if prev_space then no_double_space_loop true s else b' ' ∷ no_double_space_loop true s
  | false ↦ r ∷ no_double_space_loop false s
]

unfoldable pub no_double_space : Text → Text
unfolding no_double_space_loop
no_double_space s = no_double_space_loop false s

-- `ForceBack`.
pub slash_to_back : ℕ → ℕ
slash_to_back c = if c == b'/' then b'\\' else c

pub ends_with_back : Text → Bool
ends_with_back [] = false
ends_with_back (c ∷ []) = c == b'\\'
ends_with_back (c ∷ d ∷ s) = ends_with_back (d ∷ s)

pub end_with_back : Text → Text
unfolding ends_with_back
end_with_back [] = []
end_with_back (c ∷ s) = if ends_with_back (c ∷ s) then c ∷ s else (c ∷ s) ++ b'\\' ∷ []

unfoldable pub force_back : Text → Text
unfolding slash_to_back end_with_back
force_back p = end_with_back (map slash_to_back p)
