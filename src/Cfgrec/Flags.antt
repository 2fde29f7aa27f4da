-- ===== src/Cfgrec/Flags.antt =====
-- internal/cfgrec/types.go: the access flags A1 to D8, four bytes of eight bits. A byte shifted
-- left is a power of two; `&^` of bytes is `&` with the complement.
pub mod Bits
pub mod Named
pub mod Menu
use Prim.Native.Nat.{bit_and, bit_or, bit_xor}
use ele_bbs_go.Base.{
  ℕ, zero, suc, ◌-◌, ◌/◌, ◌%◌, ◌^◌, Bool, true, false, not, ◌&&◌, List, [], ◌∷◌, Option, none, some,
  Bytes, ltb, leb, ◌==◌, if◌then◌else◌, get_or, set, all_below, length, take, drop,
}
use ele_bbs_go.Pascal.Text.{trim, trim_left}

abbrev pub Flag : Type 0
Flag = Bytes

-- `b & (1 << row) != 0`.
unfoldable pub has_bit : ℕ → ℕ → Bool
has_bit b row = not (bit_and b (2 ^ row) == 0)

-- `Has`, where the bit is at least 0.
unfoldable pub has : Flag → ℕ → Bool
unfolding has_bit
has f bit = if ltb 31 bit then false else has_bit (get_or f (bit / 8) 0) (bit % 8)

-- The body of the loops of `FlagAccess`.
unfoldable pub bit_access : Flag → Flag → Flag → ℕ → ℕ → Bool
bit_access user on off col row =
    let u = has_bit (get_or user col 0) row in
    if has_bit (get_or on col 0) row && not u
    then false
    else if has_bit (get_or off col 0) row && u
    then false
    else true

-- `FlagAccess`: the loops return at the first bit that fails.
unfoldable pub flag_access : Flag → Flag → Flag → Bool
unfolding all_below
flag_access user on off = all_below 4 (λ col. all_below 8 (λ row. bit_access user on off col row))

abbrev upper : ℕ → ℕ
upper letter = if leb b'a' letter && leb letter b'z' then letter - 32 else letter

unfoldable pub flag_col_row : ℕ → ℕ → Option (ℕ × ℕ)
flag_col_row letter digit =
    if not (leb b'A' (upper letter) && leb (upper letter) b'D')
    then none
    else if not (leb b'1' digit && leb digit b'8')
    then none
    else some (upper letter - b'A', digit - b'1')

-- `f[col] |= bit` and `f[col] &^= bit`.
unfoldable pub set_bit : ℕ → ℕ → Bool → ℕ
set_bit b row on = if on then bit_or b (2 ^ row) else bit_and b (255 - 2 ^ row)

unfoldable pub set_pair : Flag → Option (ℕ × ℕ) → Bool → Flag
set_pair f none on = f
set_pair f (some (col, row)) on = set f col (set_bit (get_or f col 0) row on)

unfoldable pub set_named : Flag → Bytes → Bool → Flag
unfolding set_pair
set_named f [] on = f
set_named f (l ∷ []) on = f
set_named f (l ∷ d ∷ which) on = set_named (set_pair f (flag_col_row l d) on) which on

unfoldable pub has_pair : Flag → Option (ℕ × ℕ) → Bool
has_pair f none = true
has_pair f (some (col, row)) = has_bit (get_or f col 0) row

unfoldable pub has_named : Flag → Bytes → Bool
unfolding has_pair
has_named f [] = true
has_named f (l ∷ []) = true
has_named f (l ∷ d ∷ which) = has_pair f (flag_col_row l d) && has_named f which

unfoldable pub toggle_pair : Flag → Option (ℕ × ℕ) → Flag
toggle_pair f none = f
toggle_pair f (some (col, row)) = set f col (bit_xor (get_or f col 0) (2 ^ row))

unfoldable pub toggle_named : Flag → Bytes → Flag
unfolding toggle_pair
toggle_named f [] = f
toggle_named f (l ∷ []) = f
toggle_named f (l ∷ d ∷ which) = toggle_named (toggle_pair f (flag_col_row l d)) which

-- One token of `ChangeMenu`.
unfoldable pub change_token : Flag → ℕ → ℕ → ℕ → Flag
change_token f l d op =
    if op == b'+'
    then set_named f (l ∷ d ∷ []) true
    else if op == b'-'
    then set_named f (l ∷ d ∷ []) false
    else if op == b'*'
    then toggle_named f (l ∷ d ∷ [])
    else f

abbrev pub is_blank : ℕ → Bool
is_blank c = c == b' '

-- The loop of `ChangeMenu`, with a bound on its rounds: each takes three bytes or more.
unfoldable pub change_loop : ℕ → Flag → Bytes → Flag
unfolding change_token
change_loop zero f s = f
change_loop (suc fuel) f [] = f
change_loop (suc fuel) f (l ∷ []) = f
change_loop (suc fuel) f (l ∷ d ∷ []) = f
change_loop (suc fuel) f (l ∷ d ∷ op ∷ s) =
    change_loop fuel (change_token f l d op) (trim_left is_blank (drop 1 s))

-- `ChangeMenu` of an ASCII string.
unfoldable pub change_menu : Flag → Bytes → Flag
change_menu f misc = change_loop (length misc) f (trim misc)
