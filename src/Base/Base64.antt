-- ===== src/Base/Base64.antt =====
-- Go's `base64.StdEncoding`: encoding, and decoding that skips line ends and asks for padding.
pub mod RoundTrip
pub mod Size
use ele_bbs_go.Base.Tests.{leb, ltb, ◌==◌, if◌then◌else◌}
use ele_bbs_go.Base.Lists.{Bytes}
use Prim.Native.Nat.{ℕ, ◌+◌, ◌-◌, ◌*◌, ◌/◌, ◌%◌}
use mathlib.Core.Bool.{Bool, true, false, ◌&&◌, ◌||◌}
use mathlib.Core.List.{List, [], ◌∷◌, ◌++◌}
use mathlib.Core.Option.{Option, none, some}

-- The digit of a number below 64.
unfoldable pub digit : ℕ → ℕ
digit n =
    if ltb n 26
    then b'A' + n
    else if ltb n 52
    then b'a' + (n - 26)
    else if ltb n 62
    then b'0' + (n - 52)
    else if n == 62
    then b'+'
    else b'/'

unfoldable pub digit_value : ℕ → Option ℕ
digit_value c =
    if leb b'A' c && leb c b'Z'
    then some (c - b'A')
    else if leb b'a' c && leb c b'z'
    then some (c - b'a' + 26)
    else if leb b'0' c && leb c b'9'
    then some (c - b'0' + 52)
    else if c == b'+'
    then some 62
    else if c == b'/'
    then some 63
    else none

-- `EncodeToString`.
unfoldable pub encode_base64 : Bytes → Bytes
unfolding digit
encode_base64 [] = []
encode_base64 (a ∷ []) = digit (a / 4) ∷ digit (a % 4 * 16) ∷ b'=' ∷ b'=' ∷ []
encode_base64 (a ∷ b ∷ []) =
    digit (a / 4) ∷ digit (a % 4 * 16 + b / 16) ∷ digit (b % 16 * 4) ∷ b'=' ∷ []
encode_base64 (a ∷ b ∷ c ∷ s) =
    digit (a / 4)
    ∷ digit (a % 4 * 16 + b / 16)
    ∷ digit (b % 16 * 4 + c / 64)
    ∷ digit (c % 64)
    ∷ encode_base64 s

-- One, two or three bytes of four digits.
abbrev one_byte : Option ℕ → Option ℕ → Option Bytes
one_byte (some a) (some b) = some ((a * 4 + b / 16) ∷ [])
one_byte _ _ = none

abbrev two_bytes : Option ℕ → Option ℕ → Option ℕ → Option Bytes
two_bytes (some a) (some b) (some c) = some ((a * 4 + b / 16) ∷ (b % 16 * 16 + c / 4) ∷ [])
two_bytes _ _ _ = none

abbrev three_bytes : Option ℕ → Option ℕ → Option ℕ → Option ℕ → Option Bytes → Option Bytes
three_bytes (some a) (some b) (some c) (some d) (some s) =
    some ((a * 4 + b / 16) ∷ (b % 16 * 16 + c / 4) ∷ (c % 4 * 64 + d) ∷ s)
three_bytes _ _ _ _ _ = none

abbrev last_of : Bytes → Option Bytes → Option Bytes
last_of [] out = out
last_of (c ∷ s) out = none

-- The quanta of four digits of a text without line ends.
unfoldable pub decode_quanta : Bytes → Option Bytes
unfolding digit_value
decode_quanta [] = some []
decode_quanta (a ∷ []) = none
decode_quanta (a ∷ b ∷ []) = none
decode_quanta (a ∷ b ∷ c ∷ []) = none
decode_quanta (a ∷ b ∷ c ∷ d ∷ s) =
    let rest = decode_quanta s in
    if c == b'='
    then (if d == b'=' then last_of s (one_byte (digit_value a) (digit_value b)) else none)
    else if d == b'='
    then last_of s (two_bytes (digit_value a) (digit_value b) (digit_value c))
    else three_bytes (digit_value a) (digit_value b) (digit_value c) (digit_value d) rest

unfoldable pub without_lines : Bytes → Bytes
without_lines [] = []
without_lines (c ∷ s) =
    let rest = without_lines s in if c == b'\r' || c == b'\n' then rest else c ∷ rest

-- `DecodeString`; `none` for an error.
unfoldable pub decode_base64 : Bytes → Option Bytes
unfolding decode_quanta without_lines
decode_base64 s = decode_quanta (without_lines s)
