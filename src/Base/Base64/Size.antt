-- ===== src/Base/Base64/Size.antt =====
-- Decoding base64 never lengthens.
use ele_bbs_go.Base.Tests.{◌==◌, if_both}
use mathlib.Core.Bool.{◌||◌}
use ele_bbs_go.Base.Lists.{Bytes, length}
use Prim.Native.Nat.{ℕ, ◌+◌, ◌≤◌}
use native.Mathlib.Omega.{arith}
use mathlib.Core.List.{[], ◌∷◌}
use mathlib.Core.Option.{Option, none, some}
use ele_bbs_go.Base.Base64.{
  digit_value, one_byte, two_bytes, three_bytes, last_of, decode_quanta, without_lines,
  decode_base64,
}

-- The bytes of a result, none for an error.
abbrev pub size_of : Option Bytes → ℕ
size_of none = 0
size_of (some b) = length b

length-last_of : (s : Bytes) (out : Option Bytes) → size_of (last_of s out) ≤ size_of out
length-last_of [] out = omega arith
length-last_of (c ∷ s) out = omega arith

length-one_byte : (a b : Option ℕ) → size_of (one_byte a b) ≤ 1
length-one_byte (some a) (some b) = omega arith
length-one_byte (some a) none = omega arith
length-one_byte none b = omega arith

length-two_bytes : (a b c : Option ℕ) → size_of (two_bytes a b c) ≤ 2
length-two_bytes (some a) (some b) (some c) = omega arith
length-two_bytes (some a) (some b) none = omega arith
length-two_bytes (some a) none c = omega arith
length-two_bytes none b c = omega arith

length-three_bytes :
    (a b c d : Option ℕ) (out : Option Bytes) → size_of (three_bytes a b c d out) ≤ size_of out + 3
length-three_bytes (some a) (some b) (some c) (some d) (some s) = omega arith
length-three_bytes (some a) (some b) (some c) (some d) none = omega arith
length-three_bytes (some a) (some b) (some c) none out = omega arith
length-three_bytes (some a) (some b) none d out = omega arith
length-three_bytes (some a) none c d out = omega arith
length-three_bytes none b c d out = omega arith

length-decode_quanta : (s : Bytes) → size_of (decode_quanta s) ≤ length s
unfolding decode_quanta
length-decode_quanta [] = omega arith
length-decode_quanta (a ∷ []) = omega arith
length-decode_quanta (a ∷ b ∷ []) = omega arith
length-decode_quanta (a ∷ b ∷ c ∷ []) = omega arith
length-decode_quanta (a ∷ b ∷ c ∷ d ∷ s) =
    let one = one_byte (digit_value a) (digit_value b) in
    let two = two_bytes (digit_value a) (digit_value b) (digit_value c) in
    if_both (λ r. size_of r ≤ length (a ∷ b ∷ c ∷ d ∷ s)) (c == b'=')
      (if_both (λ r. size_of r ≤ length (a ∷ b ∷ c ∷ d ∷ s)) (d == b'=')
        (omega (arith, length-last_of s one, length-one_byte (digit_value a) (digit_value b)))
        (omega arith))
      (if_both (λ r. size_of r ≤ length (a ∷ b ∷ c ∷ d ∷ s)) (d == b'=')
        (omega (
          arith,
          length-last_of s two,
          length-two_bytes (digit_value a) (digit_value b) (digit_value c),
        ))
        (omega (
          arith,
          length-three_bytes (digit_value a) (digit_value b) (digit_value c) (digit_value d)
              (decode_quanta s),
          length-decode_quanta s,
        )))

length-without_lines : (s : Bytes) → length (without_lines s) ≤ length s
unfolding without_lines
length-without_lines [] = omega arith
length-without_lines (c ∷ s) =
    if_both (λ (r : Bytes). length r ≤ length (c ∷ s)) (c == b'\r' || c == b'\n')
      (omega (arith, length-without_lines s)) (omega (arith, length-without_lines s))

pub length-decode_base64 : (s : Bytes) → size_of (decode_base64 s) ≤ length s
unfolding decode_base64
length-decode_base64 s =
    omega (arith, length-decode_quanta (without_lines s), length-without_lines s)
