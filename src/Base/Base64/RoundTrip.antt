-- ===== src/Base/Base64/RoundTrip.antt =====
-- Base64 text of any bytes decodes to them.
use ele_bbs_go.Base.Tests.{◌==◌}
use ele_bbs_go.Base.Lists.{Bytes, All, IsByte}
use ele_bbs_go.Base.Base64.{
  digit, digit_value, encode_base64, decode_quanta, without_lines, decode_base64,
}
use Prim.Native.Nat.{ℕ, ◌+◌, ◌*◌, ◌/◌, ◌%◌, ◌<◌}
use mathlib.Core.Path.{◌≡◌, refl, ap, ◌∙◌}
use mathlib.Core.Bool.{false}
use mathlib.Core.List.{[], ◌∷◌}
use mathlib.Core.Option.{some}
use native.Mathlib.Omega.{arith}

pub digit_value-digit : (n : ℕ) → n < 64 → digit_value (digit n) ≡ some n
unfolding digit digit_value
digit_value-digit n h = ground arith

digit_proper :
    (n : ℕ)
    → ((digit n == b'=') ≡ false) × ((digit n == b'\r') ≡ false) × ((digit n == b'\n') ≡ false)
unfolding digit
digit_proper n = ground arith

skip_digit : (n : ℕ) (s : Bytes) → without_lines (digit n ∷ s) ≡ digit n ∷ without_lines s
unfolding without_lines
skip_digit n s = let (p, q, r) = digit_proper n in rw (q, r) refl

encoded_lines : (s : Bytes) → without_lines (encode_base64 s) ≡ encode_base64 s
unfolding encode_base64
encoded_lines [] = unfold without_lines in refl
encoded_lines (a ∷ []) =
    skip_digit (a / 4) _
    ∙ ap (◌∷◌ (digit (a / 4))) (skip_digit (a % 4 * 16) _ ∙ (unfold without_lines in refl))
encoded_lines (a ∷ b ∷ []) =
    skip_digit (a / 4) _
    ∙ ap (◌∷◌ (digit (a / 4))) (
        skip_digit (a % 4 * 16 + b / 16) _
        ∙ ap (◌∷◌ (digit (a % 4 * 16 + b / 16)))
            (skip_digit (b % 16 * 4) _ ∙ (unfold without_lines in refl)))
encoded_lines (a ∷ b ∷ c ∷ s) =
    skip_digit (a / 4) _
    ∙ ap (◌∷◌ (digit (a / 4))) (
        skip_digit (a % 4 * 16 + b / 16) _
        ∙ ap (◌∷◌ (digit (a % 4 * 16 + b / 16))) (
            skip_digit (b % 16 * 4 + c / 64) _
            ∙ ap (◌∷◌ (digit (b % 16 * 4 + c / 64)))
                (skip_digit (c % 64) _ ∙ ap (◌∷◌ (digit (c % 64))) (encoded_lines s))))

two_equal : {x y a b : ℕ} (s : Bytes) → x ≡ a → y ≡ b → some (x ∷ y ∷ s) ≡ some (a ∷ b ∷ s)
two_equal s p q = rw (p, q) refl

three_equal :
    {x y z a b c : ℕ} (s : Bytes)
    → x ≡ a
    → y ≡ b
    → z ≡ c
    → some (x ∷ y ∷ z ∷ s) ≡ some (a ∷ b ∷ c ∷ s)
three_equal s p q r = rw (p, q, r) refl

decode_quanta-encode_base64 : (s : Bytes) → All IsByte s → decode_quanta (encode_base64 s) ≡ some s
unfolding encode_base64 decode_quanta
decode_quanta-encode_base64 [] h = refl
decode_quanta-encode_base64 (a ∷ []) h =
    rw
      (digit_value-digit (a / 4) (omega (arith, h.0)), digit_value-digit (a % 4 * 16) (omega arith))
      (ap (λ x. some (x ∷ [])) {x = a / 4 * 4 + a % 4 * 16 / 16} {y = a} (omega arith))
decode_quanta-encode_base64 (a ∷ b ∷ []) h =
    rw
      (
        (digit_proper (b % 16 * 4)).0,
        digit_value-digit (a / 4) (omega (arith, h.0)),
        digit_value-digit (a % 4 * 16 + b / 16) (omega (arith, h.1.0)),
        digit_value-digit (b % 16 * 4) (omega arith),
      )
      (two_equal [] (omega (arith, h.1.0)) (omega (arith, h.1.0)))
decode_quanta-encode_base64 (a ∷ b ∷ c ∷ s) h =
    rw
      (
        (digit_proper (b % 16 * 4 + c / 64)).0,
        (digit_proper (c % 64)).0,
        digit_value-digit (a / 4) (omega (arith, h.0)),
        digit_value-digit (a % 4 * 16 + b / 16) (omega (arith, h.1.0)),
        digit_value-digit (b % 16 * 4 + c / 64) (omega (arith, h.1.1.0)),
        digit_value-digit (c % 64) (omega arith),
        decode_quanta-encode_base64 s h.1.1.1,
      )
      (three_equal s (omega (arith, h.1.0)) (omega (arith, h.1.0, h.1.1.0))
        (omega (arith, h.1.1.0)))

-- Base64 text of any bytes decodes to them.
pub decode_base64-encode_base64 :
    (p : Bytes) → All IsByte p → decode_base64 (encode_base64 p) ≡ some p
unfolding decode_base64
decode_base64-encode_base64 p h =
    ap decode_quanta (encoded_lines p) ∙ decode_quanta-encode_base64 p h
