-- ===== src/Base/Decimal.antt =====
-- Decimal numerals, as Go's strconv prints and reads them.
use ele_bbs_go.Base.Tests.{ltb, leb, ◌==◌, if◌then◌else◌, Bool-cases}
use ele_bbs_go.Base.Lists.{Bytes, length, length-append}
use ele_bbs_go.Base.Int.{ℤ, pos, negsuc}
use Prim.Native.Nat.{ℕ, zero, suc, ◌+◌, ◌-◌, ◌*◌, ◌/◌, ◌%◌, ◌≤◌, ◌<◌}
use mathlib.Core.Path.{◌≡◌, refl, ap, ◌∙◌}
use mathlib.Core.Logic.{inl, inr}
use mathlib.Core.Bool.{Bool, true, false, ◌&&◌}
use mathlib.Core.List.{[], ◌∷◌, ◌++◌}
use mathlib.Core.Option.{Option, none, some}
use native.Mathlib.Omega.{arith}

abbrev pub is_digit : ℕ → Bool
is_digit c = leb b'0' c && leb c b'9'

-- `strconv.Itoa` of a natural number, with a bound on the digits.
pub numeral : ℕ → ℕ → Bytes
numeral zero n = []
numeral (suc fuel) n =
    let rest = numeral fuel (n / 10) in
    if ltb n 10 then (b'0' + n) ∷ [] else rest ++ (b'0' + n % 10) ∷ []

-- A number below 2 ^ 64 has at most 20 digits.
unfoldable pub itoa : ℕ → Bytes
unfolding numeral
itoa n = numeral 20 n

-- The loop of `strconv.ParseUint`: `none` for a byte that is no digit; past 64 bits it stops.
pub parse_uint : ℕ → Bytes → Option ℕ
parse_uint n [] = some n
parse_uint n (c ∷ s) = elim (is_digit c) [
  | false ↦ none
  | true ↦
      let rest = parse_uint (n * 10 + (c - b'0')) s in
      if ltb 18446744073709551615 (n * 10 + (c - b'0')) then some 18446744073709551615 else rest
]

abbrev pub magnitude : Bytes → Option ℕ
unfolding parse_uint
magnitude [] = none
magnitude (c ∷ s) = parse_uint 0 (c ∷ s)

abbrev pub clamp_pos : Option ℕ → ℤ
clamp_pos none = pos 0
clamp_pos (some n) = if leb 9223372036854775808 n then pos 9223372036854775807 else pos n

abbrev pub clamp_neg : Option ℕ → ℤ
clamp_neg none = pos 0
clamp_neg (some zero) = pos 0
clamp_neg (some (suc n)) =
    if leb 9223372036854775808 n then negsuc 9223372036854775807 else negsuc n

-- The value that `strconv.Atoi` returns with or without an error, on a machine of 64 bits.
unfoldable pub atoi : Bytes → ℤ
unfolding parse_uint
atoi [] = pos 0
atoi (c ∷ s) =
    if c == b'-'
    then clamp_neg (magnitude s)
    else if c == b'+'
    then clamp_pos (magnitude s)
    else clamp_pos (magnitude (c ∷ s))

-- Ten to a power.
pub pow10 : ℕ → ℕ
pow10 zero = 1
pow10 (suc k) = 10 * pow10 k

-- The value of a string of digits behind the value `n`.
pub value : ℕ → Bytes → ℕ
value n [] = n
value n (c ∷ s) = value (n * 10 + (c - b'0')) s

unfoldable pub Digits : Bytes → Type 0
Digits [] = Unit
Digits (c ∷ s) = (is_digit c ≡ true) × Digits s

pub value-append : (n : ℕ) (s : Bytes) (c : ℕ) → value n (s ++ c ∷ []) ≡ value n s * 10 + (c - b'0')
unfolding value
value-append n [] c = refl
value-append n (d ∷ s) c = value-append (n * 10 + (d - b'0')) s c

pub Digits-append : (s : Bytes) (c : ℕ) → Digits s → is_digit c ≡ true → Digits (s ++ c ∷ [])
unfolding Digits
Digits-append [] c h e = (e, tt)
Digits-append (d ∷ s) c h e = (h.0, Digits-append s c h.1 e)

pub numeral-value : (fuel n : ℕ) → n < pow10 fuel → value 0 (numeral fuel n) ≡ n
unfolding numeral value pow10
numeral-value zero n h = omega arith
numeral-value (suc fuel) n h = elim (Bool-cases (ltb n 10)) [
  | inl e ↦ rw e (omega arith)
  | inr e ↦ rw e (
      value-append 0 (numeral fuel (n / 10)) (b'0' + n % 10)
      ∙ omega (arith, numeral-value fuel (n / 10) (omega arith)))
]

pub numeral-Digits : (fuel n : ℕ) → Digits (numeral fuel n)
unfolding numeral Digits
numeral-Digits zero n = tt
numeral-Digits (suc fuel) n = elim (Bool-cases (ltb n 10)) [
  | inl e ↦ rw e (ground arith, tt)
  | inr e ↦ rw e (Digits-append _ _ (numeral-Digits fuel (n / 10)) (ground arith))
]

pub length-numeral : (fuel n : ℕ) → length (numeral fuel n) ≤ fuel
unfolding numeral
length-numeral zero n = omega arith
length-numeral (suc fuel) n = elim (Bool-cases (ltb n 10)) [
  | inl e ↦ rw e (omega arith)
  | inr e ↦ rw e (
      omega (
        arith,
        length-numeral fuel (n / 10),
        length-append (numeral fuel (n / 10)) ((b'0' + n % 10) ∷ []),
      ))
]

pub value-grows : (n : ℕ) (s : Bytes) → n ≤ value n s
unfolding value
value-grows n [] = omega arith
value-grows n (c ∷ s) = omega (arith, value-grows (n * 10 + (c - b'0')) s)

pub parse_uint-value :
    (n : ℕ) (s : Bytes)
    → Digits s
    → value n s < 18446744073709551616
    → parse_uint n s ≡ some (value n s)
unfolding parse_uint value Digits
parse_uint-value n [] h l = refl
parse_uint-value n (c ∷ s) h l =
    rw (h.0, parse_uint)
      (rw (small {m = n * 10 + (c - b'0')} (omega (arith, value-grows (n * 10 + (c - b'0')) s)))
        (parse_uint-value (n * 10 + (c - b'0')) s h.1 l))
  where
    small : {m : ℕ} → m < 18446744073709551616 → ltb 18446744073709551615 m ≡ false
    small b = ground arith

-- A numeral has a first digit.
pub itoa-cons : (n : ℕ) → (c : ℕ) × (s : Bytes) × (itoa n ≡ c ∷ s)
unfolding itoa numeral
itoa-cons n = first 19 n
  where
    first : (fuel n : ℕ) → (c : ℕ) × (s : Bytes) × (numeral (suc fuel) n ≡ c ∷ s)
    first zero n = elim (Bool-cases (ltb n 10)) [
      | inl e ↦ (b'0' + n, [], rw e refl)
      | inr e ↦ (b'0' + n % 10, [], rw e refl)
    ]
    first (suc fuel) n = elim (Bool-cases (ltb n 10)) [
      | inl e ↦ (b'0' + n, [], rw e refl)
      | inr e ↦
          let (c, s, p) = first fuel (n / 10) in
          (c, s ++ (b'0' + n % 10) ∷ [], rw e (ap (λ (t : Bytes). t ++ (b'0' + n % 10) ∷ []) p))
    ]

pub itoa-Digits : (n : ℕ) → Digits (itoa n)
unfolding itoa
itoa-Digits n = numeral-Digits 20 n

pub itoa-value : (n : ℕ) → n < 18446744073709551616 → value 0 (itoa n) ≡ n
unfolding itoa
itoa-value n h = numeral-value 20 n (below h)
  where
    below : n < 18446744073709551616 → n < pow10 20
    below h = unfold pow10 in omega arith

pub atoi-value :
    (c : ℕ) (s : Bytes)
    → Digits (c ∷ s)
    → value 0 (c ∷ s) < 9223372036854775808
    → atoi (c ∷ s) ≡ pos (value 0 (c ∷ s))
unfolding atoi
atoi-value c s h l =
    rw
      (
        no_sign c (unfold Digits in h.0) b'-' (omega arith),
        no_sign c (unfold Digits in h.0) b'+' (omega arith),
      )
      (ap clamp_pos (parse_uint-value 0 (c ∷ s) h (omega arith)) ∙ small (value 0 (c ∷ s)) l)
  where
    no_sign : (c : ℕ) → is_digit c ≡ true → (k : ℕ) → k < b'0' → (c == k) ≡ false
    no_sign c e k b = ground arith

    small : (n : ℕ) → n < 9223372036854775808 → clamp_pos (some n) ≡ pos n
    small n b = ground arith

-- What is printed is read back.
pub atoi-itoa : (n : ℕ) → n < 9223372036854775808 → atoi (itoa n) ≡ pos n
atoi-itoa n h =
    let (c, s, e) = itoa-cons n in
    let d : Digits (c ∷ s) = rw (← e) (itoa-Digits n) in
    let v : value 0 (c ∷ s) ≡ n = rw (← e) (itoa-value n (omega arith)) in
    rw e (atoi-value c s d (omega (arith, v)) ∙ ap pos v)
