-- ===== src/Base/Xor.antt =====
-- Exclusive or at variables: the law of the lowest digit, and from it the group laws.
use Prim.Native.Nat.{
  ℕ, zero, suc, ◌+◌, ◌*◌, ◌/◌, ◌%◌, ◌^◌, ◌≤◌, ◌<◌, bit_xor, digits, differ, bit_xor-bitwise,
}
use mathlib.Core.Path.{◌≡◌, refl, ap, ap₂, ◌∙◌, sym}
use native.Mathlib.Nat.{le_refl, pow-suc}
use native.Mathlib.Omega.{arith}

abbrev xor_digits : ℕ → ℕ → ℕ → ℕ
xor_digits n a b = digits (λ b. b) differ n a b

xor_digits_fuel : (n m a b : ℕ) → a ≤ n → a ≤ m → xor_digits n a b ≡ xor_digits m a b
xor_digits_fuel zero zero a b p q = refl
xor_digits_fuel zero (suc m) zero b p q = refl
xor_digits_fuel zero (suc m) (suc a) b p q = absurd (omega arith)
xor_digits_fuel (suc n) zero zero b p q = refl
xor_digits_fuel (suc n) zero (suc a) b p q = absurd (omega arith)
xor_digits_fuel (suc n) (suc m) zero b p q = refl
xor_digits_fuel (suc n) (suc m) (suc a) b p q =
    omega (arith, xor_digits_fuel n m (suc a / 2) (b / 2) (omega arith) (omega arith))

differ_bits : (x y : ℕ) → x < 2 → y < 2 → differ x y ≡ (x + y) % 2
differ_bits zero zero p q = refl
differ_bits zero (suc zero) p q = refl
differ_bits (suc zero) zero p q = refl
differ_bits (suc zero) (suc zero) p q = refl
differ_bits zero (suc (suc y)) p q = absurd (omega arith)
differ_bits (suc zero) (suc (suc y)) p q = absurd (omega arith)
differ_bits (suc (suc x)) y p q = absurd (omega arith)

pub zero-bit_xor : (b : ℕ) → bit_xor 0 b ≡ b
zero-bit_xor b = bit_xor-bitwise 0 b

pub bit_xor_step : (a b : ℕ) → bit_xor a b ≡ bit_xor (a / 2) (b / 2) * 2 + (a % 2 + b % 2) % 2
bit_xor_step zero b = omega (arith, zero-bit_xor b, zero-bit_xor (b / 2))
bit_xor_step (suc a) b = omega (
  arith,
  bit_xor-bitwise (suc a) b,
  bit_xor-bitwise (suc a / 2) (b / 2),
  differ_bits (suc a % 2) (b % 2) (omega arith) (omega arith),
  xor_digits_fuel a (suc a / 2) (suc a / 2) (b / 2) (omega arith) (omega arith),
)

pub xor_half : (a b : ℕ) → bit_xor a b / 2 ≡ bit_xor (a / 2) (b / 2)
xor_half a b = omega (arith, bit_xor_step a b)

pub xor_low : (a b : ℕ) → bit_xor a b % 2 ≡ (a % 2 + b % 2) % 2
xor_low a b = omega (arith, bit_xor_step a b)

xor_comm_fuel : (n a b : ℕ) → a ≤ n → b ≤ n → bit_xor a b ≡ bit_xor b a
xor_comm_fuel zero zero zero p q = refl
xor_comm_fuel zero (suc a) b p q = absurd (omega arith)
xor_comm_fuel zero zero (suc b) p q = absurd (omega arith)
xor_comm_fuel (suc n) a b p q = omega (
  arith,
  bit_xor_step a b,
  bit_xor_step b a,
  xor_comm_fuel n (a / 2) (b / 2) (omega arith) (omega arith),
)

pub xor_comm : (a b : ℕ) → bit_xor a b ≡ bit_xor b a
xor_comm a b = xor_comm_fuel (a + b) a b (omega arith) (omega arith)

pub bit_xor-zero : (a : ℕ) → bit_xor a 0 ≡ a
bit_xor-zero a = xor_comm a 0 ∙ zero-bit_xor a

xor_assoc_fuel :
    (n a b c : ℕ) → a ≤ n → b ≤ n → c ≤ n → bit_xor (bit_xor a b) c ≡ bit_xor a (bit_xor b c)
xor_assoc_fuel zero zero b c p q r = ap (λ x. bit_xor x c) (zero-bit_xor b) ∙ sym (zero-bit_xor _)
xor_assoc_fuel zero (suc a) b c p q r = absurd (omega arith)
xor_assoc_fuel (suc n) a b c p q r = omega (
  arith,
  bit_xor_step (bit_xor a b) c,
  bit_xor_step a (bit_xor b c),
  bit_xor_step a b,
  bit_xor_step b c,
  ap (λ x. bit_xor x (c / 2)) (xor_half a b),
  ap (bit_xor (a / 2)) (xor_half b c),
  xor_assoc_fuel n (a / 2) (b / 2) (c / 2) (omega arith) (omega arith) (omega arith),
)

pub xor_assoc : (a b c : ℕ) → bit_xor (bit_xor a b) c ≡ bit_xor a (bit_xor b c)
xor_assoc a b c = xor_assoc_fuel (a + b + c) a b c (omega arith) (omega arith) (omega arith)

pub xor_self : (n a : ℕ) → a ≤ n → bit_xor a a ≡ 0
xor_self zero zero p = refl
xor_self zero (suc a) p = absurd (omega arith)
xor_self (suc n) a p = omega (arith, bit_xor_step a a, xor_self n (a / 2) (omega arith))

-- Applying the same mask twice gives the value back.
pub xor_undo : (a m : ℕ) → bit_xor (bit_xor a m) m ≡ a
xor_undo a m = xor_assoc a m m ∙ ap (bit_xor a) (xor_self m m (le_refl m)) ∙ bit_xor-zero a

-- Exclusive or of `k`-bit words is a `k`-bit word.
pub xor-lt_pow : (k a b : ℕ) → a < 2 ^ k → b < 2 ^ k → bit_xor a b < 2 ^ k
xor-lt_pow zero zero b p q = rw zero-bit_xor q
xor-lt_pow zero (suc a) b p q = absurd (omega arith)
xor-lt_pow (suc k) a b p q = omega (
  arith,
  pow-suc 2 k,
  bit_xor_step a b,
  xor-lt_pow k (a / 2) (b / 2) (omega (arith, pow-suc 2 k)) (omega (arith, pow-suc 2 k)),
)

xor_double : (x y : ℕ) → y % 2 ≡ 0 → bit_xor (x / 2) (y / 2) ≡ x / 2 + y / 2 → bit_xor x y ≡ x + y
xor_double x y e h = omega (arith, bit_xor_step x y)

xor_none : (x y : ℕ) → x ≡ 0 → bit_xor x y ≡ x + y
xor_none x y e = rw e (zero-bit_xor y ∙ omega arith)

-- Below a multiple of 256, exclusive or with a byte is addition.
pub xor_byte : (b h : ℕ) → b < 256 → bit_xor b (h * 256) ≡ b + h * 256
xor_byte b h p = xor_double b (h * 256) (omega arith) (
    xor_double _ _ (omega arith) (
      xor_double _ _ (omega arith) (
        xor_double _ _ (omega arith) (
          xor_double _ _ (omega arith) (
            xor_double _ _ (omega arith) (
              xor_double _ _ (omega arith)
                (xor_double _ _ (omega arith) (xor_none _ _ (omega arith)))))))))

-- A word is the exclusive or of its low byte and the rest.
pub xor_split : (x : ℕ) → bit_xor (x % 256) (x / 256 * 256) ≡ x
xor_split x = omega (arith, xor_byte (x % 256) (x / 256) (omega arith))

-- A byte changes only the low byte of a word.
pub xor_into_low : (y b : ℕ) → b < 256 → bit_xor y b ≡ bit_xor (y % 256) b + y / 256 * 256
xor_into_low y b p =
    let low = y % 256 in
    let high = y / 256 * 256 in
    sym (ap (λ t. bit_xor t b) (xor_split y))
    ∙ xor_assoc low high b
    ∙ ap (bit_xor low) (xor_comm high b)
    ∙ sym (xor_assoc low b high)
    ∙ xor_byte (bit_xor low b) (y / 256) (xor-lt_pow 8 low b (omega arith) p)

xor_twice : (a b : ℕ) → bit_xor (a * 2) (b * 2) ≡ bit_xor a b * 2
xor_twice a b = omega (
  arith,
  bit_xor_step (a * 2) (b * 2),
  ap₂ bit_xor {x = a * 2 / 2} {y = a} {u = b * 2 / 2} {v = b} (omega arith) (omega arith),
)

pub xor_scale : (a b : ℕ) → bit_xor (a * 256) (b * 256) ≡ bit_xor a b * 256
xor_scale a b =
    let a' : a * 256 ≡ a * 2 * 2 * 2 * 2 * 2 * 2 * 2 * 2 = omega arith in
    let b' : b * 256 ≡ b * 2 * 2 * 2 * 2 * 2 * 2 * 2 * 2 = omega arith in
    rw (a', b') (simp xor_twice (omega arith))
