-- ===== src/Crc/Division.antt =====
-- The table-driven CRC-16 against the long division by the polynomial, highest bit first.
use Prim.Native.Nat.{bit_xor}
use ele_bbs_go.Base.{
  ℕ, ◌+◌, ◌*◌, ◌/◌, ◌%◌, ◌^◌, ◌<◌, ◌≡◌, refl, sym, ap, ◌∙◌, inl, inr, Bool, true, false, [], ◌∷◌,
  ◌++◌, arith, Bytes, leb, leb→le, leb_false→lt, lt→leb_false, Bool-cases, ◌==◌, ==_iff,
  if◌then◌else◌, get_or, All, IsByte, all_below, all_below_sound,
}
use ele_bbs_go.Base.Xor.{xor_comm, xor_assoc, xor-lt_pow, xor_split, xor_scale, xor_byte, xor_undo}
use ele_bbs_go.Crc.{crc16_table, crc16_update, crc16, emsi16}
use ele_bbs_go.Crc.Emsi.{crc16-append, crc16_update-lt, two_rounds, last_rounds}

-- The polynomial of 17 bits.
abbrev divisor : ℕ
divisor = 0x11021

-- One step: the divisor, at the place given, is taken off a number that reaches up to it.
divide_at : ℕ → ℕ → ℕ → ℕ
divide_at top d r = if leb top r then bit_xor r d else r

-- The remainder of a number of 24 bits.
remainder : ℕ → ℕ
unfolding divide_at
remainder r =
    let r7 = divide_at 0x800000 (divisor * 128) r in
    let r6 = divide_at 0x400000 (divisor * 64) r7 in
    let r5 = divide_at 0x200000 (divisor * 32) r6 in
    let r4 = divide_at 0x100000 (divisor * 16) r5 in
    let r3 = divide_at 0x80000 (divisor * 8) r4 in
    let r2 = divide_at 0x40000 (divisor * 4) r3 in
    let r1 = divide_at 0x20000 (divisor * 2) r2 in divide_at 0x10000 divisor r1

-- The bytes are brought down one by one.
pub divided : Bytes → ℕ → ℕ
unfolding remainder
divided [] r = r
divided (b ∷ p) r = divided p (remainder (r * 256 + b))

entries : all_below 256 (λ i. get_or crc16_table i 0 == remainder (i * 65536)) ≡ true
unfolding all_below crc16_table remainder
entries = refl

table_entry : (i : ℕ) → i < 256 → get_or crc16_table i 0 ≡ remainder (i * 65536)
table_entry i h = (==_iff _ _).0 (all_below_sound 256 _ i entries h)

-- A number below the place does not change whether the divisor is taken off.
reaches : (k x y : ℕ) → y < 2 ^ k → leb (2 ^ k) (bit_xor x y) ≡ leb (2 ^ k) x
reaches k x y small = elim (Bool-cases (leb (2 ^ k) x)) [
  | inl t ↦ elim (Bool-cases (leb (2 ^ k) (bit_xor x y))) [
    | inl s ↦ s ∙ sym t
    | inr s ↦
        let low : bit_xor (bit_xor x y) y < 2 ^ k =
          xor-lt_pow k (bit_xor x y) y (leb_false→lt (2 ^ k) (bit_xor x y) s) small in
        absurd (omega (arith, low, xor_undo x y, leb→le (2 ^ k) x t))
  ]
  | inr t ↦
      lt→leb_false (2 ^ k) (bit_xor x y) (xor-lt_pow k x y (leb_false→lt (2 ^ k) x t) small) ∙ sym t
]

if_swap :
    (t : Bool) (x y u v : ℕ)
    → u ≡ bit_xor v y
    → (if t then u else bit_xor x y) ≡ bit_xor (if t then v else x) y
if_swap true x y u v e = e
if_swap false x y u v e = refl

divide_at-xor :
    (k d y : ℕ)
    → y < 2 ^ k
    → (x : ℕ) → divide_at (2 ^ k) d (bit_xor x y) ≡ bit_xor (divide_at (2 ^ k) d x) y
unfolding divide_at
divide_at-xor k d y small x = rw (reaches k x y small) (
    if_swap (leb (2 ^ k) x) x y (bit_xor (bit_xor x y) d) (bit_xor x d)
      (xor_assoc x y d ∙ ap (bit_xor x) (xor_comm y d) ∙ sym (xor_assoc x d y)))

-- The remainder of a sum is the sum of the remainders, where one is below 2^16.
remainder-xor : (x y : ℕ) → y < 65536 → remainder (bit_xor x y) ≡ bit_xor (remainder x) y
unfolding remainder
remainder-xor x y h = simp (
  divide_at-xor 23 (divisor * 128) y (omega (arith, h)),
  divide_at-xor 22 (divisor * 64) y (omega (arith, h)),
  divide_at-xor 21 (divisor * 32) y (omega (arith, h)),
  divide_at-xor 20 (divisor * 16) y (omega (arith, h)),
  divide_at-xor 19 (divisor * 8) y (omega (arith, h)),
  divide_at-xor 18 (divisor * 4) y (omega (arith, h)),
  divide_at-xor 17 (divisor * 2) y (omega (arith, h)),
  divide_at-xor 16 divisor y (omega (arith, h)),
)

-- Bringing a byte down and dividing is the step of the table.
crc16_update-eq-remainder :
    (c b : ℕ) → c < 65536 → b < 256 → crc16_update c b ≡ remainder (c * 256 + b)
unfolding crc16_update
crc16_update-eq-remainder c b small byte =
    let high = c / 256 in
    let low = c % 256 * 256 in
    let parts : c * 256 + b ≡ bit_xor (high * 65536) (bit_xor low b) =
      omega (arith, xor_byte b c byte)
      ∙ ap (λ t. bit_xor b (t * 256)) (sym (xor_split c))
      ∙ ap (bit_xor b) (sym (xor_scale (c % 256) (c / 256 * 256)))
      ∙ xor_comm b _
      ∙ ap (λ t. bit_xor t b) (xor_comm low (c / 256 * 256 * 256))
      ∙ xor_assoc (c / 256 * 256 * 256) low b
      ∙ ap (λ t. bit_xor t (bit_xor low b)) {x = c / 256 * 256 * 256} {y = high * 65536}
          (omega arith) in
    xor_assoc (get_or crc16_table (c / 256 % 256) 0) (c * 256 % 65536) b
    ∙ ap (λ t. bit_xor (get_or crc16_table t 0) (bit_xor (c * 256 % 65536) b)) {x = c / 256 % 256}
        {y = high} (omega (arith, small))
    ∙ ap (λ t. bit_xor (get_or crc16_table high 0) (bit_xor t b)) {x = c * 256 % 65536} {y = low}
        (omega arith)
    ∙ ap (λ t. bit_xor t (bit_xor low b)) (table_entry high (omega (arith, small)))
    ∙ sym (
        remainder-xor (high * 65536) (bit_xor low b)
          (xor-lt_pow 16 low b (omega arith) (omega (arith, byte))))
    ∙ ap remainder (sym parts)

crc16-eq-divided : (p : Bytes) (c : ℕ) → c < 65536 → All IsByte p → crc16 p c ≡ divided p c
unfolding crc16 divided
crc16-eq-divided [] c small h = refl
crc16-eq-divided (b ∷ p) c small h =
    crc16-eq-divided p (crc16_update c b) (crc16_update-lt c b (omega (arith, h.0))) h.1
    ∙ ap (divided p) (crc16_update-eq-remainder c b small h.0)

-- The EMSI CRC of any bytes is the remainder that the long division by the polynomial 0x11021, one
-- bit at a time and highest bit first, leaves of the bytes with two zero bytes behind them.
pub emsi16-eq-divided : (p : Bytes) → All IsByte p → emsi16 p ≡ divided (p ++ 0 ∷ 0 ∷ []) 0
emsi16-eq-divided p h =
    last_rounds p
    ∙ sym (two_rounds (crc16 p 0) 0 0)
    ∙ sym (crc16-append p (0 ∷ 0 ∷ []) 0)
    ∙ crc16-eq-divided (p ++ 0 ∷ 0 ∷ []) 0 (omega arith) (with_zeros p h)
  where
    with_zeros : (p : Bytes) → All IsByte p → All IsByte (p ++ 0 ∷ 0 ∷ [])
    with_zeros [] h = (omega arith, (omega arith, tt))
    with_zeros (b ∷ p) h = (h.0, with_zeros p h.1)
