-- ===== src/Crc/Bitwise.antt =====
-- The table-driven CRC-32 against the division by the polynomial, one bit at a time.
use Prim.Native.Nat.{bit_xor}
use ele_bbs_go.Base.{
  ℕ, ◌*◌, ◌/◌, ◌%◌, ◌<◌, ◌≡◌, refl, sym, ap, ◌∙◌, true, [], ◌∷◌, arith, Bytes, ◌==◌, ==_iff,
  if◌then◌else◌, get_or, All, IsByte, all_below, all_below_sound,
}
use ele_bbs_go.Base.Xor.{xor_half, xor_low, xor_comm, xor_assoc, xor-lt_pow, xor_split, xor_undo}
use ele_bbs_go.Crc.{table, update, crc32}

abbrev polynomial : ℕ
polynomial = 0xEDB88320

-- One bit of the division, lowest bit first.
pub shift_bit : ℕ → ℕ
shift_bit x = if x % 2 == 1 then bit_xor (x / 2) polynomial else x / 2

pub shift_byte : ℕ → ℕ
shift_byte x =
    shift_bit (shift_bit (shift_bit (shift_bit (shift_bit (shift_bit (shift_bit (shift_bit x)))))))

-- The reference: the octet enters at the low end, and eight bits are divided.
pub bitwise_update : ℕ → ℕ → ℕ
bitwise_update crc octet = shift_byte (bit_xor crc octet)

pub bitwise_crc32 : Bytes → ℕ → ℕ
bitwise_crc32 [] old = old
bitwise_crc32 (c ∷ buf) old = bitwise_crc32 buf (bitwise_update old c)

entries : all_below 256 (λ i. get_or table i 0 == shift_byte i) ≡ true
unfolding all_below table shift_byte shift_bit
entries = refl

table_entry : (i : ℕ) → i < 256 → get_or table i 0 ≡ shift_byte i
table_entry i h = (==_iff _ _).0 (all_below_sound 256 _ i entries h)

swap_middle : (a b p : ℕ) → bit_xor (bit_xor a p) b ≡ bit_xor (bit_xor a b) p
swap_middle a b p = xor_assoc a p b ∙ ap (bit_xor a) (xor_comm p b) ∙ sym (xor_assoc a b p)

-- The division is linear.
shift_bit-xor : (a b : ℕ) → shift_bit (bit_xor a b) ≡ bit_xor (shift_bit a) (shift_bit b)
unfolding shift_bit
shift_bit-xor a b = ground (
  arith,
  xor_low a b,
  xor_half a b,
  swap_middle (a / 2) (b / 2) polynomial,
  xor_assoc (a / 2) (b / 2) polynomial,
  xor_undo (bit_xor (a / 2) (b / 2)) polynomial,
  xor_assoc (bit_xor (a / 2) polynomial) (b / 2) polynomial,
)

shift_byte-xor : (a b : ℕ) → shift_byte (bit_xor a b) ≡ bit_xor (shift_byte a) (shift_byte b)
unfolding shift_byte
shift_byte-xor a b = simp shift_bit-xor

shift_bit_even : (h : ℕ) → shift_bit (h * 2) ≡ h
unfolding shift_bit
shift_bit_even h = ground arith

shift_byte_high : (h : ℕ) → shift_byte (h * 256) ≡ h
unfolding shift_byte
shift_byte_high h =
    let twice : h * 256 ≡ h * 2 * 2 * 2 * 2 * 2 * 2 * 2 * 2 = omega arith in
    rw twice (simp shift_bit_even)

update-eq-bitwise : (crc octet : ℕ) → octet < 256 → update crc octet ≡ bitwise_update crc octet
unfolding update bitwise_update
update-eq-bitwise crc octet h =
    let low = crc % 256 in
    let high = crc / 256 in
    rw (table_entry (bit_xor low octet) (xor-lt_pow 8 low octet (omega arith) h)) (
      ap (bit_xor (shift_byte (bit_xor low octet))) (sym (shift_byte_high high))
      ∙ sym (shift_byte-xor (bit_xor low octet) (high * 256))
      ∙ ap shift_byte
          (swap_middle low (high * 256) octet ∙ ap (λ t. bit_xor t octet) (xor_split crc)))

-- The table-driven CRC-32 of any bytes, from any start value, is the bitwise division by the
-- polynomial 0xEDB88320.
pub crc32-eq-bitwise :
    (buf : Bytes) (old : ℕ) → All IsByte buf → crc32 buf old ≡ bitwise_crc32 buf old
unfolding crc32 bitwise_crc32
crc32-eq-bitwise [] old h = refl
crc32-eq-bitwise (c ∷ buf) old h =
    ap (crc32 buf) (update-eq-bitwise old c h.0) ∙ crc32-eq-bitwise buf (bitwise_update old c) h.1
