-- ===== src/Pascal/Cp437/RoundTrip.antt =====
-- Converting between code page 437 and Unicode.
use ele_bbs_go.Base.{
  ℕ, ◌+◌, ◌≤◌, ◌<◌, ◌≡◌, refl, ap₂, inl, inr, true, List, [], ◌∷◌, some, arith, Bytes, ◌==◌, ==_iff,
  length, All, IsByte, all_below, all_below_sound, Option-cases,
}
use ele_bbs_go.Pascal.Cp437.{
  Text, cp437_table, unicode_to_cp437, rune_of, from_cp437, byte_of, to_cp437,
}

-- A rune that code page 437 has a byte for.
abbrev pub HasByte : ℕ → Type 0
HasByte r = (c : ℕ) × (c < 256) × (rune_of c ≡ r)

byte_table : all_below 256 (λ c. byte_of (rune_of c) == c) ≡ true
unfolding all_below byte_of rune_of
byte_table = refl

pub byte_of-rune_of : (c : ℕ) → c < 256 → byte_of (rune_of c) ≡ c
byte_of-rune_of c h = (==_iff _ c).0 (all_below_sound 256 _ c byte_table h)

pub rune_of-byte_of : (r : ℕ) → HasByte r → rune_of (byte_of r) ≡ r
rune_of-byte_of r (c, h, e) = rw (← e, byte_of-rune_of c h)

-- Converting any bytes to text and back returns the bytes: no two of the 256 bytes share a rune.
pub to_cp437-from_cp437 : (b : Bytes) → All IsByte b → to_cp437 (from_cp437 b) ≡ b
unfolding to_cp437 from_cp437
to_cp437-from_cp437 [] h = refl
to_cp437-from_cp437 (c ∷ b) h = ap₂ ◌∷◌ (byte_of-rune_of c h.0) (to_cp437-from_cp437 b h.1)

-- Converting text to bytes and back returns the text if code page 437 has each of its runes.
pub from_cp437-to_cp437 : (s : Text) → All HasByte s → from_cp437 (to_cp437 s) ≡ s
unfolding to_cp437 from_cp437
from_cp437-to_cp437 [] h = refl
from_cp437-to_cp437 (r ∷ s) h = ap₂ ◌∷◌ (rune_of-byte_of r h.0) (from_cp437-to_cp437 s h.1)

pub length-to_cp437 : (s : Text) → length (to_cp437 s) ≡ length s
unfolding to_cp437
length-to_cp437 [] = refl
length-to_cp437 (r ∷ s) = omega (arith, length-to_cp437 s)

table_bound :
    (xs : List ℕ) (i r b : ℕ) → unicode_to_cp437 xs i r ≡ some b → i + length xs ≤ 128 → b < 256
unfolding unicode_to_cp437
table_bound [] i r b h l = ground arith
table_bound (x ∷ xs) i r b h l = ground (arith, table_bound xs (i + 1) r b)

length-cp437_table : length cp437_table ≡ 128
unfolding cp437_table
length-cp437_table = refl

-- Whatever the text, each byte that `ToCP437` writes is a byte.
pub byte_of-IsByte : (r : ℕ) → byte_of r < 256
unfolding byte_of
byte_of-IsByte r = elim (Option-cases (unicode_to_cp437 cp437_table 0 r)) [
  | inl e ↦ ground arith
  | inr (b, e) ↦ ground (arith, table_bound cp437_table 0 r b e (omega (arith, length-cp437_table)))
]

pub to_cp437-IsByte : (s : Text) → All IsByte (to_cp437 s)
unfolding to_cp437
to_cp437-IsByte [] = tt
to_cp437-IsByte (r ∷ s) = (byte_of-IsByte r, to_cp437-IsByte s)
