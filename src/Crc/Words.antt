-- ===== src/Crc/Words.antt =====
-- internal/crc/crc.go: the CRC-32 stays a word of 32 bits.
use Prim.Native.Nat.{bit_xor}
use ele_bbs_go.Base.{
  ℕ, zero, suc, ◌/◌, ◌%◌, ◌<◌, ◌≡◌, refl, Bool, true, ◌&&◌, inl, inr, List, [], ◌∷◌, map, arith,
  Bytes, ltb, ltb→lt, ltb_false→le, get_or, Bool-cases,
}
use ele_bbs_go.Base.Int.{from_u32, IsI32}
use ele_bbs_go.Base.Xor.{xor-lt_pow}
use ele_bbs_go.Pascal.Cp437.{Text, to_cp437}
use ele_bbs_go.Crc.{table, update, crc32, lower_byte, jam}

abbrev all_words : List ℕ → Bool
all_words [] = true
all_words (w ∷ ws) = ltb w 4294967296 && all_words ws

table_words : all_words table ≡ true
unfolding table
table_words = refl

get_or_word : (ws : List ℕ) (i : ℕ) → all_words ws ≡ true → get_or ws i 0 < 4294967296
get_or_word [] i e = ground arith
get_or_word (w ∷ ws) zero e = ground arith
get_or_word (w ∷ ws) (suc i) e = get_or_word ws i (ground arith)

update_word : (crc octet : ℕ) → crc < 4294967296 → update crc octet < 4294967296
unfolding update
update_word crc octet h =
    xor-lt_pow 32 (get_or table (bit_xor (crc % 256) octet) 0) (crc / 256)
      (get_or_word table (bit_xor (crc % 256) octet) table_words) (omega arith)

pub crc32_word : (buf : Bytes) (old : ℕ) → old < 4294967296 → crc32 buf old < 4294967296
unfolding crc32
crc32_word [] old h = h
crc32_word (c ∷ buf) old h = crc32_word buf (update old c) (update_word old c h)

pub jam-IsI32 : (s : Text) → IsI32 (jam s)
unfolding jam
jam-IsI32 s = signed (crc32 (map lower_byte (to_cp437 s)) 0xFFFFFFFF) (crc32_word _ _ (omega arith))
  where
    signed : (w : ℕ) → w < 4294967296 → IsI32 (from_u32 w)
    signed w h = elim (Bool-cases (ltb w 2147483648)) [
      | inl e ↦ rw e (ltb→lt w 2147483648 e)
      | inr e ↦ rw e (omega (arith, ltb_false→le w 2147483648 e))
    ]
