-- ===== src/Crc/Emsi.antt =====
-- The CRC-16 of EMSI packets, as the receiver uses it.
use Prim.Native.Nat.{bit_xor}
use ele_bbs_go.Base.{
  ℕ, ◌+◌, ◌*◌, ◌/◌, ◌%◌, ◌<◌, ◌≡◌, refl, sym, ap, ◌∙◌, [], ◌∷◌, ◌++◌, arith, Bytes, get_or,
  all_below, all_below_sound, ltb, ltb→lt, true,
}
use ele_bbs_go.Base.Xor.{
  xor_into_low, xor_scale, xor_comm, xor_assoc, xor_self, xor-lt_pow, xor_split, bit_xor-zero,
}
use ele_bbs_go.Crc.{crc16_table, crc16_update, crc16, emsi16}

pub crc16-append : (xs ys : Bytes) (c : ℕ) → crc16 (xs ++ ys) c ≡ crc16 ys (crc16 xs c)
unfolding crc16
crc16-append [] ys c = refl
crc16-append (x ∷ xs) ys c = crc16-append xs ys (crc16_update c x)

update_zero : (c b : ℕ) → crc16_update c b ≡ bit_xor (crc16_update c 0) b
unfolding crc16_update
update_zero c b = rw bit_xor-zero

pub two_rounds : (c hi lo : ℕ) → crc16 (hi ∷ lo ∷ []) c ≡ crc16_update (crc16_update c hi) lo
unfolding crc16
two_rounds c hi lo = refl

pub last_rounds : (p : Bytes) → emsi16 p ≡ crc16_update (crc16_update (crc16 p 0) 0) 0
unfolding emsi16
last_rounds p = refl

-- A byte added to the low end of the register changes the next register by that byte, one place
-- higher: the table is indexed by the high end.
update_low :
    (y b : ℕ) → b < 256 → crc16_update (bit_xor y b) 0 ≡ bit_xor (crc16_update y 0) (b * 256)
unfolding crc16_update
update_low y b h =
    let low : bit_xor y b ≡ bit_xor (y % 256) b + y / 256 * 256 = xor_into_low y b h in
    let small : bit_xor (y % 256) b < 256 = xor-lt_pow 8 (y % 256) b (omega arith) h in
    let high : bit_xor y b / 256 % 256 ≡ y / 256 % 256 = omega arith in
    let up : bit_xor y b * 256 % 65536 ≡ bit_xor (y % 256) b * 256 = omega arith in
    let keep : y * 256 % 65536 ≡ y % 256 * 256 = omega arith in
    rw (high, up, keep, bit_xor-zero, bit_xor-zero)
      (ap (bit_xor (get_or crc16_table (y / 256 % 256) 0)) (sym (xor_scale (y % 256) b))
        ∙ sym (xor_assoc (get_or crc16_table (y / 256 % 256) 0) (y % 256 * 256) (b * 256)))

small_entries : all_below 256 (λ i. ltb (get_or crc16_table i 0) 65536) ≡ true
unfolding all_below crc16_table
small_entries = refl

pub crc16_update-lt : (c b : ℕ) → b < 65536 → crc16_update c b < 65536
unfolding crc16_update
crc16_update-lt c b h =
    xor-lt_pow 16 _ b
      (xor-lt_pow 16 _ _
        (ltb→lt _ _ (all_below_sound 256 _ (c / 256 % 256) small_entries (omega arith)))
        (omega arith))
      h

pub emsi16-lt : (payload : Bytes) → emsi16 payload < 65536
unfolding emsi16
emsi16-lt payload = crc16_update-lt (crc16_update (crc16 payload 0) 0) 0 (omega arith)

-- A packet followed by its CRC, high byte first, leaves the remainder 0: what a receiver of EMSI
-- packets checks.
pub crc16-append_emsi16 :
    (payload : Bytes)
    → crc16 (payload ++ (emsi16 payload / 256) ∷ (emsi16 payload % 256) ∷ []) 0 ≡ 0
crc16-append_emsi16 payload =
    let c = crc16 payload 0 in
    let y = crc16_update c 0 in
    let e = emsi16 payload in
    let hi = e / 256 in
    let lo = e % 256 in
    let bound : e < 65536 = emsi16-lt payload in
    crc16-append payload (hi ∷ lo ∷ []) 0
    ∙ two_rounds c hi lo
    ∙ update_zero (crc16_update c hi) lo
    ∙ ap (λ t. bit_xor (crc16_update t 0) lo) (update_zero c hi)
    ∙ ap (λ t. bit_xor t lo) (update_low y hi (omega arith))
    ∙ ap (λ t. bit_xor (bit_xor t (hi * 256)) lo) (sym (last_rounds payload))
    ∙ xor_assoc e (hi * 256) lo
    ∙ ap (bit_xor e) (xor_comm (hi * 256) lo ∙ xor_split e)
    ∙ xor_self e e (omega arith)
