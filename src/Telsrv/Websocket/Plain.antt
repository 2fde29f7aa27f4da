-- ===== src/Telsrv/Websocket/Plain.antt =====
-- The plain subprotocol: one character for each byte.
use ele_bbs_go.Base.{
  ℕ, zero, suc, ◌+◌, ◌-◌, ◌*◌, ◌/◌, ◌%◌, ◌≤◌, ◌<◌, ◌≡◌, refl, ap, ◌∙◌, inl, inr, true, [], ◌∷◌,
  ◌++◌, arith, Bytes, ltb, some, ltb→lt, length, length-append, All, IsByte, Bool-cases,
  ltb_false→le,
}
use ele_bbs_go.Base.Utf8.{encode_rune, decode_rune, decode_two, decode_three, decode_four}
use ele_bbs_go.Telsrv.Websocket.{decode, by_proto, ws_plain, op_text, plain_loop, plain_text}

-- A byte's character is read back, with its width, whatever follows.
low_rune : (c : ℕ) (s : Bytes) → c < 0x80 → decode_rune c s ≡ (c, 1)
unfolding decode_rune
low_rune c s h = ground arith

not_longer : (a b : ℕ) (s : Bytes) → 0x80 ≤ a → a < 0xe0 → decode_rune a (b ∷ s) ≡ decode_two a b
unfolding decode_rune decode_three decode_four
not_longer a b [] l h = ground arith
not_longer a b (c ∷ []) l h = ground arith
not_longer a b (c ∷ d ∷ s) l h = ground arith

high_rune :
    (c : ℕ)
    → 0x80 ≤ c
    → c < 256
    → decode_two (0xc0 + c / 64) (0x80 + c % 64)
      ≡ ((0xc0 + c / 64 - 0xc0) * 64 + (0x80 + c % 64 - 0x80), 2)
unfolding decode_two
high_rune c l h = ground arith

-- A byte's character is read back, and the reader moves past it, whatever follows.
plain_step :
    (fuel c : ℕ) (s : Bytes)
    → c < 256
    → plain_loop (suc fuel) (encode_rune c ++ s) ≡ c ∷ plain_loop fuel s
unfolding plain_loop encode_rune
plain_step fuel c s h = elim (Bool-cases (ltb c 0x80)) [
  | inl e ↦ rw e (
      rw (low_rune c s (ltb→lt c 0x80 e))
        (ap (λ x. x ∷ plain_loop fuel s) {x = c % 256} {y = c} (omega arith)))
  | inr e ↦
      let l = ltb_false→le c 0x80 e in
      let two : ltb c 0x800 ≡ true = ground arith in
      rw (e) (
        rw two (
          rw (not_longer (0xc0 + c / 64) (0x80 + c % 64) s (omega arith) (omega arith)) (
            rw (high_rune c l h) (
              ap (λ x. x ∷ plain_loop fuel s)
                {x = ((0xc0 + c / 64 - 0xc0) * 64 + (0x80 + c % 64 - 0x80)) % 256} {y = c}
                (omega arith)))))
]

text_loop :
    (fuel : ℕ) (p : Bytes) → All IsByte p → length p ≤ fuel → plain_loop fuel (plain_text p) ≡ p
unfolding plain_text
text_loop zero [] h l = unfold plain_loop in refl
text_loop (suc fuel) [] h l = unfold plain_loop in refl
text_loop zero (c ∷ p) h l = absurd (omega arith)
text_loop (suc fuel) (c ∷ p) h l =
    plain_step fuel c (plain_text p) h.0 ∙ ap (◌∷◌ c) (text_loop fuel p h.1 (omega arith))

length-plain_text : (p : Bytes) → length p ≤ length (plain_text p)
unfolding plain_text
length-plain_text [] = omega arith
length-plain_text (c ∷ p) =
    omega (arith, length-append (encode_rune c) (plain_text p), length-plain_text p, some_byte c)
  where
    some_byte : (c : ℕ) → 1 ≤ length (encode_rune c)
    some_byte c = unfold encode_rune in ground arith

-- A text message in the plain subprotocol, of any bytes written one character each, is decoded to
-- these bytes.
pub decode-plain_text : (p : Bytes) → All IsByte p → decode ws_plain op_text (plain_text p) ≡ some p
unfolding decode by_proto
decode-plain_text p h = ap some (text_loop (length (plain_text p)) p h (length-plain_text p))
