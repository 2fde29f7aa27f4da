-- ===== src/Telsrv/Websocket/Masks.antt =====
-- The mask of a client's frame (RFC 6455): byte by byte in turn, from the first byte on.
use Prim.Native.Nat.{bit_xor}
use ele_bbs_go.Base.Xor.{xor_undo}
use ele_bbs_go.Base.{
  ℕ, suc, ◌+◌, ◌%◌, ◌≡◌, refl, ap, ap₂, ◌∙◌, [], ◌∷◌, ◌++◌, arith, Bytes, length, get_or,
}
use ele_bbs_go.Telsrv.Websocket.{unmask}

-- The first byte of the mask goes to its end when it is used.
unfoldable pub masked : Bytes → Bytes → Bytes
masked [] s = s
masked (a ∷ m) [] = []
masked (a ∷ m) (x ∷ s) = bit_xor x a ∷ masked (m ++ a ∷ []) s

-- From index `i` on, the key gives `a`, `b`, `c` and `d` in turn.
record IsTurn (i : ℕ) (key : Bytes) (a b c d : ℕ) : Type 0 where
  first : get_or key (i % 4) 0 ≡ a
  second : get_or key ((i + 1) % 4) 0 ≡ b
  third : get_or key ((i + 2) % 4) 0 ≡ c
  fourth : get_or key ((i + 3) % 4) 0 ≡ d

turned : {i : ℕ} {key : Bytes} {a b c d : ℕ} → IsTurn i key a b c d → IsTurn (suc i) key b c d a
turned {i} {key} t = record {
  first = at_index (omega arith) ∙ t.second;
  second = at_index (omega arith) ∙ t.third;
  third = at_index (omega arith) ∙ t.fourth;
  fourth = at_index (omega arith) ∙ t.first;
}
  where
    at_index : {m n : ℕ} → m ≡ n → get_or key m 0 ≡ get_or key n 0
    at_index e = ap (λ k. get_or key k 0) e

unmask-turn :
    (i : ℕ) (key : Bytes) (a b c d : ℕ) (s : Bytes)
    → IsTurn i key a b c d
    → unmask i key (masked (a ∷ b ∷ c ∷ d ∷ []) s) ≡ s
unfolding unmask masked
unmask-turn i key a b c d [] t = refl
unmask-turn i key a b c d (x ∷ s) t =
    ap₂ ◌∷◌ (ap (bit_xor (bit_xor x a)) t.first ∙ xor_undo x a)
      (unmask-turn (suc i) key b c d a s (turned t))

-- The loop takes off a mask of four bytes.
pub unmask-masked : (mask s : Bytes) → length mask ≡ 4 → unmask 0 mask (masked mask s) ≡ s
unmask-masked (a ∷ b ∷ c ∷ d ∷ []) s h =
    unmask-turn 0 _ a b c d s (record { first = refl; second = refl; third = refl; fourth = refl })
unmask-masked (a ∷ b ∷ c ∷ d ∷ e ∷ m) s h = absurd (omega (arith, h))
unmask-masked (a ∷ b ∷ c ∷ []) s h = absurd (omega (arith, h))
unmask-masked (a ∷ b ∷ []) s h = absurd (omega (arith, h))
unmask-masked (a ∷ []) s h = absurd (omega (arith, h))
unmask-masked [] s h = absurd (omega (arith, h))

pub length-masked : (mask s : Bytes) → length (masked mask s) ≡ length s
unfolding masked
length-masked [] s = refl
length-masked (a ∷ m) [] = refl
length-masked (a ∷ m) (x ∷ s) = ap suc (length-masked (m ++ a ∷ []) s)
