-- ===== src/Comm/Telnet/Loop.antt =====
-- The loop of `Read` ends: each round takes a byte of the input. One rule for what a read returns.
use ele_bbs_go.Base.{
  ℕ, zero, suc, ◌+◌, ◌≤◌, ◌<◌, ◌≡◌, refl, ◌⊎◌, inl, inr, Bool, false, [], ◌∷◌, ◌++◌, Option, none,
  some, arith, Bytes, leb, length, Bool-cases, leb→le,
}
use ele_bbs_go.Comm.Telnet.{
  Telnet, Input, Round, again, stop, round, command, data_byte, return_then, skip_sb, after_sb,
  option_byte, Got, read_loop, read,
}

pub Round-cases :
    (r : Round)
    → ((out : Bytes) × (t : Telnet) × (inp : Input) × (r ≡ again out t inp))
      ⊎ ((out : Bytes) × (f : Bool) × (t : Telnet) × (inp : Input) × (r ≡ stop out f t inp))
Round-cases (again out t inp) = inl (out, t, inp, refl)
Round-cases (stop out f t inp) = inr (out, f, t, inp, refl)

-- What a round leaves to read.
abbrev pub left_of : Round → ℕ
left_of (again out t inp) = length inp
left_of (stop out f t inp) = 0

skip_sb_shrinks : (inp : Input) (rest : Input) → skip_sb inp ≡ some rest → length rest ≤ length inp
unfolding skip_sb
skip_sb_shrinks [] rest e = cc
skip_sb_shrinks ((x, l) ∷ []) rest e = cc
skip_sb_shrinks ((x, k) ∷ (y, l) ∷ inp) rest e =
    ground (arith, skip_sb_shrinks inp rest, skip_sb_shrinks ((y, l) ∷ inp) rest)

return_then_shrinks :
    (out : Bytes) (t : Telnet) (inp : Input) → left_of (return_then out t inp) ≤ length inp
unfolding return_then
return_then_shrinks out t [] = omega arith
return_then_shrinks out t ((b, last) ∷ inp) = ground arith

data_byte_shrinks :
    (out : Bytes) (t : Telnet) (b : ℕ) (last : Bool) (inp : Input)
    → left_of (data_byte out t b last inp) ≤ length inp
unfolding data_byte
data_byte_shrinks out t b last inp =
    ground (arith, return_then_shrinks (out ++ b ∷ []) (record t { pending_cr = false }) inp)

after_sb_shrinks :
    (out : Bytes) (t : Telnet) (inp : Input) → left_of (after_sb out t (skip_sb inp)) ≤ length inp
after_sb_shrinks out t inp = go (skip_sb inp) refl
  where
    go : (r : Option Input) → skip_sb inp ≡ r → left_of (after_sb out t r) ≤ length inp
    go none e = omega arith
    go (some rest) e = skip_sb_shrinks inp rest e

option_byte_shrinks :
    (cmd : ℕ) (out : Bytes) (t : Telnet) (inp : Input)
    → left_of (option_byte cmd out t inp) ≤ length inp
option_byte_shrinks cmd out t [] = omega arith
option_byte_shrinks cmd out t ((opt, l) ∷ inp) = omega arith

command_shrinks :
    (out : Bytes) (t : Telnet) (inp : Input) → left_of (command out t inp) ≤ length inp
unfolding command
command_shrinks out t [] = omega arith
command_shrinks out t ((cmd, l) ∷ inp) =
    ground (arith, after_sb_shrinks out t inp, option_byte_shrinks cmd out t inp)

round_shrinks :
    (out : Bytes) (t : Telnet) (inp : Input) {out' : Bytes} {t' : Telnet} (inp' : Input)
    → round out t inp ≡ again out' t' inp'
    → length inp' < length inp
unfolding round
round_shrinks out t [] inp' e = cc
round_shrinks out t ((b, last) ∷ inp) inp' e = bound (rw e at shrink)
  where
    shrink : left_of (round out t ((b, last) ∷ inp)) ≤ length inp
    shrink = ground (arith, command_shrinks out t inp, data_byte_shrinks out t b last inp)

    bound : length inp' ≤ length inp → length inp' < suc (length inp)
    bound h = omega arith

module _ {ℓ κ} (room : ℕ) (P : Bytes → Telnet → Input → Type ℓ) (Q : Got → Type κ)
    (full : (out : Bytes) (t : Telnet) (inp : Input)
      → P out t inp
      → room ≤ length out
      → Q (record { payload = out; failed = false; telnet = t; rest = inp }))
    (step : (out : Bytes) (t : Telnet) (inp : Input) (r : Bytes × Telnet × Input)
      → P out t inp
      → round out t inp ≡ again r.0 r.1 r.2
      → P r.0 r.1 r.2)
    (ends : (out : Bytes) (t : Telnet) (inp : Input) (r : Bytes × Telnet × Input) (f : Bool)
      → P out t inp
      → round out t inp ≡ stop r.0 f r.1 r.2
      → Q (record { payload = r.0; failed = f; telnet = r.1; rest = r.2 })) where
  loop_total :
      (fuel : ℕ) (out : Bytes) (t : Telnet) (inp : Input)
      → length inp < fuel
      → P out t inp
      → (g : Got) × (read_loop fuel room out t inp ≡ some g) × Q g
  unfolding read_loop
  loop_total zero out t inp h p = absurd (omega arith)
  loop_total (suc fuel) out t inp h p = elim (Bool-cases (leb room (length out))) [
    | inl e ↦ (_, rw (e, read_loop), full out t inp p (leb→le room (length out) e))
    | inr e ↦ elim (Round-cases (round out t inp)) [
      | inl (out', t', inp', q) ↦
          let less : length inp' < length inp = round_shrinks out t inp inp' q in
          let (g, r, s) =
            loop_total fuel out' t' inp' (omega arith) (step out t inp (out', t', inp') p q) in
          (g, rw (e, read_loop) (rw q r), s)
      | inr (out', f, t', inp', q) ↦
          (_, rw (e, read_loop) (rw q), ends out t inp (out', t', inp') f p q)
    ]
  ]

  -- An invariant of the rounds that gives `Q` at each way out holds of what `Read` returns, and
  -- `Read` returns.
  pub read_total :
      {t : Telnet} (inp : Input) → P [] t inp → (g : Got) × (read room t inp ≡ some g) × Q g
  unfolding read
  read_total {t} inp p = loop_total (length inp + 1) [] t inp (omega arith) p
