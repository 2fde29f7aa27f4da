-- ===== src/Telsrv/Websocket/FrameCap.antt =====
-- However a client behaves, neither a message nor the data of one is kept past the cap by
-- a frame.
use Prim.Native.Nat.{bit_and}
use ele_bbs_go.Base.{
  ℕ, suc, ◌+◌, ◌≤◌, ◌<◌, ◌≡◌, refl, ap, inl, inr, Bool, true, false, ◌||◌, [], ◌∷◌, ◌++◌, Option,
  none, some, arith, Bytes, ltb, ◌==◌, if◌then◌else◌, length, take, drop, length-append,
  length-take, length-drop, Bool-cases, if_both,
}
use ele_bbs_go.Base.Base64.Size.{size_of}
use ele_bbs_go.Telsrv.Websocket.Decoded.{length-decode}
use ele_bbs_go.Telsrv.Websocket.{
  WsConn, Frame, bit_set, max_ws_message, op_cont, op_text, op_binary, op_close, op_ping, op_pong,
  write_frame, read_full, read_size, be_field, unmask, decode, delivered, finish, handle, with_data,
  with_mask, body, read_frame,
}

-- The message that is put together and the data that waits are within the cap.
pub record IsWithin (w : WsConn) : Type 0 where
  pub msg : length w.msg ≤ max_ws_message
  pub pend : length w.pend ≤ max_ws_message

-- The connection keeps no more than the cap, and at most `n` bytes are left to read.
record IsCapped (n : ℕ) (f : Frame) : Type 0 where
  pub kept : IsWithin f.conn
  pub rest : length f.rest ≤ n

pub length-unmask : (i : ℕ) (mask s : Bytes) → length (unmask i mask s) ≡ length s
unfolding unmask
length-unmask i mask [] = refl
length-unmask i mask (c ∷ s) = ap suc (length-unmask (suc i) mask s)

delivered-IsCapped :
    (w : WsConn) (b : Option Bytes) (rest : Bytes)
    → IsWithin w
    → size_of b ≤ max_ws_message
    → IsCapped (length rest) (delivered w b rest)
delivered-IsCapped w none rest k h = record {
  kept = record { msg = omega arith; pend = k.pend };
  rest = omega arith;
}
delivered-IsCapped w (some b) rest k h = record {
  kept = record { msg = omega arith; pend = h };
  rest = omega arith;
}

finish-IsCapped :
    (fin : Bool) (w : WsConn) (rest : Bytes)
    → IsWithin w
    → IsCapped (length rest) (finish fin w rest)
unfolding finish
finish-IsCapped true w rest k =
    delivered-IsCapped w (decode w.proto w.cont w.msg) rest k
      (omega (arith, k.msg, length-decode w.proto w.cont w.msg))
finish-IsCapped false w rest k = record { kept = k; rest = omega arith }

handle-IsCapped :
    (op : ℕ) (fin : Bool) (s : Bytes) (w : WsConn) (rest : Bytes)
    → IsWithin w
    → length w.msg + length s ≤ max_ws_message
    → IsCapped (length rest) (handle op fin s w rest)
unfolding handle write_frame
handle-IsCapped op fin s w rest k h =
    if_both (IsCapped (length rest)) (op == op_ping) (kept refl refl refl) (
      if_both (IsCapped (length rest)) (op == op_pong) (kept refl refl refl) (
        if_both (IsCapped (length rest)) (op == op_close) (kept refl refl refl) (
          if_both (IsCapped (length rest)) (op == op_text || op == op_binary)
            (finish-IsCapped fin (record w { cont = op; msg = s }) rest
              (record { msg = omega (arith, h); pend = k.pend }))
            (if_both (IsCapped (length rest)) (op == op_cont)
              (finish-IsCapped fin (record w { msg = w.msg ++ s }) rest
                (record { msg = omega (arith, h, length-append w.msg s); pend = k.pend }))
              (kept refl refl refl)))))
  where
    kept :
        {f : Frame}
        → f.conn.msg ≡ w.msg
        → f.conn.pend ≡ w.pend
        → f.rest ≡ rest
        → IsCapped (length rest) f
    kept m p r = record {
      kept = record {
        msg = omega (arith, ap length m, k.msg);
        pend = omega (arith, ap length p, k.pend);
      };
      rest = omega (arith, ap length r);
    }

weaken : {n m : ℕ} {f : Frame} → n ≤ m → IsCapped n f → IsCapped m f
weaken h c = record { kept = c.kept; rest = omega (arith, c.rest) }

with_data-IsCapped :
    (op : ℕ) (fin : Bool) (mask : Bytes) (w : WsConn) (size : ℕ) (inp : Bytes)
    → IsWithin w
    → length w.msg + size ≤ max_ws_message
    → IsCapped (length inp) (with_data op fin mask w (read_full size inp))
unfolding read_full
with_data-IsCapped op fin mask w size inp k h = elim (Bool-cases (ltb (length inp) size)) [
  | inl e ↦ rw e (record { kept = k; rest = omega arith })
  | inr e ↦ rw e (
      weaken (omega (arith, length-drop size inp)) (
        handle-IsCapped op fin (unmask 0 mask (take size inp)) w (drop size inp) k
          (omega (arith, length-unmask 0 mask (take size inp), length-take size inp))))
]

with_mask-IsCapped :
    (op : ℕ) (fin : Bool) (size : ℕ) (w : WsConn) (inp : Bytes)
    → IsWithin w
    → length w.msg + size ≤ max_ws_message
    → IsCapped (length inp) (with_mask op fin size w (read_full 4 inp))
unfolding read_full
with_mask-IsCapped op fin size w inp k h = elim (Bool-cases (ltb (length inp) 4)) [
  | inl e ↦ rw e (record { kept = k; rest = omega arith })
  | inr e ↦ rw e (
      weaken (omega (arith, length-drop 4 inp))
        (with_data-IsCapped op fin (take 4 inp) w size (drop 4 inp) k h))
]

body-IsCapped :
    (op : ℕ) (fin masked : Bool) (w : WsConn) (n : ℕ) (r : Option (ℕ × Bytes))
    → IsWithin w
    → ((x : ℕ × Bytes) → r ≡ some x → length x.1 ≤ n)
    → IsCapped n (body op fin masked w r)
unfolding body write_frame
body-IsCapped op fin masked w n none k b = record { kept = k; rest = omega arith }
body-IsCapped op fin false w n (some (size, inp)) k b = record {
  kept = k;
  rest = b (size, inp) refl;
}
body-IsCapped op fin true w n (some (size, inp)) k b =
    elim (Bool-cases (ltb max_ws_message size || ltb max_ws_message (length w.msg + size))) [
      | inl e ↦
          rw e (record { kept = record { msg = k.msg; pend = k.pend }; rest = b (size, inp) refl })
      | inr e ↦
          rw e (weaken (b (size, inp) refl) (with_mask-IsCapped op fin size w inp k (ground arith)))
    ]

abbrev rest_of : Option (ℕ × Bytes) → Bytes
rest_of none = []
rest_of (some x) = x.1

read_size_rest :
    (n : ℕ) (inp : Bytes) (x : ℕ × Bytes) → read_size n inp ≡ some x → length x.1 ≤ length inp
unfolding read_size read_full
read_size_rest n inp x = by_size (n == 126) (n == 127)
  where
    be_field_rest :
        (k : ℕ)
        → be_field (if ltb (length inp) k then none else some (take k inp, drop k inp)) ≡ some x
        → length x.1 ≤ length inp
    be_field_rest k e = elim (Bool-cases (ltb (length inp) k)) [
      | inl y ↦ absurd (none_some (rw y at e))
      | inr y ↦ omega (arith, ap (λ r. length (rest_of r)) (rw y at e), length-drop k inp)
    ]
      where
        none_some : {z : ℕ × Bytes} → none ≡ some z → ⊥
        none_some e = cc

    by_size :
        (p q : Bool)
        → (if p
            then be_field (if ltb (length inp) 2 then none else some (take 2 inp, drop 2 inp))
            else if q
            then be_field (if ltb (length inp) 8 then none else some (take 8 inp, drop 8 inp))
            else some (n, inp))
          ≡ some x
        → length x.1 ≤ length inp
    by_size true q e = be_field_rest 2 e
    by_size false true e = be_field_rest 8 e
    by_size false false e = omega (arith, ap (λ r. length (rest_of r)) e)

two_bytes_IsCapped :
    (w : WsConn) (a b : ℕ) (inp : Bytes)
    → IsWithin w
    → IsCapped (length inp) (read_frame w (a ∷ b ∷ inp))
unfolding read_frame
two_bytes_IsCapped w a b inp h =
    let n = bit_and b 0x7f in
    body-IsCapped (bit_and a 0x0f) (bit_set a) (bit_set b) w (length inp) (read_size n inp) h
      (λ x e. read_size_rest n inp x e)

pub read_frame-IsWithin : (w : WsConn) (inp : Bytes) → IsWithin w → IsWithin (read_frame w inp).conn
read_frame-IsWithin w [] k = unfold read_frame in k
read_frame-IsWithin w (a ∷ []) k = unfold read_frame in k
read_frame-IsWithin w (a ∷ b ∷ inp) k = (two_bytes_IsCapped w a b inp k).kept

pub read_frame-shrinks :
    (w : WsConn) (inp : Bytes)
    → IsWithin w
    → (read_frame w inp).failed ≡ false
    → length (read_frame w inp).rest < length inp
read_frame-shrinks w [] k e = absurd (unfold read_frame in cc)
read_frame-shrinks w (a ∷ []) k e = absurd (unfold read_frame in cc)
read_frame-shrinks w (a ∷ b ∷ inp) k e = omega (arith, (two_bytes_IsCapped w a b inp k).rest)
