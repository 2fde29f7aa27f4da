-- ===== src/Telsrv/Websocket/Frames.antt =====
-- What a client sends is what is read, whatever the mask and the fragments.
use Prim.Native.Nat.{bit_and}
use ele_bbs_go.Base.{
  ℕ, ◌+◌, ◌≤◌, ◌<◌, ◌≡◌, refl, ap, ◌∙◌, inl, inr, Bool, true, false, not, ◌&&◌, ◌||◌, List, [], ◌∷◌,
  ◌++◌, append_assoc, some, arith, Bytes, ltb, leb, ◌==◌, if◌then◌else◌, length, length-append,
  take-append, drop-append, le→ltb_false, ltb→lt, leb→le, Bool-cases, all_below, all_below_sound,
}
use ele_bbs_go.Telsrv.Websocket.{
  WsConn, max_ws_message, op_cont, be_bytes, be_value, size_bytes, read_full, read_size, be_field,
  handle, body, bit_set, read_frame,
}
use ele_bbs_go.Telsrv.Websocket.Masks.{masked, unmask-masked, length-masked}

-- A frame as a client sends it (RFC 6455): masked.
unfoldable pub client_frame : Bool → ℕ → Bytes → Bytes → Bytes
client_frame fin op mask s =
    ((if fin then 0x80 else 0) + op) ∷ (size_bytes 0x80 (length s) ++ (mask ++ masked mask s))

read_full-append : (n : ℕ) (s t : Bytes) → length s ≡ n → read_full n (s ++ t) ≡ some (s, t)
unfolding read_full
read_full-append n s t e =
    rw
      (
        le→ltb_false (length (s ++ t)) n (omega (arith, length-append s t)),
        take-append n s t e,
        drop-append n s t e,
      )
      refl

low_bits : all_below 128 (λ n. bit_and (0x80 + n) 0x7f == n && bit_set (0x80 + n)) ≡ true
unfolding all_below
low_bits = refl

low_of : (n : ℕ) → n < 128 → (bit_and (0x80 + n) 0x7f ≡ n) × (bit_set (0x80 + n) ≡ true)
low_of n h = ground (
  arith,
  all_below_sound 128 (λ n. bit_and (0x80 + n) 0x7f == n && bit_set (0x80 + n)) n low_bits h,
)

be_two : (n : ℕ) → n ≤ 65535 → (be_value 0 (be_bytes 2 n) ≡ n) × (length (be_bytes 2 n) ≡ 2)
unfolding be_value be_bytes
be_two n h = (omega arith, refl)

be_eight :
    (n : ℕ) → n ≤ max_ws_message → (be_value 0 (be_bytes 8 n) ≡ n) × (length (be_bytes 8 n) ≡ 8)
unfolding be_value be_bytes
be_eight n h = (omega arith, refl)

-- The second byte of a header says that the frame is masked, and the size is read back.
size_read :
    (n : ℕ)
    → n ≤ max_ws_message
    → (b : ℕ) × (s : Bytes) × (size_bytes 0x80 n ≡ b ∷ s)
      × (bit_set b ≡ true)
      × ((t : Bytes) → read_size (bit_and b 0x7f) (s ++ t) ≡ some (n, t))
unfolding size_bytes read_size
size_read n h = elim (Bool-cases (ltb n 126)) [
  | inl e ↦
      let small : n < 126 = ltb→lt n 126 e in
      let (p, q) = low_of n (omega arith) in
      (0x80 + n, [], rw e refl, q, λ t. rw (p, read_size) (not_long n t small))
  | inr e ↦ elim (Bool-cases (leb n 65535)) [
    | inl f ↦
        let (v, l) = be_two n (leb→le n 65535 f) in
        (
          0x80 + 126,
          be_bytes 2 n,
          rw (e, f) refl,
          refl,
          λ t. rw (read_full-append 2 (be_bytes 2 n) t l) (rw v refl),
        )
    | inr f ↦
        let (v, l) = be_eight n h in
        (
          0x80 + 127,
          be_bytes 8 n,
          rw (e, f) refl,
          refl,
          λ t. rw (read_full-append 8 (be_bytes 8 n) t l) (rw v refl),
        )
  ]
]
  where
    not_long :
        (n : ℕ) (t : Bytes)
        → n < 126
        → (if n == 126
            then be_field (read_full 2 t)
            else if n == 127
            then be_field (read_full 8 t)
            else some (n, t))
          ≡ some (n, t)
    not_long n t h = ground arith

high_bits :
    all_below 16 (λ o.
      bit_and (0x80 + o) 0x0f == o
      && bit_set (0x80 + o)
      && bit_and (0 + o) 0x0f == o
      && not (bit_set (0 + o)))
    ≡ true
unfolding all_below
high_bits = refl

first_byte :
    (fin : Bool) (op : ℕ)
    → op < 16
    → (bit_and ((if fin then 0x80 else 0) + op) 0x0f ≡ op)
      × (bit_set ((if fin then 0x80 else 0) + op) ≡ fin)
first_byte true op h = ground (
  arith,
  all_below_sound 16
      (λ o.
        bit_and (0x80 + o) 0x0f == o
        && bit_set (0x80 + o)
        && bit_and (0 + o) 0x0f == o
        && not (bit_set (0 + o)))
      op high_bits h,
)
first_byte false op h = ground (
  arith,
  all_below_sound 16
      (λ o.
        bit_and (0x80 + o) 0x0f == o
        && bit_set (0x80 + o)
        && bit_and (0 + o) 0x0f == o
        && not (bit_set (0 + o)))
      op high_bits h,
)

not_over :
    (m n : ℕ)
    → m + n ≤ max_ws_message
    → (ltb max_ws_message n || ltb max_ws_message (m + n)) ≡ false
not_over m n h = ground arith

body_frame :
    (op : ℕ) (fin : Bool) (w : WsConn) (mask s t : Bytes)
    → length mask ≡ 4
    → length w.msg + length s ≤ max_ws_message
    → body op fin true w (some (length s, mask ++ (masked mask s ++ t))) ≡ handle op fin s w t
unfolding body
body_frame op fin w mask s t m h = rw (not_over (length w.msg) (length s) h) (
    rw (read_full-append 4 mask (masked mask s ++ t) m) (
      rw (read_full-append (length s) (masked mask s) t (length-masked mask s))
        (rw (unmask-masked mask s m) refl)))

-- A client's frame is handled with the opcode, the end mark and the data that the client sent,
-- whatever the mask and whatever comes behind the frame, as long as the message it belongs to
-- stays within the cap.
pub read_frame-client_frame :
    (fin : Bool) (op : ℕ) (mask s t : Bytes) (w : WsConn)
    → op < 16
    → length mask ≡ 4
    → length w.msg + length s ≤ max_ws_message
    → read_frame w (client_frame fin op mask s ++ t) ≡ handle op fin s w t
unfolding read_frame client_frame
read_frame-client_frame fin op mask s t w o m h =
    let (b, sb, e, set, size) = size_read (length s) (omega arith) in
    let (p, q) = first_byte fin op o in
    rw (e) (
      rw (p, q, set, append_assoc sb (mask ++ masked mask s) t, append_assoc mask (masked mask s) t)
        (ap (body op fin true w) (size (mask ++ (masked mask s ++ t)))
          ∙ body_frame op fin w mask s t m h))

-- A message in fragments: the first with an opcode, the others as continuations, the last marked.
unfoldable pub message : ℕ → Bytes → Bytes → List Bytes → Bytes
message op mask s [] = client_frame true op mask s
message op mask s (s' ∷ more) = client_frame false op mask s ++ message op_cont mask s' more

unfoldable pub joined : Bytes → List Bytes → Bytes
joined s [] = s
joined s (s' ∷ more) = s ++ joined s' more
