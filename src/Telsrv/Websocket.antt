-- ===== src/Telsrv/Websocket.antt =====
-- internal/telsrv/websocket.go: the frames of a WebSocket that carries a telnet stream. What is
-- still to come from the client is a list of bytes that ends where the connection does; what is
-- sent is collected in `sent`. Sending does not fail.
pub mod Masks
pub mod Decoded
pub mod Frames
pub mod FrameCap
pub mod Cap
pub mod Fragments
pub mod Plain
use Prim.Native.Nat.{bit_and, bit_xor}
use ele_bbs_go.Base.{
  is_nil, ℕ, zero, suc, ◌+◌, ◌-◌, ◌*◌, ◌/◌, ◌%◌, ◌^◌, Bool, true, false, not, ◌&&◌, ◌||◌, List, [],
  ◌∷◌, ◌++◌, Option, none, some, Bytes, ltb, leb, ◌==◌, if◌then◌else◌, length, take, drop, get_or,
}
use ele_bbs_go.Base.Space.{trim_space}
use ele_bbs_go.Base.Base64.{encode_base64, decode_base64}
use ele_bbs_go.Base.Utf8.{encode_rune, decode_rune}

abbrev pub max_ws_message : ℕ
max_ws_message = 1048576

abbrev pub op_cont : ℕ
op_cont = 0

abbrev pub op_text : ℕ
op_text = 1

abbrev pub op_binary : ℕ
op_binary = 2

abbrev pub op_close : ℕ
op_close = 8

abbrev pub op_ping : ℕ
op_ping = 9

abbrev pub op_pong : ℕ
op_pong = 10

pub data Proto : Type 0 where
  ws_binary : Proto
  ws_base64 : Proto
  ws_plain : Proto

pub record WsConn : Type 0 where
  pub proto : Proto
  pub pend : Bytes
  pub msg : Bytes
  pub cont : ℕ
  pub done : Bool
  pub sent : Bytes

-- Big-endian numbers.
unfoldable pub be_bytes : ℕ → ℕ → Bytes
be_bytes zero n = []
be_bytes (suc k) n = (n / 256 ^ k % 256) ∷ be_bytes k n

unfoldable pub be_value : ℕ → Bytes → ℕ
be_value n [] = n
be_value n (c ∷ s) = be_value (n * 256 + c) s

-- The second byte of a header and the size behind it; `mask` is the mask bit.
unfoldable pub size_bytes : ℕ → ℕ → Bytes
unfolding be_bytes
size_bytes mask n =
    if ltb n 126
    then (mask + n) ∷ []
    else if leb n 65535
    then (mask + 126) ∷ be_bytes 2 n
    else (mask + 127) ∷ be_bytes 8 n

-- `writeFrame`: `0x80 | op` of an opcode below 128.
unfoldable pub write_frame : ℕ → Bytes → WsConn → WsConn
unfolding size_bytes
write_frame op data_ w = record w {
  sent = w.sent ++ ((0x80 + op) ∷ (size_bytes 0 (length data_) ++ data_));
}

-- `io.ReadFull` of `n` bytes: what is read and what is left.
unfoldable pub read_full : ℕ → Bytes → Option (Bytes × Bytes)
read_full n inp = if ltb (length inp) n then none else some (take n inp, drop n inp)

abbrev pub be_field : Option (Bytes × Bytes) → Option (ℕ × Bytes)
be_field none = none
be_field (some (b, inp)) = some (be_value 0 b, inp)

-- The switch on the size in the second byte.
unfoldable pub read_size : ℕ → Bytes → Option (ℕ × Bytes)
unfolding read_full be_value
read_size n inp =
    if n == 126
    then be_field (read_full 2 inp)
    else if n == 127
    then be_field (read_full 8 inp)
    else some (n, inp)

-- The loop that takes the mask off, from index `i` on.
unfoldable pub unmask : ℕ → Bytes → Bytes → Bytes
unmask i mask [] = []
unmask i mask (c ∷ s) = bit_xor c (get_or mask (i % 4) 0) ∷ unmask (suc i) mask s

-- The loop of the plain protocol: each rune becomes its low byte. The bound is on its rounds.
unfoldable pub plain_loop : ℕ → Bytes → Bytes
unfolding decode_rune
plain_loop zero s = []
plain_loop (suc fuel) [] = []
plain_loop (suc fuel) (c ∷ s) =
    ((decode_rune c s).0 % 256) ∷ plain_loop fuel (drop (decode_rune c s).1 (c ∷ s))

unfoldable pub by_proto : Proto → Bytes → Option Bytes
unfolding plain_loop trim_space decode_base64
by_proto ws_binary msg = some msg
by_proto ws_base64 msg = decode_base64 (trim_space msg)
by_proto ws_plain msg = some (plain_loop (length msg) msg)

-- `decode`.
unfoldable pub decode : Proto → ℕ → Bytes → Option Bytes
unfolding by_proto
decode proto op msg = if op == op_binary then some msg else by_proto proto msg

-- How `readFrame` ends: the connection, what is left to read, and whether it reports an error.
pub record Frame : Type 0 where
  pub conn : WsConn
  pub rest : Bytes
  pub failed : Bool

abbrev pub fails : WsConn → Bytes → Frame
fails w rest = record { conn = w; rest = rest; failed = true }

abbrev pub goes_on : WsConn → Bytes → Frame
goes_on w rest = record { conn = w; rest = rest; failed = false }

abbrev pub delivered : WsConn → Option Bytes → Bytes → Frame
delivered w none rest = fails (record w { msg = [] }) rest
delivered w (some b) rest = goes_on (record w { msg = []; pend = b }) rest

-- The end of `readFrame`: an unfinished message waits for more.
unfoldable pub finish : Bool → WsConn → Bytes → Frame
unfolding decode
finish fin w rest =
    if not fin then goes_on w rest else delivered w (decode w.proto w.cont w.msg) rest

abbrev pub close_code : Bytes → Bytes
close_code [] = 0x03 ∷ 0xe8 ∷ []
close_code (a ∷ []) = 0x03 ∷ 0xe8 ∷ []
close_code (a ∷ b ∷ s) = a ∷ b ∷ []

-- The switch on the opcode.
unfoldable pub handle : ℕ → Bool → Bytes → WsConn → Bytes → Frame
unfolding write_frame finish
handle op fin data_ w rest =
    if op == op_ping
    then goes_on (write_frame op_pong data_ w) rest
    else if op == op_pong
    then goes_on w rest
    else if op == op_close
    then goes_on (record (write_frame op_close (close_code data_) w) { done = true }) rest
    else if op == op_text || op == op_binary
    then finish fin (record w { cont = op; msg = data_ }) rest
    else if op == op_cont
    then finish fin (record w { msg = w.msg ++ data_ }) rest
    else fails w rest

abbrev pub with_data : ℕ → Bool → Bytes → WsConn → Option (Bytes × Bytes) → Frame
with_data op fin mask w none = fails w []
with_data op fin mask w (some (data_, rest)) = handle op fin (unmask 0 mask data_) w rest

abbrev pub with_mask : ℕ → Bool → ℕ → WsConn → Option (Bytes × Bytes) → Frame
with_mask op fin size w none = fails w []
with_mask op fin size w (some (mask, inp)) = with_data op fin mask w (read_full size inp)

-- Behind the size.
unfoldable pub body : ℕ → Bool → Bool → WsConn → Option (ℕ × Bytes) → Frame
unfolding handle unmask read_full write_frame
body op fin masked w none = fails w []
body op fin masked w (some (size, inp)) =
    if not masked
    then fails w inp
    else if ltb max_ws_message size || ltb max_ws_message (length w.msg + size)
    then fails (write_frame op_close (0x03 ∷ 0xf1 ∷ []) w) inp
    else with_mask op fin size w (read_full 4 inp)

abbrev pub bit_set : ℕ → Bool
bit_set b = not (bit_and b 0x80 == 0)

-- `readFrame`.
unfoldable pub read_frame : WsConn → Bytes → Frame
unfolding body read_size
read_frame w [] = fails w []
read_frame w (a ∷ []) = fails w []
read_frame w (a ∷ b ∷ inp) =
    body (bit_and a 0x0f) (bit_set a) (bit_set b) w (read_size (bit_and b 0x7f) inp)

-- What `Read` returns, with the connection and the input it leaves.
pub record Got : Type 0 where
  pub payload : Bytes
  pub failed : Bool
  pub conn : WsConn
  pub rest : Bytes

-- `Read` into a buffer of `room` bytes; `none` means that the rounds ran out.
unfoldable pub read_loop : ℕ → ℕ → WsConn → Bytes → Option Got
unfolding read_frame
read_loop zero room w inp = none
read_loop (suc fuel) room w inp =
    let f = read_frame w inp in
    let more = read_loop fuel room f.conn f.rest in
    if not (is_nil w.pend)
    then some (record {
      payload = take room w.pend;
      failed = false;
      conn = record w { pend = drop room w.pend };
      rest = inp;
    })
    else if w.done
    then some (record { payload = []; failed = true; conn = w; rest = inp })
    else if f.failed
    then some (record { payload = []; failed = true; conn = f.conn; rest = f.rest })
    else more

-- Each frame takes two bytes or more.
unfoldable pub read : ℕ → WsConn → Bytes → Option Got
unfolding read_loop
read room w inp = read_loop (length inp + 1) room w inp

-- The loop of the plain protocol in `Write`.
unfoldable pub plain_text : Bytes → Bytes
unfolding encode_rune
plain_text [] = []
plain_text (c ∷ p) = encode_rune c ++ plain_text p

unfoldable pub write_as : Proto → Bytes → WsConn → WsConn
unfolding write_frame plain_text encode_base64
write_as ws_base64 p w = write_frame op_text (encode_base64 p) w
write_as ws_plain p w = write_frame op_text (plain_text p) w
write_as ws_binary p w = write_frame op_binary p w

-- `Write`: nothing is sent for an empty slice.
unfoldable pub write : Bytes → WsConn → WsConn
unfolding write_as
write [] w = w
write (c ∷ p) w = write_as w.proto (c ∷ p) w
