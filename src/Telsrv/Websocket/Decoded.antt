-- ===== src/Telsrv/Websocket/Decoded.antt =====
-- A message never gets longer by decoding.
use ele_bbs_go.Base.{ℕ, zero, suc, ◌≤◌, [], ◌∷◌, arith, ◌==◌, Bytes, length, drop, if_both}
use ele_bbs_go.Base.Space.{trim_space, length-trim_space}
use ele_bbs_go.Base.Base64.Size.{size_of, length-decode_base64}
use ele_bbs_go.Base.Utf8.{decode_rune}
use ele_bbs_go.Telsrv.Websocket.{
  Proto, ws_binary, ws_base64, ws_plain, op_binary, plain_loop, by_proto, decode,
}

length-plain_loop : (fuel : ℕ) (s : Bytes) → length (plain_loop fuel s) ≤ fuel
unfolding plain_loop
length-plain_loop zero s = omega arith
length-plain_loop (suc fuel) [] = omega arith
length-plain_loop (suc fuel) (c ∷ s) =
    omega (arith, length-plain_loop fuel (drop (decode_rune c s).1 (c ∷ s)))

length-by_proto : (p : Proto) (msg : Bytes) → size_of (by_proto p msg) ≤ length msg
unfolding by_proto
length-by_proto ws_binary msg = omega arith
length-by_proto ws_base64 msg =
    omega (arith, length-decode_base64 (trim_space msg), length-trim_space msg)
length-by_proto ws_plain msg = length-plain_loop (length msg) msg

pub length-decode : (p : Proto) (op : ℕ) (msg : Bytes) → size_of (decode p op msg) ≤ length msg
unfolding decode
length-decode p op msg =
    if_both (λ r. size_of r ≤ length msg) (op == op_binary) (omega arith) (length-by_proto p msg)
