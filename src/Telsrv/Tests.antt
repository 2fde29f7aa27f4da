-- ===== src/Telsrv/Tests.antt =====
-- The pool with one caller.
use ele_bbs_go.Base.{Bytes, some, ◌≤◌, ◌≡◌, ◌≢◌, refl, true, false, [], ◌∷◌, arith, if◌then◌else◌}
use ele_bbs_go.Base.Int.{pos}
use ele_bbs_go.Online.FirstFree.{first_free, search_from, first_node, last_node}
use ele_bbs_go.Cfgrec.TelnetCfg.{TelnetCfg}
use ele_bbs_go.Telsrv.Pool.{acquire_node, release_node, sessions}
use ele_bbs_go.Telsrv.Pool.Ownership.{
  Servers, connect, here, next, no_callers, count, Reach-count-le, acquire_node-release_node,
}
use ele_bbs_go.Base.Base64.{encode_base64, decode_base64}
use ele_bbs_go.Base.Base64.RoundTrip.{decode_base64-encode_base64}
use ele_bbs_go.Telsrv.Websocket.{WsConn, ws_binary, Got, read, op_ping}
use ele_bbs_go.Telsrv.Websocket.Cap.{IsBounded, read-IsCapped}
use ele_bbs_go.Telsrv.Websocket.Frames.{client_frame}

abbrev two_nodes : TelnetCfg
two_nodes = record {
  max_sessions = pos 2;
  server_port = pos 23;
  start_node_with = pos 3;
  attrib = pos 0;
  program_path = [];
  node_directories = [];
}

third_node : (acquire_node two_nodes (λ _. false)).0 ≡ 3
unfolding acquire_node first_free search_from first_node last_node sessions
third_node = refl

abbrev one_caller : Servers
one_caller = record {
  in_use = (acquire_node two_nodes (λ _. false)).1;
  held = (acquire_node two_nodes (λ _. false)).0 ∷ [];
}

Reach-count-le_example :
    (count 3 one_caller.held ≡ (if one_caller.in_use 3 then 1 else 0))
    × (count 3 one_caller.held ≤ 1)
Reach-count-le_example =
    Reach-count-le 3
      (next here (connect no_callers two_nodes (λ e. absurd (omega (arith, third_node, e)))))

acquire_node-release_node_example :
    ((acquire_node two_nodes (release_node 4 (λ _. true))).0 ≢ 0)
    × ((acquire_node two_nodes (release_node 4 (λ _. true))).0 ≤ 4)
unfolding first_node last_node sessions
acquire_node-release_node_example =
    acquire_node-release_node two_nodes (λ _. true) 4 (omega arith) (omega arith)

abbrev opened : WsConn
opened = record { proto = ws_binary; pend = []; msg = []; cont = 0; done = false; sent = [] }

abbrev mask : Bytes
mask = 1 ∷ 2 ∷ 3 ∷ 255 ∷ []

read-IsCapped_example :
    (g : Got) × (read 10 opened (client_frame true op_ping mask (9 ∷ [])) ≡ some g) × IsBounded 10 g
read-IsCapped_example =
    read-IsCapped 10 opened (client_frame true op_ping mask (9 ∷ [])) (omega arith) (omega arith)

decode_base64-encode_base64_example :
    decode_base64 (encode_base64 (b'a' ∷ 255 ∷ 0 ∷ b'b' ∷ [])) ≡ some (b'a' ∷ 255 ∷ 0 ∷ b'b' ∷ [])
decode_base64-encode_base64_example =
    decode_base64-encode_base64 (b'a' ∷ 255 ∷ 0 ∷ b'b' ∷ [])
      (omega arith, (omega arith, (omega arith, (omega arith, tt))))
