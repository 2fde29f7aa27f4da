-- ===== src/Telsrv/Websocket/Cap.antt =====
-- However a client behaves, `Read` returns, and keeps neither a message nor the data of one past the
-- cap.
use ele_bbs_go.Base.{
  is_nil, ℕ, zero, suc, ◌+◌, ◌≤◌, ◌<◌, ◌≡◌, refl, inl, inr, true, false, [], some, arith, Bytes,
  length, take, drop, length-take, length-drop, Bool-cases,
}
use ele_bbs_go.Telsrv.Websocket.{WsConn, max_ws_message, read_frame, Got, read_loop, read}
use ele_bbs_go.Telsrv.Websocket.FrameCap.{IsWithin, read_frame-IsWithin, read_frame-shrinks}

-- What `Read` returns fits the buffer, and with the data that still waits it is within the cap.
pub record IsBounded (room : ℕ) (g : Got) : Type 0 where
  pub msg : length g.conn.msg ≤ max_ws_message
  pub fits : length g.payload ≤ room
  pub data_ : length g.payload + length g.conn.pend ≤ max_ws_message

nothing-IsBounded :
    (room : ℕ) (w : WsConn) (rest : Bytes)
    → IsWithin w
    → IsBounded room (record { payload = []; failed = true; conn = w; rest = rest })
nothing-IsBounded room w rest k = record {
  msg = k.msg;
  fits = omega arith;
  data_ = omega (arith, k.pend);
}

waiting-IsBounded :
    (room : ℕ) (w : WsConn) (rest : Bytes)
    → IsWithin w
    → IsBounded room (record {
      payload = take room w.pend;
      failed = false;
      conn = record w { pend = drop room w.pend };
      rest = rest;
    })
waiting-IsBounded room w rest k = record {
  msg = k.msg;
  fits = omega (arith, length-take room w.pend);
  data_ = omega (arith, length-take room w.pend, length-drop room w.pend, k.pend);
}

read_loop_total :
    (fuel room : ℕ) (w : WsConn) (inp : Bytes)
    → length inp < fuel
    → IsWithin w
    → (g : Got) × (read_loop fuel room w inp ≡ some g) × IsBounded room g
unfolding read_loop
read_loop_total zero room w inp l k = absurd (omega arith)
read_loop_total (suc fuel) room w inp l k =
    let f = read_frame w inp in
    let k' = read_frame-IsWithin w inp k in
    elim (Bool-cases (is_nil w.pend)) [
      | inr p ↦ (_, rw p refl, waiting-IsBounded room w inp k)
      | inl p ↦ elim (Bool-cases w.done) [
        | inl d ↦ (_, simp (p, d) refl, nothing-IsBounded room w inp k)
        | inr d ↦ elim (Bool-cases f.failed) [
          | inl e ↦ (_, simp (p, d, e) refl, nothing-IsBounded room f.conn f.rest k')
          | inr e ↦
              let later =
                read_loop_total fuel room f.conn f.rest
                  (omega (arith, read_frame-shrinks w inp k e)) k' in
              (later.0, simp (p, d, e) later.1, later.2)
        ]
      ]
    ]

-- Whatever a client sends, `Read` returns, and keeps to the cap of a message: from a connection
-- whose unfinished message and waiting data are within it, it returns no more than the room of the
-- buffer, and neither the unfinished message nor what is returned and still waits gets past the cap.
pub read-IsCapped :
    (room : ℕ) (w : WsConn) (inp : Bytes)
    → length w.msg ≤ max_ws_message
    → length w.pend ≤ max_ws_message
    → (g : Got) × (read room w inp ≡ some g) × IsBounded room g
unfolding read
read-IsCapped room w inp m p =
    read_loop_total (length inp + 1) room w inp (omega arith) (record { msg = m; pend = p })
