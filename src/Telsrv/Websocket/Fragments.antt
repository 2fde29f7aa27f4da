-- ===== src/Telsrv/Websocket/Fragments.antt =====
-- A binary message is delivered whole, however a client cuts it into fragments.
use ele_bbs_go.Base.{ℕ, ◌≡◌, false, [], Bytes, take, drop}
use ele_bbs_go.Telsrv.Websocket.{WsConn, Got}

-- Ready for a frame: nothing is waiting for the caller, and the client has not closed.
pub record IsOpen (w : WsConn) : Type 0 where
  pub pend : w.pend ≡ []
  pub done : w.done ≡ false

-- What a caller with a buffer of `room` bytes gets of a message that was read whole.
abbrev pub first_part : ℕ → WsConn → Bytes → Bytes → Got
first_part room w whole rest = record {
  payload = take room whole;
  failed = false;
  conn = record w { msg = []; pend = drop room whole };
  rest = rest;
}
