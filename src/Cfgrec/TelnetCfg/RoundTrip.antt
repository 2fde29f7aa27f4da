-- ===== src/Cfgrec/TelnetCfg/RoundTrip.antt =====
-- The telnet configuration is written and read back.
use ele_bbs_go.Base.{
  ℕ, zero, suc, ◌≡◌, ◌≢◌, refl, [], ◌++◌, arith, Bytes, length, replicate, length-append,
}
use ele_bbs_go.Base.Int.{ℤ, pos, negsuc, to_u32, IsI32}
use ele_bbs_go.Pascal.Text.ShortString.{FitsString}
use ele_bbs_go.Pascal.Buf.{new_buf}
use ele_bbs_go.Pascal.Buf.Codec.{
  Reads, Writes, Reads-bind, Reads-last, Reads-run, Writes->>, pstring_bytes, length-pstring_bytes,
  u32_bytes, Reads-i32, Reads-pstring, Writes-i32, Writes-pstring, Writes-pad,
}
use ele_bbs_go.Cfgrec.TelnetCfg.{
  TelnetCfg, read_telnet, write_telnet, encode_telnet, parse_telnet, or_default,
}

-- Each field holds a value that its place in the record can hold.
pub record FitsTelnetCfg (t : TelnetCfg) : Type 0 where
  pub max_sessions : IsI32 t.max_sessions
  pub server_port : IsI32 t.server_port
  pub start_node_with : IsI32 t.start_node_with
  pub attrib : IsI32 t.attrib
  pub program_path : FitsString 255 t.program_path
  pub node_directories : FitsString 255 t.node_directories
  pub has_port : t.server_port ≢ pos 0
  pub has_sessions : t.max_sessions ≢ pos 0
  pub has_start : t.start_node_with ≢ pos 0

-- The bytes of the record, field by field.
pub telnet_bytes : TelnetCfg → Bytes
telnet_bytes t =
    u32_bytes (to_u32 t.max_sessions)
    ++ (u32_bytes (to_u32 t.server_port)
        ++ (u32_bytes (to_u32 t.start_node_with)
            ++ (u32_bytes (to_u32 t.attrib)
                ++ (pstring_bytes 255 t.program_path ++ (pstring_bytes 255 t.node_directories)))))

pub write_telnet-bytes : (t : TelnetCfg) → Writes (write_telnet t) (telnet_bytes t)
unfolding write_telnet telnet_bytes
write_telnet-bytes t = Writes->> _ _ (Writes-i32 t.max_sessions) (
    Writes->> _ _ (Writes-i32 t.server_port) (
      Writes->> _ _ (Writes-i32 t.start_node_with) (
        Writes->> _ _ (Writes-i32 t.attrib) (
          Writes->> _ _ (Writes-pstring 255 t.program_path)
            (Writes-pstring 255 t.node_directories)))))

pub read_telnet-bytes : (t : TelnetCfg) → FitsTelnetCfg t → Reads read_telnet (telnet_bytes t) t
unfolding read_telnet telnet_bytes
read_telnet-bytes t h = Reads-bind _ (Reads-i32 t.max_sessions h.max_sessions) (
    Reads-bind _ (Reads-i32 t.server_port h.server_port) (
      Reads-bind _ (Reads-i32 t.start_node_with h.start_node_with) (
        Reads-bind _ (Reads-i32 t.attrib h.attrib) (
          Reads-bind _ (Reads-pstring 255 t.program_path (omega arith) h.program_path) (
            Reads-last _ (Reads-pstring 255 t.node_directories (omega arith) h.node_directories)
              refl)))))

pub length-telnet_bytes : (t : TelnetCfg) → length (telnet_bytes t) ≡ 528
unfolding telnet_bytes
length-telnet_bytes t = simp (length-append, length-pstring_bytes)

encode_telnet-bytes : (t : TelnetCfg) → encode_telnet t ≡ telnet_bytes t ++ replicate 80 0
unfolding encode_telnet
encode_telnet-bytes t = rw ((write_telnet-bytes t).out []) ((Writes-pad 80).out (telnet_bytes t))

read_encoded : (t : TelnetCfg) → FitsTelnetCfg t → (read_telnet (new_buf (encode_telnet t))).0 ≡ t
read_encoded t h = rw (encode_telnet-bytes t) (Reads-run (replicate 80 0) (read_telnet-bytes t h))

set_already : (v : ℤ) (d : ℕ) → v ≢ pos 0 → or_default v d ≡ v
set_already (pos zero) d h = absurd (h refl)
set_already (pos (suc n)) d h = refl
set_already (negsuc n) d h = refl

-- A telnet configuration whose fields fit, with a port, a session limit and a first node set, is
-- read back as it was written.
pub parse_telnet-encode_telnet :
    (t : TelnetCfg) → FitsTelnetCfg t → parse_telnet (encode_telnet t) ≡ t
unfolding parse_telnet
parse_telnet-encode_telnet t h = rw (read_encoded t h) (
    rw
      (
        set_already t.server_port 23 h.has_port,
        set_already t.max_sessions 10 h.has_sessions,
        set_already t.start_node_with 1 h.has_start,
      )
      refl)
