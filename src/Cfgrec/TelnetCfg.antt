-- ===== src/Cfgrec/TelnetCfg.antt =====
-- internal/cfgrec: the telnet server's configuration, TELNET.ELE.
pub mod RoundTrip
use ele_bbs_go.Base.{
  ℕ, zero, suc, Bool, List, [], ◌==◌, ◌<◌, ◌-◌, ltb, length, take, drop, replicate, ◌++◌,
  if◌then◌else◌, Bytes,
}
use ele_bbs_go.Base.Int.{ℤ, pos, negsuc}
use ele_bbs_go.Pascal.Cp437.{Text}
use ele_bbs_go.Pascal.Buf.{
  pad, Reader, Writer, ◌>>=◌, ◌>>◌, pure, new_buf, fit, get_i32, get_pstring, put_i32, put_pstring,
}

pub record TelnetCfg : Type 0 where
  pub max_sessions : ℤ
  pub server_port : ℤ
  pub start_node_with : ℤ
  pub attrib : ℤ
  pub program_path : Text
  pub node_directories : Text

-- The chain of reads; Go evaluates the fields in this order.
unfoldable pub read_telnet : Reader TelnetCfg
read_telnet = do
  max_sessions ← get_i32
  server_port ← get_i32
  start_node_with ← get_i32
  attrib ← get_i32
  program_path ← get_pstring 255
  node_directories ← get_pstring 255
  pure (record {
    max_sessions = max_sessions;
    server_port = server_port;
    start_node_with = start_node_with;
    attrib = attrib;
    program_path = program_path;
    node_directories = node_directories;
  })

-- A number that is 0 is replaced by its default.
abbrev pub or_default : ℤ → ℕ → ℤ
or_default (pos zero) d = pos d
or_default (pos (suc n)) d = pos (suc n)
or_default (negsuc n) d = negsuc n

-- `ParseTelnet`.
unfoldable pub parse_telnet : Bytes → TelnetCfg
parse_telnet b =
    let t = (read_telnet (new_buf b)).0 in
    record t {
      server_port = or_default t.server_port 23;
      max_sessions = or_default t.max_sessions 10;
      start_node_with = or_default t.start_node_with 1;
    }

-- The chain of writes.
unfoldable pub write_telnet : TelnetCfg → Writer
write_telnet t = do
  put_i32 t.max_sessions
  put_i32 t.server_port
  put_i32 t.start_node_with
  put_i32 t.attrib
  put_pstring 255 t.program_path
  put_pstring 255 t.node_directories

-- `EncodeTelnet`.
unfoldable pub encode_telnet : TelnetCfg → Bytes
encode_telnet t = pad 80 (write_telnet t [])
