-- ===== src/Cfgrec/Protocol.antt =====
-- internal/cfgrec: the file transfer protocols of protocol.ra.
pub mod RoundTrip
use ele_bbs_go.Base.{
  ℕ, Bool, List, [], ◌==◌, ◌<◌, ◌-◌, ltb, length, take, drop, replicate, ◌++◌, if◌then◌else◌, Bytes,
}
use ele_bbs_go.Base.Int.{ℤ}
use ele_bbs_go.Pascal.Cp437.{Text}
use ele_bbs_go.Pascal.Buf.{
  Reader, Writer, ◌>>=◌, ◌>>◌, pure, new_buf, fit, get_bool, get_pstring, get_u8, put_bool,
  put_pstring, put_u8,
}

pub record Protocol : Type 0 where
  pub name : Text
  pub active_key : ℕ
  pub opus_type : Bool
  pub batch : Bool
  pub attribute : ℕ
  pub log_file_name : Text
  pub ctl_file_name : Text
  pub dn_cmd_string : Text
  pub dn_ctl_string : Text
  pub up_cmd_string : Text
  pub up_ctl_string : Text
  pub up_log_key_word : Text
  pub dn_log_key_word : Text
  pub xfer_desc_word : ℕ
  pub xfer_name_word : ℕ

-- The chain of reads; Go evaluates the fields in this order.
unfoldable pub read_protocol : Reader Protocol
read_protocol = do
  name ← get_pstring 15
  active_key ← get_u8
  opus_type ← get_bool
  batch ← get_bool
  attribute ← get_u8
  log_file_name ← get_pstring 80
  ctl_file_name ← get_pstring 80
  dn_cmd_string ← get_pstring 80
  dn_ctl_string ← get_pstring 80
  up_cmd_string ← get_pstring 80
  up_ctl_string ← get_pstring 80
  up_log_key_word ← get_pstring 20
  dn_log_key_word ← get_pstring 20
  xfer_desc_word ← get_u8
  xfer_name_word ← get_u8
  pure (record {
    name = name;
    active_key = active_key;
    opus_type = opus_type;
    batch = batch;
    attribute = attribute;
    log_file_name = log_file_name;
    ctl_file_name = ctl_file_name;
    dn_cmd_string = dn_cmd_string;
    dn_ctl_string = dn_ctl_string;
    up_cmd_string = up_cmd_string;
    up_ctl_string = up_ctl_string;
    up_log_key_word = up_log_key_word;
    dn_log_key_word = dn_log_key_word;
    xfer_desc_word = xfer_desc_word;
    xfer_name_word = xfer_name_word;
  })

-- `ParseProtocol`.
unfoldable pub parse_protocol : Bytes → Protocol
parse_protocol b = (read_protocol (new_buf b)).0

-- The chain of writes.
unfoldable pub write_protocol : Protocol → Writer
write_protocol t = do
  put_pstring 15 t.name
  put_u8 t.active_key
  put_bool t.opus_type
  put_bool t.batch
  put_u8 t.attribute
  put_pstring 80 t.log_file_name
  put_pstring 80 t.ctl_file_name
  put_pstring 80 t.dn_cmd_string
  put_pstring 80 t.dn_ctl_string
  put_pstring 80 t.up_cmd_string
  put_pstring 80 t.up_ctl_string
  put_pstring 20 t.up_log_key_word
  put_pstring 20 t.dn_log_key_word
  put_u8 t.xfer_desc_word
  put_u8 t.xfer_name_word

-- `EncodeProtocol`.
unfoldable pub encode_protocol : Protocol → Bytes
encode_protocol t = fit 550 (write_protocol t [])
