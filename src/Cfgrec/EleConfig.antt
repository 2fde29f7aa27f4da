-- ===== src/Cfgrec/EleConfig.antt =====
-- internal/cfgrec: the configuration of CONFIG.ELE.
pub mod RoundTrip
use ele_bbs_go.Base.{
  ℕ, Bool, List, [], ◌==◌, ◌<◌, ◌-◌, ltb, length, take, drop, replicate, ◌++◌, if◌then◌else◌, Bytes,
}
use ele_bbs_go.Base.Int.{ℤ}
use ele_bbs_go.Pascal.Cp437.{Text}
use ele_bbs_go.Pascal.Buf.{
  Reader, Writer, ◌>>=◌, ◌>>◌, pure, new_buf, fit, get_bool, get_pstring, get_u16, put_bool,
  put_pstring, put_u16,
}

pub record EleConfig : Type 0 where
  pub version_id : ℕ
  pub utility_log : Text
  pub capitalize_username : Bool
  pub attach_password : Text
  pub web_html_path : Text
  pub web_elm_path : Text

-- The chain of reads; Go evaluates the fields in this order.
unfoldable pub read_ele_config : Reader EleConfig
read_ele_config = do
  version_id ← get_u16
  utility_log ← get_pstring 250
  capitalize_username ← get_bool
  attach_password ← get_pstring 15
  web_html_path ← get_pstring 250
  web_elm_path ← get_pstring 250
  pure (record {
    version_id = version_id;
    utility_log = utility_log;
    capitalize_username = capitalize_username;
    attach_password = attach_password;
    web_html_path = web_html_path;
    web_elm_path = web_elm_path;
  })

-- `ParseEleConfig`.
unfoldable pub parse_ele_config : Bytes → EleConfig
parse_ele_config b = (read_ele_config (new_buf b)).0

-- The chain of writes.
unfoldable pub write_ele_config : EleConfig → Writer
write_ele_config t = do
  put_u16 t.version_id
  put_pstring 250 t.utility_log
  put_bool t.capitalize_username
  put_pstring 15 t.attach_password
  put_pstring 250 t.web_html_path
  put_pstring 250 t.web_elm_path

-- `EncodeEleConfig`.
unfoldable pub encode_ele_config : EleConfig → Bytes
encode_ele_config t = write_ele_config t []
