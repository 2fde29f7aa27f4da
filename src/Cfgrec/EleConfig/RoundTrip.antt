-- ===== src/Cfgrec/EleConfig/RoundTrip.antt =====
-- The configuration of CONFIG.ELE is written and read back.
use ele_bbs_go.Base.{
  ◌<◌, ◌≡◌, refl, sym, ap, ◌∙◌, [], ◌∷◌, ◌++◌, append-nil, arith, Bytes, length, length-append,
}
use ele_bbs_go.Pascal.Text.ShortString.{FitsString}
use ele_bbs_go.Pascal.Buf.{new_buf}
use ele_bbs_go.Pascal.Buf.Codec.{
  Reads, Writes, Reads-bind, Reads-last, Reads-run, Writes->>, pstring_bytes, length-pstring_bytes,
  u16_bytes, bool_byte, Reads-bool, Reads-pstring, Reads-u16, Writes-bool, Writes-pstring,
  Writes-u16,
}
use ele_bbs_go.Cfgrec.EleConfig.{
  EleConfig, read_ele_config, write_ele_config, encode_ele_config, parse_ele_config,
}

-- Each field holds a value that its place in the record can hold.
pub record FitsEleConfig (t : EleConfig) : Type 0 where
  pub version_id : t.version_id < 65536
  pub utility_log : FitsString 250 t.utility_log
  pub attach_password : FitsString 15 t.attach_password
  pub web_html_path : FitsString 250 t.web_html_path
  pub web_elm_path : FitsString 250 t.web_elm_path

-- The bytes of the record, field by field.
pub ele_config_bytes : EleConfig → Bytes
ele_config_bytes t =
    u16_bytes t.version_id
    ++ (pstring_bytes 250 t.utility_log
        ++ ((bool_byte t.capitalize_username ∷ [])
            ++ (pstring_bytes 15 t.attach_password
                ++ (pstring_bytes 250 t.web_html_path ++ (pstring_bytes 250 t.web_elm_path)))))

pub write_ele_config-bytes : (t : EleConfig) → Writes (write_ele_config t) (ele_config_bytes t)
unfolding write_ele_config ele_config_bytes
write_ele_config-bytes t = Writes->> _ _ (Writes-u16 t.version_id) (
    Writes->> _ _ (Writes-pstring 250 t.utility_log) (
      Writes->> _ _ (Writes-bool t.capitalize_username) (
        Writes->> _ _ (Writes-pstring 15 t.attach_password) (
          Writes->> _ _ (Writes-pstring 250 t.web_html_path) (Writes-pstring 250 t.web_elm_path)))))

pub read_ele_config-bytes :
    (t : EleConfig) → FitsEleConfig t → Reads read_ele_config (ele_config_bytes t) t
unfolding read_ele_config ele_config_bytes
read_ele_config-bytes t h = Reads-bind _ (Reads-u16 t.version_id h.version_id) (
    Reads-bind _ (Reads-pstring 250 t.utility_log (omega arith) h.utility_log) (
      Reads-bind _ (Reads-bool t.capitalize_username) (
        Reads-bind _ (Reads-pstring 15 t.attach_password (omega arith) h.attach_password) (
          Reads-bind _ (Reads-pstring 250 t.web_html_path (omega arith) h.web_html_path)
            (Reads-last _ (Reads-pstring 250 t.web_elm_path (omega arith) h.web_elm_path) refl)))))

pub length-ele_config_bytes : (t : EleConfig) → length (ele_config_bytes t) ≡ 772
unfolding ele_config_bytes
length-ele_config_bytes t = simp (length-append, length-pstring_bytes)

encode_ele_config-bytes : (t : EleConfig) → encode_ele_config t ≡ ele_config_bytes t
unfolding encode_ele_config
encode_ele_config-bytes t = (write_ele_config-bytes t).out []

read_encoded :
    (t : EleConfig) → FitsEleConfig t → (read_ele_config (new_buf (encode_ele_config t))).0 ≡ t
read_encoded t h = rw (encode_ele_config-bytes t) (
    ap (λ (b : Bytes). (read_ele_config (new_buf b)).0) (sym (append-nil (ele_config_bytes t)))
    ∙ Reads-run [] (read_ele_config-bytes t h))

-- The configuration of CONFIG.ELE is read back as it was written, if its fields fit.
pub parse_ele_config-encode_ele_config :
    (t : EleConfig) → FitsEleConfig t → parse_ele_config (encode_ele_config t) ≡ t
unfolding parse_ele_config
parse_ele_config-encode_ele_config t h = read_encoded t h
