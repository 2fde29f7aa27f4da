-- ===== src/Cfgrec/Protocol/RoundTrip.antt =====
-- The protocol record is written and read back.
use ele_bbs_go.Base.{
  ◌≡◌, refl, sym, ap, ◌∙◌, [], ◌∷◌, ◌++◌, append-nil, arith, Bytes, length, length-append,
}
use ele_bbs_go.Pascal.Text.ShortString.{FitsString}
use ele_bbs_go.Pascal.Buf.{new_buf}
use ele_bbs_go.Pascal.Buf.Codec.{
  Reads, Writes, Reads-bind, Reads-last, Reads-run, Writes->>, fit_exact, length-fit, pstring_bytes,
  length-pstring_bytes, bool_byte, Reads-bool, Reads-pstring, Reads-u8, Writes-bool, Writes-pstring,
  Writes-u8,
}
use ele_bbs_go.Cfgrec.Protocol.{
  Protocol, read_protocol, write_protocol, encode_protocol, parse_protocol,
}

-- Each field holds a value that its place in the record can hold.
pub record FitsProtocol (t : Protocol) : Type 0 where
  pub name : FitsString 15 t.name
  pub log_file_name : FitsString 80 t.log_file_name
  pub ctl_file_name : FitsString 80 t.ctl_file_name
  pub dn_cmd_string : FitsString 80 t.dn_cmd_string
  pub dn_ctl_string : FitsString 80 t.dn_ctl_string
  pub up_cmd_string : FitsString 80 t.up_cmd_string
  pub up_ctl_string : FitsString 80 t.up_ctl_string
  pub up_log_key_word : FitsString 20 t.up_log_key_word
  pub dn_log_key_word : FitsString 20 t.dn_log_key_word

-- The bytes of the record, field by field.
pub protocol_bytes : Protocol → Bytes
protocol_bytes t =
    pstring_bytes 15 t.name
    ++ ((t.active_key ∷ [])
        ++ ((bool_byte t.opus_type ∷ [])
            ++ ((bool_byte t.batch ∷ [])
                ++ ((t.attribute ∷ [])
                    ++ (pstring_bytes 80 t.log_file_name
                        ++ (pstring_bytes 80 t.ctl_file_name
                            ++ (pstring_bytes 80 t.dn_cmd_string
                                ++ (pstring_bytes 80 t.dn_ctl_string
                                    ++ (pstring_bytes 80 t.up_cmd_string
                                        ++ (pstring_bytes 80 t.up_ctl_string
                                            ++ (pstring_bytes 20 t.up_log_key_word
                                                ++ (pstring_bytes 20 t.dn_log_key_word
                                                    ++ ((t.xfer_desc_word ∷ [])
                                                        ++ ((t.xfer_name_word ∷ [])))))))))))))))

pub write_protocol-bytes : (t : Protocol) → Writes (write_protocol t) (protocol_bytes t)
unfolding write_protocol protocol_bytes
write_protocol-bytes t = Writes->> _ _ (Writes-pstring 15 t.name) (
    Writes->> _ _ (Writes-u8 t.active_key) (
      Writes->> _ _ (Writes-bool t.opus_type) (
        Writes->> _ _ (Writes-bool t.batch) (
          Writes->> _ _ (Writes-u8 t.attribute) (
            Writes->> _ _ (Writes-pstring 80 t.log_file_name) (
              Writes->> _ _ (Writes-pstring 80 t.ctl_file_name) (
                Writes->> _ _ (Writes-pstring 80 t.dn_cmd_string) (
                  Writes->> _ _ (Writes-pstring 80 t.dn_ctl_string) (
                    Writes->> _ _ (Writes-pstring 80 t.up_cmd_string) (
                      Writes->> _ _ (Writes-pstring 80 t.up_ctl_string) (
                        Writes->> _ _ (Writes-pstring 20 t.up_log_key_word) (
                          Writes->> _ _ (Writes-pstring 20 t.dn_log_key_word) (
                            Writes->> _ _ (Writes-u8 t.xfer_desc_word)
                              (Writes-u8 t.xfer_name_word))))))))))))))

pub read_protocol-bytes : (t : Protocol) → FitsProtocol t → Reads read_protocol (protocol_bytes t) t
unfolding read_protocol protocol_bytes
read_protocol-bytes t h = Reads-bind _ (Reads-pstring 15 t.name (omega arith) h.name) (
    Reads-bind _ (Reads-u8 t.active_key) (
      Reads-bind _ (Reads-bool t.opus_type) (
        Reads-bind _ (Reads-bool t.batch) (
          Reads-bind _ (Reads-u8 t.attribute) (
            Reads-bind _ (Reads-pstring 80 t.log_file_name (omega arith) h.log_file_name) (
              Reads-bind _ (Reads-pstring 80 t.ctl_file_name (omega arith) h.ctl_file_name) (
                Reads-bind _ (Reads-pstring 80 t.dn_cmd_string (omega arith) h.dn_cmd_string) (
                  Reads-bind _ (Reads-pstring 80 t.dn_ctl_string (omega arith) h.dn_ctl_string) (
                    Reads-bind _ (Reads-pstring 80 t.up_cmd_string (omega arith) h.up_cmd_string) (
                      Reads-bind _ (Reads-pstring 80 t.up_ctl_string (omega arith) h.up_ctl_string)
                        (Reads-bind _
                          (Reads-pstring 20 t.up_log_key_word (omega arith) h.up_log_key_word)
                          (Reads-bind _
                            (Reads-pstring 20 t.dn_log_key_word (omega arith) h.dn_log_key_word)
                            (Reads-bind _ (Reads-u8 t.xfer_desc_word)
                              (Reads-last _ (Reads-u8 t.xfer_name_word) refl))))))))))))))

pub length-protocol_bytes : (t : Protocol) → length (protocol_bytes t) ≡ 550
unfolding protocol_bytes
length-protocol_bytes t = simp (length-append, length-pstring_bytes)

encode_protocol-bytes : (t : Protocol) → encode_protocol t ≡ protocol_bytes t
unfolding encode_protocol
encode_protocol-bytes t =
    rw ((write_protocol-bytes t).out [])
      (fit_exact 550 (protocol_bytes t) (length-protocol_bytes t))

-- The protocol record takes exactly 550 bytes, whatever its fields hold.
pub length-encode_protocol : (t : Protocol) → length (encode_protocol t) ≡ 550
unfolding encode_protocol
length-encode_protocol t =
    rw ((write_protocol-bytes t).out [])
      (length-fit 550 (protocol_bytes t) (omega (arith, length-protocol_bytes t)))

read_encoded : (t : Protocol) → FitsProtocol t → (read_protocol (new_buf (encode_protocol t))).0 ≡ t
read_encoded t h = rw (encode_protocol-bytes t) (
    ap (λ (b : Bytes). (read_protocol (new_buf b)).0) (sym (append-nil (protocol_bytes t)))
    ∙ Reads-run [] (read_protocol-bytes t h))

-- A transfer protocol is read back as it was written, if its texts fit.
pub parse_protocol-encode_protocol :
    (t : Protocol) → FitsProtocol t → parse_protocol (encode_protocol t) ≡ t
unfolding parse_protocol
parse_protocol-encode_protocol t h = read_encoded t h
