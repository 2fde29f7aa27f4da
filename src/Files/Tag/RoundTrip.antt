-- ===== src/Files/Tag/RoundTrip.antt =====
-- The tag record is written and read back.
use ele_bbs_go.Base.{
  ◌<◌, ◌≡◌, refl, sym, ap, ◌∙◌, [], ◌∷◌, ◌++◌, append-nil, arith, Bytes, length, length-append,
}
use ele_bbs_go.Base.Int.{to_u32, IsI32}
use ele_bbs_go.Pascal.Text.ShortString.{FitsString}
use ele_bbs_go.Pascal.Buf.{new_buf}
use ele_bbs_go.Pascal.Buf.Codec.{
  Reads, Writes, Reads-bind, Reads-last, Reads-run, Writes->>, fit_exact, pstring_bytes,
  length-pstring_bytes, u16_bytes, u32_bytes, bool_byte, Reads-bool, Reads-i32, Reads-pstring,
  Reads-u16, Reads-u8, Writes-bool, Writes-i32, Writes-pstring, Writes-u16, Writes-u8,
}
use ele_bbs_go.Files.Tag.{TagFile, read_tag_file, write_tag_file, encode_tag_file, parse_tag_file}

-- Each field holds a value that its place in the record can hold.
pub record FitsTagFile (t : TagFile) : Type 0 where
  pub name : FitsString 12 t.name
  pub password : FitsString 15 t.password
  pub area_num : t.area_num < 65536
  pub record_num : t.record_num < 65536
  pub size : IsI32 t.size
  pub file_date : IsI32 t.file_date
  pub cost : IsI32 t.cost
  pub xfer_time : t.xfer_time < 65536

-- The bytes of the record, field by field.
pub tag_file_bytes : TagFile → Bytes
tag_file_bytes t =
    pstring_bytes 12 t.name
    ++ (pstring_bytes 15 t.password
        ++ ((t.attrib ∷ [])
            ++ (u16_bytes t.area_num
                ++ (u16_bytes t.record_num
                    ++ (u32_bytes (to_u32 t.size)
                        ++ (u32_bytes (to_u32 t.file_date)
                            ++ (u32_bytes (to_u32 t.cost)
                                ++ ((bool_byte t.cdrom ∷ [])
                                    ++ ((bool_byte t.found_first ∷ [])
                                        ++ (u16_bytes t.xfer_time))))))))))

pub write_tag_file-bytes : (t : TagFile) → Writes (write_tag_file t) (tag_file_bytes t)
unfolding write_tag_file tag_file_bytes
write_tag_file-bytes t = Writes->> _ _ (Writes-pstring 12 t.name) (
    Writes->> _ _ (Writes-pstring 15 t.password) (
      Writes->> _ _ (Writes-u8 t.attrib) (
        Writes->> _ _ (Writes-u16 t.area_num) (
          Writes->> _ _ (Writes-u16 t.record_num) (
            Writes->> _ _ (Writes-i32 t.size) (
              Writes->> _ _ (Writes-i32 t.file_date) (
                Writes->> _ _ (Writes-i32 t.cost) (
                  Writes->> _ _ (Writes-bool t.cdrom)
                    (Writes->> _ _ (Writes-bool t.found_first) (Writes-u16 t.xfer_time))))))))))

pub read_tag_file-bytes : (t : TagFile) → FitsTagFile t → Reads read_tag_file (tag_file_bytes t) t
unfolding read_tag_file tag_file_bytes
read_tag_file-bytes t h = Reads-bind _ (Reads-pstring 12 t.name (omega arith) h.name) (
    Reads-bind _ (Reads-pstring 15 t.password (omega arith) h.password) (
      Reads-bind _ (Reads-u8 t.attrib) (
        Reads-bind _ (Reads-u16 t.area_num h.area_num) (
          Reads-bind _ (Reads-u16 t.record_num h.record_num) (
            Reads-bind _ (Reads-i32 t.size h.size) (
              Reads-bind _ (Reads-i32 t.file_date h.file_date) (
                Reads-bind _ (Reads-i32 t.cost h.cost) (
                  Reads-bind _ (Reads-bool t.cdrom) (
                    Reads-bind _ (Reads-bool t.found_first)
                      (Reads-last _ (Reads-u16 t.xfer_time h.xfer_time) refl))))))))))

length-tag_file_bytes : (t : TagFile) → length (tag_file_bytes t) ≡ 50
unfolding tag_file_bytes
length-tag_file_bytes t = simp (length-append, length-pstring_bytes)

encode_tag_file-bytes : (t : TagFile) → encode_tag_file t ≡ tag_file_bytes t
unfolding encode_tag_file
encode_tag_file-bytes t =
    rw ((write_tag_file-bytes t).out []) (fit_exact 50 (tag_file_bytes t) (length-tag_file_bytes t))

-- Every encoded tag takes exactly the 50 bytes of a record, whatever its fields hold.
pub length-encode_tag_file : (t : TagFile) → length (encode_tag_file t) ≡ 50
length-encode_tag_file t = rw (encode_tag_file-bytes t) (length-tag_file_bytes t)

-- A tag whose fields fit their places is read back from its record.
pub parse_tag_file-encode_tag_file :
    (t : TagFile) → FitsTagFile t → parse_tag_file (encode_tag_file t) ≡ t
unfolding parse_tag_file
parse_tag_file-encode_tag_file t h = rw (encode_tag_file-bytes t) (
    ap (λ (b : Bytes). (read_tag_file (new_buf b)).0) (sym (append-nil (tag_file_bytes t)))
    ∙ Reads-run [] (read_tag_file-bytes t h))
