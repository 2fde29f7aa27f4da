-- ===== src/Cfgrec/User/RoundTrip.antt =====
-- The user record is written and read back.
use ele_bbs_go.Base.{
  ◌<◌, ◌≡◌, refl, [], ◌∷◌, ◌++◌, arith, ◌==◌, if◌then◌else◌, Bytes, length, All, length-append,
}
use ele_bbs_go.Base.Int.{to_u16, to_u32, IsI16, IsI32}
use ele_bbs_go.Pascal.Text.ShortString.{FitsString}
use ele_bbs_go.Pascal.Buf.{new_buf, put_u16}
use ele_bbs_go.Pascal.Buf.Codec.{
  Reads, Writes, Reads-bind, Reads-last, Reads-run, Writes->>, fit_short, length-fit, pstring_bytes,
  length-pstring_bytes, u16_bytes, u32_bytes, each_bytes, length-each_u16, Reads-flags, Reads-i16,
  Reads-i32, Reads-pstring, Reads-u16, Reads-u16s, Reads-u8, Writes-each, Writes-flags, Writes-i16,
  Writes-i32, Writes-pstring, Writes-u16, Writes-u8,
}
use ele_bbs_go.Cfgrec.User.{User, read_user, write_user, encode_user, parse_user}

-- Each field holds a value that its place in the record can hold.
pub record FitsUser (t : User) : Type 0 where
  pub name : FitsString 35 t.name
  pub location : FitsString 25 t.location
  pub organisation : FitsString 50 t.organisation
  pub address1 : FitsString 50 t.address1
  pub address2 : FitsString 50 t.address2
  pub address3 : FitsString 50 t.address3
  pub handle : FitsString 35 t.handle
  pub comment : FitsString 80 t.comment
  pub password_crc : IsI32 t.password_crc
  pub data_phone : FitsString 15 t.data_phone
  pub voice_phone : FitsString 15 t.voice_phone
  pub last_time : FitsString 5 t.last_time
  pub last_date : FitsString 8 t.last_date
  pub flags : length t.flags ≡ 4
  pub credit : IsI32 t.credit
  pub pending : IsI32 t.pending
  pub msgs_posted : t.msgs_posted < 65536
  pub security : t.security < 65536
  pub last_read : IsI32 t.last_read
  pub no_calls : IsI32 t.no_calls
  pub uploads : IsI32 t.uploads
  pub downloads : IsI32 t.downloads
  pub uploads_k : IsI32 t.uploads_k
  pub downloads_k : IsI32 t.downloads_k
  pub today_k : IsI32 t.today_k
  pub elapsed : IsI16 t.elapsed
  pub screen_length : t.screen_length < 65536
  pub group : t.group < 65536
  pub combined : (length t.combined ≡ 200) × All (λ w. w < 65536) t.combined
  pub first_date : FitsString 8 t.first_date
  pub birth_date : FitsString 8 t.birth_date
  pub sub_date : FitsString 8 t.sub_date
  pub forward_to : FitsString 35 t.forward_to
  pub msg_area : t.msg_area < 65536
  pub file_area : t.file_area < 65536
  pub file_group : t.file_group < 65536
  pub xi_record : IsI32 t.xi_record
  pub msg_group : t.msg_group < 65536
  pub password : FitsString 15 t.password

-- The bytes of the record, field by field.
pub user_bytes : User → Bytes
user_bytes t =
    pstring_bytes 35 t.name
    ++ (pstring_bytes 25 t.location
        ++ (pstring_bytes 50 t.organisation
            ++ (pstring_bytes 50 t.address1
                ++ (pstring_bytes 50 t.address2
                    ++ (pstring_bytes 50 t.address3
                        ++ (pstring_bytes 35 t.handle
                            ++ (pstring_bytes 80 t.comment
                                ++ (u32_bytes (to_u32 t.password_crc)
                                    ++ (pstring_bytes 15 t.data_phone
                                        ++ (pstring_bytes 15 t.voice_phone
                                            ++ (pstring_bytes 5 t.last_time
                                                ++ (pstring_bytes 8 t.last_date
                                                    ++ ((t.attribute ∷ [])
                                                        ++ ((t.attribute2 ∷ [])
                                                            ++ (t.flags
                                                            ++ (u32_bytes (to_u32 t.credit)
                                                            ++ (u32_bytes (to_u32 t.pending)
                                                            ++ (u16_bytes t.msgs_posted
                                                            ++ (u16_bytes t.security
                                                            ++ (u32_bytes (to_u32 t.last_read)
                                                            ++ (u32_bytes (to_u32 t.no_calls)
                                                            ++ (u32_bytes (to_u32 t.uploads)
                                                            ++ (u32_bytes (to_u32 t.downloads)
                                                            ++ (u32_bytes (to_u32 t.uploads_k)
                                                            ++ (u32_bytes (to_u32 t.downloads_k)
                                                            ++ (u32_bytes (to_u32 t.today_k)
                                                            ++ (u16_bytes (to_u16 t.elapsed)
                                                            ++ (u16_bytes t.screen_length
                                                            ++ ((t.last_pwd_change ∷ [])
                                                            ++ (u16_bytes t.group
                                                            ++ (each_bytes u16_bytes t.combined
                                                            ++ (pstring_bytes 8 t.first_date
                                                            ++ (pstring_bytes 8 t.birth_date
                                                            ++ (pstring_bytes 8 t.sub_date
                                                            ++ ((t.screen_width ∷ [])
                                                            ++ ((t.language ∷ [])
                                                            ++ ((t.date_format ∷ [])
                                                            ++ (pstring_bytes 35 t.forward_to
                                                            ++ (u16_bytes t.msg_area
                                                            ++ (u16_bytes t.file_area
                                                            ++ ((t.default_proto ∷ [])
                                                            ++ (u16_bytes t.file_group
                                                            ++ ((t.last_dob_check ∷ [])
                                                            ++ ((t.sex ∷ [])
                                                            ++ (u32_bytes (to_u32 t.xi_record)
                                                            ++ (u16_bytes t.msg_group
                                                            ++ ((t.attribute3 ∷ [])
                                                            ++ (pstring_bytes 15 t.password)))))))))
                                                            )))))))))))))))))))))))))))))))))))))))

pub write_user-bytes : (t : User) → Writes (write_user t) (user_bytes t)
unfolding write_user user_bytes
write_user-bytes t = Writes->> _ _ (Writes-pstring 35 t.name) (
    Writes->> _ _ (Writes-pstring 25 t.location) (
      Writes->> _ _ (Writes-pstring 50 t.organisation) (
        Writes->> _ _ (Writes-pstring 50 t.address1) (
          Writes->> _ _ (Writes-pstring 50 t.address2) (
            Writes->> _ _ (Writes-pstring 50 t.address3) (
              Writes->> _ _ (Writes-pstring 35 t.handle) (
                Writes->> _ _ (Writes-pstring 80 t.comment) (
                  Writes->> _ _ (Writes-i32 t.password_crc) (
                    Writes->> _ _ (Writes-pstring 15 t.data_phone) (
                      Writes->> _ _ (Writes-pstring 15 t.voice_phone) (
                        Writes->> _ _ (Writes-pstring 5 t.last_time) (
                          Writes->> _ _ (Writes-pstring 8 t.last_date) (
                            Writes->> _ _ (Writes-u8 t.attribute) (
                              Writes->> _ _ (Writes-u8 t.attribute2) (
                                Writes->> _ _ (Writes-flags t.flags) (
                                  Writes->> _ _ (Writes-i32 t.credit) (
                                    Writes->> _ _ (Writes-i32 t.pending) (
                                      Writes->> _ _ (Writes-u16 t.msgs_posted) (
                                        Writes->> _ _ (Writes-u16 t.security) (
                                          Writes->> _ _ (Writes-i32 t.last_read) (
                                            Writes->> _ _ (Writes-i32 t.no_calls) (
                                              Writes->> _ _ (Writes-i32 t.uploads) (
                                                Writes->> _ _ (Writes-i32 t.downloads) (
                                                  Writes->> _ _ (Writes-i32 t.uploads_k) (
                                                    Writes->> _ _ (Writes-i32 t.downloads_k) (
                                                      Writes->> _ _ (Writes-i32 t.today_k) (
                                                        Writes->> _ _ (Writes-i16 t.elapsed) (
                                                          Writes->> _ _ (Writes-u16 t.screen_length)
                                                            (Writes->> _ _
                                                            (Writes-u8 t.last_pwd_change)
                                                            (Writes->> _ _ (Writes-u16 t.group) (
                                                            Writes->> _ _
                                                            (Writes-each put_u16 u16_bytes
                                                            Writes-u16 t.combined)
                                                            (Writes->> _ _
                                                            (Writes-pstring 8 t.first_date)
                                                            (Writes->> _ _
                                                            (Writes-pstring 8 t.birth_date)
                                                            (Writes->> _ _
                                                            (Writes-pstring 8 t.sub_date)
                                                            (Writes->> _ _
                                                            (Writes-u8 t.screen_width)
                                                            (Writes->> _ _ (Writes-u8 t.language) (
                                                            Writes->> _ _ (Writes-u8 t.date_format)
                                                            (Writes->> _ _
                                                            (Writes-pstring 35 t.forward_to)
                                                            (Writes->> _ _ (Writes-u16 t.msg_area) (
                                                            Writes->> _ _ (Writes-u16 t.file_area) (
                                                            Writes->> _ _
                                                            (Writes-u8 t.default_proto)
                                                            (Writes->> _ _ (Writes-u16 t.file_group)
                                                            (Writes->> _ _
                                                            (Writes-u8 t.last_dob_check)
                                                            (Writes->> _ _ (Writes-u8 t.sex) (
                                                            Writes->> _ _ (Writes-i32 t.xi_record) (
                                                            Writes->> _ _ (Writes-u16 t.msg_group) (
                                                            Writes->> _ _ (Writes-u8 t.attribute3)
                                                            (Writes-pstring 15 t.password)))))))))))
                                                            )))))))))))))))))))))))))))))))))))))

pub read_user-bytes : (t : User) → FitsUser t → Reads (read_user t.rec) (user_bytes t) t
unfolding read_user user_bytes
read_user-bytes t h = Reads-bind _ (Reads-pstring 35 t.name (omega arith) h.name) (
    Reads-bind _ (Reads-pstring 25 t.location (omega arith) h.location) (
      Reads-bind _ (Reads-pstring 50 t.organisation (omega arith) h.organisation) (
        Reads-bind _ (Reads-pstring 50 t.address1 (omega arith) h.address1) (
          Reads-bind _ (Reads-pstring 50 t.address2 (omega arith) h.address2) (
            Reads-bind _ (Reads-pstring 50 t.address3 (omega arith) h.address3) (
              Reads-bind _ (Reads-pstring 35 t.handle (omega arith) h.handle) (
                Reads-bind _ (Reads-pstring 80 t.comment (omega arith) h.comment) (
                  Reads-bind _ (Reads-i32 t.password_crc h.password_crc) (
                    Reads-bind _ (Reads-pstring 15 t.data_phone (omega arith) h.data_phone) (
                      Reads-bind _ (Reads-pstring 15 t.voice_phone (omega arith) h.voice_phone) (
                        Reads-bind _ (Reads-pstring 5 t.last_time (omega arith) h.last_time) (
                          Reads-bind _ (Reads-pstring 8 t.last_date (omega arith) h.last_date) (
                            Reads-bind _ (Reads-u8 t.attribute) (
                              Reads-bind _ (Reads-u8 t.attribute2) (
                                Reads-bind _ (Reads-flags t.flags h.flags) (
                                  Reads-bind _ (Reads-i32 t.credit h.credit) (
                                    Reads-bind _ (Reads-i32 t.pending h.pending) (
                                      Reads-bind _ (Reads-u16 t.msgs_posted h.msgs_posted) (
                                        Reads-bind _ (Reads-u16 t.security h.security) (
                                          Reads-bind _ (Reads-i32 t.last_read h.last_read) (
                                            Reads-bind _ (Reads-i32 t.no_calls h.no_calls) (
                                              Reads-bind _ (Reads-i32 t.uploads h.uploads) (
                                                Reads-bind _ (Reads-i32 t.downloads h.downloads) (
                                                  Reads-bind _ (Reads-i32 t.uploads_k h.uploads_k) (
                                                    Reads-bind _
                                                      (Reads-i32 t.downloads_k h.downloads_k)
                                                      (Reads-bind _ (Reads-i32 t.today_k h.today_k)
                                                        (Reads-bind _
                                                          (Reads-i16 t.elapsed h.elapsed)
                                                          (Reads-bind _
                                                            (Reads-u16 t.screen_length
                                                            h.screen_length)
                                                            (Reads-bind _
                                                            (Reads-u8 t.last_pwd_change)
                                                            (Reads-bind _
                                                            (Reads-u16 t.group h.group)
                                                            (Reads-bind _
                                                            (Reads-u16s 200 t.combined h.combined)
                                                            (Reads-bind _
                                                            (Reads-pstring 8 t.first_date
                                                            (omega arith) h.first_date)
                                                            (Reads-bind _
                                                            (Reads-pstring 8 t.birth_date
                                                            (omega arith) h.birth_date)
                                                            (Reads-bind _
                                                            (Reads-pstring 8 t.sub_date
                                                            (omega arith) h.sub_date)
                                                            (Reads-bind _ (Reads-u8 t.screen_width)
                                                            (Reads-bind _ (Reads-u8 t.language) (
                                                            Reads-bind _ (Reads-u8 t.date_format) (
                                                            Reads-bind _
                                                            (Reads-pstring 35 t.forward_to
                                                            (omega arith) h.forward_to)
                                                            (Reads-bind _
                                                            (Reads-u16 t.msg_area h.msg_area)
                                                            (Reads-bind _
                                                            (Reads-u16 t.file_area h.file_area)
                                                            (Reads-bind _ (Reads-u8 t.default_proto)
                                                            (Reads-bind _
                                                            (Reads-u16 t.file_group h.file_group)
                                                            (Reads-bind _
                                                            (Reads-u8 t.last_dob_check)
                                                            (Reads-bind _ (Reads-u8 t.sex) (
                                                            Reads-bind _
                                                            (Reads-i32 t.xi_record h.xi_record)
                                                            (Reads-bind _
                                                            (Reads-u16 t.msg_group h.msg_group)
                                                            (Reads-bind _ (Reads-u8 t.attribute3) (
                                                            Reads-last _
                                                            (Reads-pstring 15 t.password
                                                            (omega arith) h.password)
                                                            refl))))))))))))))))))))))))))))))))))))
                                                            ))))))))))))

length-user_bytes :
    (t : User) → length t.flags ≡ 4 → length t.combined ≡ 200 → length (user_bytes t) ≡ 985
unfolding user_bytes
length-user_bytes t f c = simp (length-append, length-pstring_bytes, length-each_u16, f, c)

-- Every encoded user takes exactly the 1016 bytes of a record, whatever the texts and numbers: the
-- flags are an array of 4 bytes and `Combined` one of 200 words.
pub length-encode_user :
    (t : User) → length t.flags ≡ 4 → length t.combined ≡ 200 → length (encode_user t) ≡ 1016
unfolding encode_user
length-encode_user t f c =
    rw ((write_user-bytes t).out [])
      (length-fit 1016 (user_bytes t) (omega (arith, length-user_bytes t f c)))

read_encoded : (t : User) → FitsUser t → (read_user t.rec (new_buf (encode_user t))).0 ≡ t
unfolding encode_user
read_encoded t h = rw ((write_user-bytes t).out []) (
    rw (fit_short 1016 (user_bytes t) (omega (arith, length-user_bytes t h.flags h.combined.0)))
      (Reads-run _ (read_user-bytes t h)))

-- The user with the screen size that is set where its own is 0.
abbrev pub defaulted : User → User
defaulted t = record t {
  screen_length = if t.screen_length == 0 then 25 else t.screen_length;
  screen_width = if t.screen_width == 0 then 80 else t.screen_width;
}

-- A user whose fields fit their places is read back from the record, with a screen length of 0
-- replaced by 25 and a screen width of 0 by 80.
pub parse_user-encode_user :
    (t : User) → FitsUser t → parse_user (encode_user t) t.rec ≡ defaulted t
unfolding parse_user
parse_user-encode_user t h = rw (read_encoded t h) refl
