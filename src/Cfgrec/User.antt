-- ===== src/Cfgrec/User.antt =====
-- internal/cfgrec: the user record of users.bbs (types.go) and its codec (parse.go).
pub mod RoundTrip
pub mod Numbered
use ele_bbs_go.Base.{
  ℕ, Bool, List, [], ◌==◌, ◌<◌, ◌-◌, ltb, length, take, drop, replicate, ◌++◌, if◌then◌else◌, Bytes,
}
use ele_bbs_go.Base.Int.{ℤ}
use ele_bbs_go.Pascal.Cp437.{Text}
use ele_bbs_go.Pascal.Buf.{
  Reader, Writer, ◌>>=◌, ◌>>◌, pure, new_buf, fit, get_flags, get_i16, get_i32, get_pstring,
  get_times, get_u16, get_u8, put_each, put_flags, put_i16, put_i32, put_pstring, put_u16, put_u8,
}

pub record User : Type 0 where
  pub name : Text
  pub location : Text
  pub organisation : Text
  pub address1 : Text
  pub address2 : Text
  pub address3 : Text
  pub handle : Text
  pub comment : Text
  pub password_crc : ℤ
  pub data_phone : Text
  pub voice_phone : Text
  pub last_time : Text
  pub last_date : Text
  pub attribute : ℕ
  pub attribute2 : ℕ
  pub flags : Bytes
  pub credit : ℤ
  pub pending : ℤ
  pub msgs_posted : ℕ
  pub security : ℕ
  pub last_read : ℤ
  pub no_calls : ℤ
  pub uploads : ℤ
  pub downloads : ℤ
  pub uploads_k : ℤ
  pub downloads_k : ℤ
  pub today_k : ℤ
  pub elapsed : ℤ
  pub screen_length : ℕ
  pub last_pwd_change : ℕ
  pub group : ℕ
  pub combined : List ℕ
  pub first_date : Text
  pub birth_date : Text
  pub sub_date : Text
  pub screen_width : ℕ
  pub language : ℕ
  pub date_format : ℕ
  pub forward_to : Text
  pub msg_area : ℕ
  pub file_area : ℕ
  pub default_proto : ℕ
  pub file_group : ℕ
  pub last_dob_check : ℕ
  pub sex : ℕ
  pub xi_record : ℤ
  pub msg_group : ℕ
  pub attribute3 : ℕ
  pub password : Text
  pub rec : ℤ

-- The chain of reads; Go evaluates the fields in this order.
unfoldable pub read_user : ℤ → Reader User
read_user rec = do
  name ← get_pstring 35
  location ← get_pstring 25
  organisation ← get_pstring 50
  address1 ← get_pstring 50
  address2 ← get_pstring 50
  address3 ← get_pstring 50
  handle ← get_pstring 35
  comment ← get_pstring 80
  password_crc ← get_i32
  data_phone ← get_pstring 15
  voice_phone ← get_pstring 15
  last_time ← get_pstring 5
  last_date ← get_pstring 8
  attribute ← get_u8
  attribute2 ← get_u8
  flags ← get_flags
  credit ← get_i32
  pending ← get_i32
  msgs_posted ← get_u16
  security ← get_u16
  last_read ← get_i32
  no_calls ← get_i32
  uploads ← get_i32
  downloads ← get_i32
  uploads_k ← get_i32
  downloads_k ← get_i32
  today_k ← get_i32
  elapsed ← get_i16
  screen_length ← get_u16
  last_pwd_change ← get_u8
  group ← get_u16
  combined ← get_times 200 get_u16
  first_date ← get_pstring 8
  birth_date ← get_pstring 8
  sub_date ← get_pstring 8
  screen_width ← get_u8
  language ← get_u8
  date_format ← get_u8
  forward_to ← get_pstring 35
  msg_area ← get_u16
  file_area ← get_u16
  default_proto ← get_u8
  file_group ← get_u16
  last_dob_check ← get_u8
  sex ← get_u8
  xi_record ← get_i32
  msg_group ← get_u16
  attribute3 ← get_u8
  password ← get_pstring 15
  pure (record {
    name = name;
    location = location;
    organisation = organisation;
    address1 = address1;
    address2 = address2;
    address3 = address3;
    handle = handle;
    comment = comment;
    password_crc = password_crc;
    data_phone = data_phone;
    voice_phone = voice_phone;
    last_time = last_time;
    last_date = last_date;
    attribute = attribute;
    attribute2 = attribute2;
    flags = flags;
    credit = credit;
    pending = pending;
    msgs_posted = msgs_posted;
    security = security;
    last_read = last_read;
    no_calls = no_calls;
    uploads = uploads;
    downloads = downloads;
    uploads_k = uploads_k;
    downloads_k = downloads_k;
    today_k = today_k;
    elapsed = elapsed;
    screen_length = screen_length;
    last_pwd_change = last_pwd_change;
    group = group;
    combined = combined;
    first_date = first_date;
    birth_date = birth_date;
    sub_date = sub_date;
    screen_width = screen_width;
    language = language;
    date_format = date_format;
    forward_to = forward_to;
    msg_area = msg_area;
    file_area = file_area;
    default_proto = default_proto;
    file_group = file_group;
    last_dob_check = last_dob_check;
    sex = sex;
    xi_record = xi_record;
    msg_group = msg_group;
    attribute3 = attribute3;
    password = password;
    rec = rec;
  })

-- `ParseUser`: a record with no screen size gets 25 lines of 80 columns.
unfoldable pub parse_user : Bytes → ℤ → User
parse_user b rec =
    let u = (read_user rec (new_buf b)).0 in
    let u' = record u { screen_length = if u.screen_length == 0 then 25 else u.screen_length } in
    record u' { screen_width = if u'.screen_width == 0 then 80 else u'.screen_width }

-- The chain of writes.
unfoldable pub write_user : User → Writer
write_user t = do
  put_pstring 35 t.name
  put_pstring 25 t.location
  put_pstring 50 t.organisation
  put_pstring 50 t.address1
  put_pstring 50 t.address2
  put_pstring 50 t.address3
  put_pstring 35 t.handle
  put_pstring 80 t.comment
  put_i32 t.password_crc
  put_pstring 15 t.data_phone
  put_pstring 15 t.voice_phone
  put_pstring 5 t.last_time
  put_pstring 8 t.last_date
  put_u8 t.attribute
  put_u8 t.attribute2
  put_flags t.flags
  put_i32 t.credit
  put_i32 t.pending
  put_u16 t.msgs_posted
  put_u16 t.security
  put_i32 t.last_read
  put_i32 t.no_calls
  put_i32 t.uploads
  put_i32 t.downloads
  put_i32 t.uploads_k
  put_i32 t.downloads_k
  put_i32 t.today_k
  put_i16 t.elapsed
  put_u16 t.screen_length
  put_u8 t.last_pwd_change
  put_u16 t.group
  put_each put_u16 t.combined
  put_pstring 8 t.first_date
  put_pstring 8 t.birth_date
  put_pstring 8 t.sub_date
  put_u8 t.screen_width
  put_u8 t.language
  put_u8 t.date_format
  put_pstring 35 t.forward_to
  put_u16 t.msg_area
  put_u16 t.file_area
  put_u8 t.default_proto
  put_u16 t.file_group
  put_u8 t.last_dob_check
  put_u8 t.sex
  put_i32 t.xi_record
  put_u16 t.msg_group
  put_u8 t.attribute3
  put_pstring 15 t.password

-- `EncodeUser`.
unfoldable pub encode_user : User → Bytes
encode_user t = fit 1016 (write_user t [])
