-- ===== src/Cfgrec/User/Numbered.antt =====
-- Whether a user fits its record does not depend on the number of the record.
use ele_bbs_go.Base.Int.{ℤ}
use ele_bbs_go.Cfgrec.User.{User}
use ele_bbs_go.Cfgrec.User.RoundTrip.{FitsUser}

pub FitsUser-rec : (t : User) (k : ℤ) → FitsUser t → FitsUser (record t { rec = k })
FitsUser-rec t k h = record {
  name = h.name;
  location = h.location;
  organisation = h.organisation;
  address1 = h.address1;
  address2 = h.address2;
  address3 = h.address3;
  handle = h.handle;
  comment = h.comment;
  password_crc = h.password_crc;
  data_phone = h.data_phone;
  voice_phone = h.voice_phone;
  last_time = h.last_time;
  last_date = h.last_date;
  flags = h.flags;
  credit = h.credit;
  pending = h.pending;
  msgs_posted = h.msgs_posted;
  security = h.security;
  last_read = h.last_read;
  no_calls = h.no_calls;
  uploads = h.uploads;
  downloads = h.downloads;
  uploads_k = h.uploads_k;
  downloads_k = h.downloads_k;
  today_k = h.today_k;
  elapsed = h.elapsed;
  screen_length = h.screen_length;
  group = h.group;
  combined = h.combined;
  first_date = h.first_date;
  birth_date = h.birth_date;
  sub_date = h.sub_date;
  forward_to = h.forward_to;
  msg_area = h.msg_area;
  file_area = h.file_area;
  file_group = h.file_group;
  xi_record = h.xi_record;
  msg_group = h.msg_group;
  password = h.password;
}
