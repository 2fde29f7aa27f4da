-- ===== src/Cfgrec/Tests.antt =====
-- A user record put through the codec.
use ele_bbs_go.Base.{
  ◌↔◌, Bytes, true, false, ℕ, zero, suc, ◌<◌, ◌≡◌, refl, [], ◌∷◌, arith, replicate, All,
}
use ele_bbs_go.Base.Int.{pos, negsuc}
use ele_bbs_go.Pascal.Cp437.{Text, rune_of}
use ele_bbs_go.Pascal.Text.{trim_right}
use ele_bbs_go.Pascal.Text.ShortString.{FitsString}
use ele_bbs_go.Cfgrec.User.{User, parse_user, encode_user}
use ele_bbs_go.Cfgrec.User.RoundTrip.{FitsUser, defaulted, parse_user-encode_user}
use ele_bbs_go.Cfgrec.Flags.{flag_access}
use ele_bbs_go.Cfgrec.Flags.Named.{IsFlag, Grants, flag_access_iff}
use ele_bbs_go.Cfgrec.Addr.{Addr, string, parse_addr}
use ele_bbs_go.Cfgrec.Addr.RoundTrip.{parse_addr-string}
use ele_bbs_go.Cfgrec.Protocol.{Protocol}
use ele_bbs_go.Cfgrec.TelnetCfg.{TelnetCfg}

abbrev pub bob : Text
bob = b'B' ∷ b'o' ∷ b'b' ∷ []

bob-FitsString : FitsString 35 bob
unfolding trim_right rune_of
bob-FitsString = record {
  short = omega arith;
  has_bytes = ((66, omega arith, refl), ((111, omega arith, refl), ((98, omega arith, refl), tt)));
  no_nul_end = refl;
}

none-FitsString : (n : ℕ) → FitsString n []
unfolding trim_right
none-FitsString n = record { short = omega arith; has_bytes = tt; no_nul_end = refl }

sevens_fit : (n : ℕ) → All (λ w. w < 65536) (replicate n 7)
sevens_fit zero = tt
sevens_fit (suc n) = (omega arith, sevens_fit n)

abbrev pub caller : User
caller = record {
  name = bob;
  location = [];
  organisation = [];
  address1 = [];
  address2 = [];
  address3 = [];
  handle = [];
  comment = [];
  password_crc = pos 5;
  data_phone = [];
  voice_phone = [];
  last_time = [];
  last_date = [];
  attribute = 2;
  attribute2 = 3;
  flags = 1 ∷ 0 ∷ 0 ∷ 128 ∷ [];
  credit = negsuc 4;
  pending = pos 5;
  msgs_posted = 3;
  security = 3;
  last_read = pos 5;
  no_calls = pos 5;
  uploads = pos 5;
  downloads = pos 5;
  uploads_k = pos 5;
  downloads_k = pos 5;
  today_k = pos 5;
  elapsed = pos 5;
  screen_length = 0;
  last_pwd_change = 3;
  group = 3;
  combined = replicate 200 7;
  first_date = [];
  birth_date = [];
  sub_date = [];
  screen_width = 80;
  language = 3;
  date_format = 3;
  forward_to = [];
  msg_area = 3;
  file_area = 3;
  default_proto = 3;
  file_group = 3;
  last_dob_check = 3;
  sex = 3;
  xi_record = pos 70000;
  msg_group = 3;
  attribute3 = 3;
  password = [];
  rec = pos 70000;
}

pub caller-FitsUser : FitsUser caller
caller-FitsUser = record {
  name = bob-FitsString;
  location = none-FitsString _;
  organisation = none-FitsString _;
  address1 = none-FitsString _;
  address2 = none-FitsString _;
  address3 = none-FitsString _;
  handle = none-FitsString _;
  comment = none-FitsString _;
  password_crc = omega arith;
  data_phone = none-FitsString _;
  voice_phone = none-FitsString _;
  last_time = none-FitsString _;
  last_date = none-FitsString _;
  flags = refl;
  credit = omega arith;
  pending = omega arith;
  msgs_posted = omega arith;
  security = omega arith;
  last_read = omega arith;
  no_calls = omega arith;
  uploads = omega arith;
  downloads = omega arith;
  uploads_k = omega arith;
  downloads_k = omega arith;
  today_k = omega arith;
  elapsed = omega arith;
  screen_length = omega arith;
  group = omega arith;
  combined = (refl, sevens_fit 200);
  first_date = none-FitsString _;
  birth_date = none-FitsString _;
  sub_date = none-FitsString _;
  forward_to = none-FitsString _;
  msg_area = omega arith;
  file_area = omega arith;
  file_group = omega arith;
  xi_record = omega arith;
  msg_group = omega arith;
  password = none-FitsString _;
}

parse_user-encode_user_example : parse_user (encode_user caller) (pos 70000) ≡ defaulted caller
parse_user-encode_user_example = parse_user-encode_user caller caller-FitsUser

bob_flags : IsFlag caller.flags
bob_flags = record {
  four = refl;
  bytes = (omega arith, (omega arith, (omega arith, (omega arith, tt))));
}

flag_access_iff_example :
    (flag_access caller.flags (1 ∷ 0 ∷ 0 ∷ 0 ∷ []) (2 ∷ 0 ∷ 0 ∷ 0 ∷ []) ≡ true) ↔ (
      (col row : ℕ)
      → col < 4
      → row < 8
      → Grants caller.flags (1 ∷ 0 ∷ 0 ∷ 0 ∷ []) (2 ∷ 0 ∷ 0 ∷ 0 ∷ []) col row)
flag_access_iff_example = flag_access_iff caller.flags (1 ∷ 0 ∷ 0 ∷ 0 ∷ []) (2 ∷ 0 ∷ 0 ∷ 0 ∷ [])

abbrev home : Addr
home = record { zone = 2; net = 280; node = 801; point = 4 }

parse_addr-string_example :
    parse_addr (string home) (record { zone = 1; net = 1; node = 1; point = 1 }) ≡ home
parse_addr-string_example =
    parse_addr-string home (record { zone = 1; net = 1; node = 1; point = 1 })
      (record { zone = omega arith; net = omega arith; node = omega arith; point = omega arith })

abbrev zmodem : Protocol
zmodem = record {
  name = bob;
  active_key = b'Z';
  opus_type = false;
  batch = true;
  attribute = 1;
  log_file_name = [];
  ctl_file_name = [];
  dn_cmd_string = [];
  dn_ctl_string = [];
  up_cmd_string = [];
  up_ctl_string = [];
  up_log_key_word = [];
  dn_log_key_word = [];
  xfer_desc_word = 4;
  xfer_name_word = 11;
}

bob_fits : FitsString 15 bob
bob_fits = record {
  short = omega arith;
  has_bytes = bob-FitsString.has_bytes;
  no_nul_end = bob-FitsString.no_nul_end;
}

abbrev two_lines : TelnetCfg
two_lines = record {
  max_sessions = pos 2;
  server_port = pos 2323;
  start_node_with = pos 3;
  attrib = negsuc 0;
  program_path = [];
  node_directories = [];
}

abbrev on_a2 : Bytes
on_a2 = b'A' ∷ b'2' ∷ b'+' ∷ []
