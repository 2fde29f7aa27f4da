-- ===== src/Files/Tests.antt =====
-- A tag put through the codec.
use ele_bbs_go.Base.{replicate, ◌≡◌, refl, true, false, [], ◌∷◌, arith}
use ele_bbs_go.Base.Int.{pos, negsuc}
use ele_bbs_go.Pascal.Text.{trim_right, trim_left, trim, is_space}
use ele_bbs_go.Pascal.Cp437.{rune_of}
use ele_bbs_go.Files.Tag.{TagFile, parse_tag_file, encode_tag_file}
use ele_bbs_go.Files.Tag.RoundTrip.{FitsTagFile, parse_tag_file-encode_tag_file}
use ele_bbs_go.Cfgrec.Areas.{FilesArea}
use ele_bbs_go.Cfgrec.Flags.{flag_access, bit_access, has_bit}
use ele_bbs_go.Cfgrec.Tests.{caller}
use ele_bbs_go.Base.Utf8.{utf8}
use ele_bbs_go.Files.Access.{
  Date, check_file_area_access, denies, is_blank, user_age, area_in_group, in_groups,
}
use ele_bbs_go.Files.Access.Allowed.{Allowed}

abbrev tagged : TagFile
tagged = record {
  name = b'A' ∷ b'.' ∷ b'Z' ∷ [];
  password = [];
  attrib = 1;
  area_num = 300;
  record_num = 2;
  size = pos 100000;
  file_date = negsuc 8;
  cost = pos 0;
  cdrom = true;
  found_first = false;
  xfer_time = 600;
}

tagged-FitsTagFile : FitsTagFile tagged
unfolding trim_right rune_of
tagged-FitsTagFile = record {
  name = record {
    short = omega arith;
    has_bytes = ((65, omega arith, refl), ((46, omega arith, refl), ((90, omega arith, refl), tt)));
    no_nul_end = refl;
  };
  password = record { short = omega arith; has_bytes = tt; no_nul_end = refl };
  area_num = omega arith;
  record_num = omega arith;
  size = omega arith;
  file_date = omega arith;
  cost = omega arith;
  xfer_time = omega arith;
}

parse_tag_file-encode_tag_file_example : parse_tag_file (encode_tag_file tagged) ≡ tagged
parse_tag_file-encode_tag_file_example = parse_tag_file-encode_tag_file tagged tagged-FitsTagFile

-- The area "Games", and a user of level 15 with the flag A1.
abbrev games : FilesArea
games = record {
  area_num = 1;
  name = b'G' ∷ [];
  attrib = 0;
  file_path = b'g' ∷ [];
  kill_days_dl = 0;
  kill_days_fd = 0;
  password = [];
  move_area = 0;
  age = 0;
  convert_ext = 0;
  group = 2;
  attrib2 = 0;
  def_cost = 0;
  upload_area = 0;
  upload_security = 50;
  upload_flags = replicate 4 0;
  upload_not_flags = replicate 4 0;
  security = 20;
  flags = replicate 4 0;
  not_flags = replicate 4 0;
  list_security = 3;
  list_flags = 1 ∷ 0 ∷ 0 ∷ 0 ∷ [];
  list_not_flags = replicate 4 0;
  alt_group = 0 ∷ 7 ∷ 0 ∷ [];
  device = 0;
}

abbrev today : Date
today = record { year = pos 2026; month = pos 3; day = pos 1 }

may_list : check_file_area_access today games caller false true false true 7 ≡ true
unfolding check_file_area_access denies flag_access bit_access has_bit is_blank trim trim_left
    trim_right is_space user_age utf8 area_in_group in_groups
may_list = refl
