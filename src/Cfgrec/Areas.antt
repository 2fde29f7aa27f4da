-- ===== src/Cfgrec/Areas.antt =====
-- internal/cfgrec: the records of file areas (files.ra) and of file groups (fgroups.ra).
use ele_bbs_go.Base.{ℕ, List, Bytes}
use ele_bbs_go.Pascal.Cp437.{Text}
use ele_bbs_go.Cfgrec.Flags.{Flag}
use ele_bbs_go.Pascal.Buf.{
  Reader, ◌>>=◌, pure, new_buf, get_flags, get_pstring, get_times, get_u16, get_u8,
}

pub record FilesArea : Type 0 where
  pub area_num : ℕ
  pub name : Text
  pub attrib : ℕ
  pub file_path : Text
  pub kill_days_dl : ℕ
  pub kill_days_fd : ℕ
  pub password : Text
  pub move_area : ℕ
  pub age : ℕ
  pub convert_ext : ℕ
  pub group : ℕ
  pub attrib2 : ℕ
  pub def_cost : ℕ
  pub upload_area : ℕ
  pub upload_security : ℕ
  pub upload_flags : Flag
  pub upload_not_flags : Flag
  pub security : ℕ
  pub flags : Flag
  pub not_flags : Flag
  pub list_security : ℕ
  pub list_flags : Flag
  pub list_not_flags : Flag
  pub alt_group : List ℕ
  pub device : ℕ

unfoldable pub read_files_area : Reader FilesArea
read_files_area = do
  area_num ← get_u16
  _ ← get_u16
  name ← get_pstring 40
  attrib ← get_u8
  file_path ← get_pstring 40
  kill_days_dl ← get_u16
  kill_days_fd ← get_u16
  password ← get_pstring 15
  move_area ← get_u16
  age ← get_u8
  convert_ext ← get_u8
  group ← get_u16
  attrib2 ← get_u8
  def_cost ← get_u16
  upload_area ← get_u16
  upload_security ← get_u16
  upload_flags ← get_flags
  upload_not_flags ← get_flags
  security ← get_u16
  flags ← get_flags
  not_flags ← get_flags
  list_security ← get_u16
  list_flags ← get_flags
  list_not_flags ← get_flags
  alt_group ← get_times 3 get_u16
  device ← get_u8
  pure (record {
    area_num = area_num;
    name = name;
    attrib = attrib;
    file_path = file_path;
    kill_days_dl = kill_days_dl;
    kill_days_fd = kill_days_fd;
    password = password;
    move_area = move_area;
    age = age;
    convert_ext = convert_ext;
    group = group;
    attrib2 = attrib2;
    def_cost = def_cost;
    upload_area = upload_area;
    upload_security = upload_security;
    upload_flags = upload_flags;
    upload_not_flags = upload_not_flags;
    security = security;
    flags = flags;
    not_flags = not_flags;
    list_security = list_security;
    list_flags = list_flags;
    list_not_flags = list_not_flags;
    alt_group = alt_group;
    device = device;
  })

-- `ParseFilesArea`.
unfoldable pub parse_files_area : Bytes → FilesArea
parse_files_area b = (read_files_area (new_buf b)).0

pub record Group : Type 0 where
  pub area_num : ℕ
  pub name : Text
  pub security : ℕ
  pub flags : Flag
  pub not_flags : Flag

unfoldable pub read_group : Reader Group
read_group = do
  area_num ← get_u16
  name ← get_pstring 40
  security ← get_u16
  flags ← get_flags
  not_flags ← get_flags
  pure (record {
    area_num = area_num;
    name = name;
    security = security;
    flags = flags;
    not_flags = not_flags;
  })

-- `ParseGroup`.
unfoldable pub parse_group : Bytes → Group
parse_group b = (read_group (new_buf b)).0
