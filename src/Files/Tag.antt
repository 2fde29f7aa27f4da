-- ===== src/Files/Tag.antt =====
-- internal/files/tag.go: the 50-byte records of taglist.ra.
pub mod RoundTrip
use ele_bbs_go.Base.{
  ℕ, Bool, List, [], ◌==◌, ◌<◌, ◌-◌, ltb, length, take, drop, replicate, ◌++◌, if◌then◌else◌, Bytes,
}
use ele_bbs_go.Base.Int.{ℤ}
use ele_bbs_go.Pascal.Cp437.{Text}
use ele_bbs_go.Pascal.Buf.{
  Reader, Writer, ◌>>=◌, ◌>>◌, pure, new_buf, fit, get_bool, get_i32, get_pstring, get_u16, get_u8,
  put_bool, put_i32, put_pstring, put_u16, put_u8,
}

pub record TagFile : Type 0 where
  pub name : Text
  pub password : Text
  pub attrib : ℕ
  pub area_num : ℕ
  pub record_num : ℕ
  pub size : ℤ
  pub file_date : ℤ
  pub cost : ℤ
  pub cdrom : Bool
  pub found_first : Bool
  pub xfer_time : ℕ

-- The chain of reads; Go evaluates the fields in this order.
unfoldable pub read_tag_file : Reader TagFile
read_tag_file = do
  name ← get_pstring 12
  password ← get_pstring 15
  attrib ← get_u8
  area_num ← get_u16
  record_num ← get_u16
  size ← get_i32
  file_date ← get_i32
  cost ← get_i32
  cdrom ← get_bool
  found_first ← get_bool
  xfer_time ← get_u16
  pure (record {
    name = name;
    password = password;
    attrib = attrib;
    area_num = area_num;
    record_num = record_num;
    size = size;
    file_date = file_date;
    cost = cost;
    cdrom = cdrom;
    found_first = found_first;
    xfer_time = xfer_time;
  })

-- `ParseTagFile`.
unfoldable pub parse_tag_file : Bytes → TagFile
parse_tag_file b = (read_tag_file (new_buf b)).0

-- The chain of writes.
unfoldable pub write_tag_file : TagFile → Writer
write_tag_file t = do
  put_pstring 12 t.name
  put_pstring 15 t.password
  put_u8 t.attrib
  put_u16 t.area_num
  put_u16 t.record_num
  put_i32 t.size
  put_i32 t.file_date
  put_i32 t.cost
  put_bool t.cdrom
  put_bool t.found_first
  put_u16 t.xfer_time

-- `EncodeTagFile`.
unfoldable pub encode_tag_file : TagFile → Bytes
encode_tag_file t = fit 50 (write_tag_file t [])
