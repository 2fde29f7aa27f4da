-- ===== src/Online/Useron.antt =====
-- internal/online/useron.go: the 214-byte records of useron.bbs, one for each node.
pub mod RoundTrip
pub mod Slots
use ele_bbs_go.Base.{
  ℕ, Bool, List, [], ◌==◌, ◌<◌, ◌-◌, ltb, length, take, drop, replicate, ◌++◌, if◌then◌else◌, Bytes,
}
use ele_bbs_go.Base.Int.{ℤ}
use ele_bbs_go.Pascal.Cp437.{Text}
use ele_bbs_go.Pascal.Buf.{
  Reader, Writer, ◌>>=◌, ◌>>◌, pure, new_buf, fit, get_i32, get_pstring, get_u16, get_u8, skip, pad,
  put_i32, put_pstring, put_u16, put_u8,
}

pub record Record : Type 0 where
  pub name : Text
  pub handle : Text
  pub line : ℕ
  pub baud : ℕ
  pub city : Text
  pub status : ℕ
  pub attribute : ℕ
  pub stat_desc : Text
  pub no_calls : ℕ
  pub node_number : ℤ
  pub last_update : ℤ

-- The chain of reads; Go evaluates the fields in this order.
unfoldable pub read_record : Reader Record
read_record = do
  name ← get_pstring 35
  handle ← get_pstring 35
  line ← get_u8
  baud ← get_u16
  city ← get_pstring 25
  status ← get_u8
  attribute ← get_u8
  stat_desc ← get_pstring 10
  _ ← skip 90
  no_calls ← get_u16
  node_number ← get_i32
  last_update ← get_i32
  pure (record {
    name = name;
    handle = handle;
    line = line;
    baud = baud;
    city = city;
    status = status;
    attribute = attribute;
    stat_desc = stat_desc;
    no_calls = no_calls;
    node_number = node_number;
    last_update = last_update;
  })

-- `Decode`: a short record is filled with zeros first.
unfoldable pub decode : Bytes → Record
decode b =
    let b' = if ltb (length b) 214 then b ++ replicate (214 - length b) 0 else b in
    (read_record (new_buf b')).0

-- The chain of writes.
unfoldable pub write_record : Record → Writer
write_record t = do
  put_pstring 35 t.name
  put_pstring 35 t.handle
  put_u8 t.line
  put_u16 t.baud
  put_pstring 25 t.city
  put_u8 t.status
  put_u8 t.attribute
  put_pstring 10 t.stat_desc
  pad 90
  put_u16 t.no_calls
  put_i32 t.node_number
  put_i32 t.last_update

-- `Encode`.
unfoldable pub encode : Record → Bytes
encode t =
    let b = write_record t [] in
    take 214 (if ltb (length b) 214 then b ++ replicate (214 - length b) 0 else b)
