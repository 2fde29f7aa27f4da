-- ===== src/Cfgrec/SysInfo.antt =====
-- internal/cfgrec: the record of sysinfo.bbs.
pub mod RoundTrip
use ele_bbs_go.Base.{
  ℕ, Bool, List, [], ◌==◌, ◌<◌, ◌-◌, ltb, length, take, drop, replicate, ◌++◌, if◌then◌else◌, Bytes,
}
use ele_bbs_go.Base.Int.{ℤ}
use ele_bbs_go.Pascal.Cp437.{Text}
use ele_bbs_go.Pascal.Buf.{
  pad, Reader, Writer, ◌>>=◌, ◌>>◌, pure, new_buf, fit, get_i32, get_pstring, put_i32, put_pstring,
}

pub record SysInfo : Type 0 where
  pub total_calls : ℤ
  pub last_caller : Text
  pub last_handle : Text

-- The chain of reads; Go evaluates the fields in this order.
unfoldable pub read_sys_info : Reader SysInfo
read_sys_info = do
  total_calls ← get_i32
  last_caller ← get_pstring 35
  last_handle ← get_pstring 35
  pure (record { total_calls = total_calls; last_caller = last_caller; last_handle = last_handle })

-- `ParseSysInfo`.
unfoldable pub parse_sys_info : Bytes → SysInfo
parse_sys_info b = (read_sys_info (new_buf b)).0

-- The chain of writes.
unfoldable pub write_sys_info : SysInfo → Writer
write_sys_info t = do
  put_i32 t.total_calls
  put_pstring 35 t.last_caller
  put_pstring 35 t.last_handle

-- `EncodeSysInfo`.
unfoldable pub encode_sys_info : SysInfo → Bytes
encode_sys_info t = fit 168 (pad 92 (write_sys_info t []))
