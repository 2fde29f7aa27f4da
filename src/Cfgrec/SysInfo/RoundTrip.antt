-- ===== src/Cfgrec/SysInfo/RoundTrip.antt =====
-- The system record is written and read back.
use ele_bbs_go.Base.{
  ℕ, ◌≡◌, refl, [], ◌++◌, arith, Bytes, length, replicate, length-append, length-replicate,
}
use ele_bbs_go.Base.Int.{to_u32, IsI32}
use ele_bbs_go.Pascal.Text.ShortString.{FitsString}
use ele_bbs_go.Pascal.Buf.{new_buf}
use ele_bbs_go.Pascal.Buf.Codec.{
  Reads, Writes, Reads-bind, Reads-last, Reads-run, Writes->>, fit_exact, pstring_bytes,
  length-pstring_bytes, u32_bytes, Reads-i32, Reads-pstring, Writes-i32, Writes-pstring, Writes-pad,
}
use ele_bbs_go.Cfgrec.SysInfo.{
  SysInfo, read_sys_info, write_sys_info, encode_sys_info, parse_sys_info,
}

-- Each field holds a value that its place in the record can hold.
pub record FitsSysInfo (t : SysInfo) : Type 0 where
  pub total_calls : IsI32 t.total_calls
  pub last_caller : FitsString 35 t.last_caller
  pub last_handle : FitsString 35 t.last_handle

-- The bytes of the record, field by field.
pub sys_info_bytes : SysInfo → Bytes
sys_info_bytes t =
    u32_bytes (to_u32 t.total_calls)
    ++ (pstring_bytes 35 t.last_caller ++ (pstring_bytes 35 t.last_handle))

pub write_sys_info-bytes : (t : SysInfo) → Writes (write_sys_info t) (sys_info_bytes t)
unfolding write_sys_info sys_info_bytes
write_sys_info-bytes t =
    Writes->> _ _ (Writes-i32 t.total_calls)
      (Writes->> _ _ (Writes-pstring 35 t.last_caller) (Writes-pstring 35 t.last_handle))

pub read_sys_info-bytes : (t : SysInfo) → FitsSysInfo t → Reads read_sys_info (sys_info_bytes t) t
unfolding read_sys_info sys_info_bytes
read_sys_info-bytes t h = Reads-bind _ (Reads-i32 t.total_calls h.total_calls) (
    Reads-bind _ (Reads-pstring 35 t.last_caller (omega arith) h.last_caller)
      (Reads-last _ (Reads-pstring 35 t.last_handle (omega arith) h.last_handle) refl))

pub length-sys_info_bytes : (t : SysInfo) → length (sys_info_bytes t) ≡ 76
unfolding sys_info_bytes
length-sys_info_bytes t = simp (length-append, length-pstring_bytes)

encode_sys_info-bytes : (t : SysInfo) → encode_sys_info t ≡ sys_info_bytes t ++ replicate 92 0
unfolding encode_sys_info
encode_sys_info-bytes t = rw ((write_sys_info-bytes t).out []) (
    rw ((Writes-pad 92).out (sys_info_bytes t)) (
      fit_exact 168 (sys_info_bytes t ++ replicate 92 0) (
        omega (
          arith,
          length-sys_info_bytes t,
          length-append (sys_info_bytes t) (replicate 92 0),
          length-replicate {A = ℕ} 92 0,
        ))))

read_encoded : (t : SysInfo) → FitsSysInfo t → (read_sys_info (new_buf (encode_sys_info t))).0 ≡ t
read_encoded t h =
    rw (encode_sys_info-bytes t) (Reads-run (replicate 92 0) (read_sys_info-bytes t h))

-- The system record is read back as it was written, if its fields fit.
pub parse_sys_info-encode_sys_info :
    (t : SysInfo) → FitsSysInfo t → parse_sys_info (encode_sys_info t) ≡ t
unfolding parse_sys_info
parse_sys_info-encode_sys_info t h = read_encoded t h
