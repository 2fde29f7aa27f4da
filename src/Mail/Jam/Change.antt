-- ===== src/Mail/Jam/Change.antt =====
-- internal/mail/jam_rw.go: what is written to a message base.
use Prim.Native.Nat.{bit_or}
use ele_bbs_go.Base.{
  is_nil, ℕ, zero, suc, ◌+◌, ◌-◌, Bool, not, ◌&&◌, ◌||◌, List, [], ◌∷◌, ◌++◌, Option, none, some,
  Bytes, ltb, leb, ◌==◌, if◌then◌else◌, length, take, drop, codes, replicate,
}
use ele_bbs_go.Base.Files.{u32_of, read_at, write_at}
use ele_bbs_go.Base.Int.{pos_part, ℤ_eq, ℤ, pos, from_u32, to_u32}
use ele_bbs_go.Base.Utf8.{runes}
use ele_bbs_go.Pascal.Text.{trim}
use ele_bbs_go.Pascal.Buf.Codec.{u16_bytes, u32_bytes}
use ele_bbs_go.Crc.{jam}
use ele_bbs_go.Mail.Jam.Message.{Article, raw_text, header_subs}
use ele_bbs_go.Mail.Jam.Store.{
  Base, or_empty, jam_base_msg, idx_slots, slot_loc, header_at, num_or, jam_find_msg,
}

-- `PutUint32` and `PutUint16` into a buffer.
abbrev pub put_u32_at : ℕ → ℕ → Bytes → Bytes
put_u32_at off v b = write_at (u32_bytes v) off b

abbrev pub put_u16_at : ℕ → ℕ → Bytes → Bytes
put_u16_at off v b = write_at (u16_bytes v) off b

-- `AreaStats`.
pub record AreaStats : Type 0 where
  pub active : ℕ
  pub first : ℕ
  pub high : ℕ

abbrev pub no_stats : AreaStats
no_stats = record { active = 0; first = 0; high = 0 }

-- A message that the loop of `Stats` counts.
unfoldable pub add_stats : ℕ → AreaStats → AreaStats
add_stats num st = record {
  active = st.active + 1;
  first = if st.first == 0 || ltb num st.first then num else st.first;
  high = if ltb st.high num then num else st.high;
}

-- The number that a slot shows, if it has a message.
abbrev pub num_of : ℕ → Option Bytes → Option ℕ
num_of fallback none = none
num_of fallback (some h) = some (num_or fallback h)

abbrev pub num_in : Bytes → ℕ → Option ℕ → Option ℕ
num_in hdr fallback none = none
num_in hdr fallback (some loc) = num_of fallback (header_at hdr loc)

unfoldable pub slot_num : Bytes → Bytes → ℕ → ℕ → Option ℕ
slot_num idx hdr base_num slot = num_in hdr (base_num + slot) (slot_loc idx slot)

-- The loop of `Stats`, for a number of slots from one on.
abbrev pub add_if : Option ℕ → AreaStats → AreaStats
add_if none st = st
add_if (some k) st = add_stats k st

unfoldable pub stats_loop : (ℕ → Option ℕ) → ℕ → ℕ → AreaStats → AreaStats
stats_loop shown zero slot st = st
stats_loop shown (suc n) slot st = stats_loop shown n (slot + 1) (add_if (shown slot) st)

unfoldable pub stats_of : ℕ → Option Bytes → Bytes → AreaStats
stats_of base_num none idx = record { active = 0; first = 0; high = base_num + idx_slots idx - 1 }
stats_of base_num (some hdr) idx = stats_loop (slot_num idx hdr base_num) (idx_slots idx) 0 no_stats

-- `Stats`.
abbrev pub stats_open : ℕ → Option Bytes → Option Bytes → AreaStats
stats_open base_num hdr none = no_stats
stats_open base_num hdr (some idx) =
    if idx_slots idx == 0 then no_stats else stats_of base_num hdr idx

unfoldable pub stats : Base → AreaStats
stats base = stats_open (jam_base_msg base.jhd) base.jhr base.jdx

-- `jamEnsureJhd` in its steps: the buffer that is read,
unfoldable pub jhd_buffer : Bytes → Bytes
jhd_buffer file =
    if leb 24 (length file) then write_at (take 24 file) 0 (replicate 1024 0) else replicate 1024 0

-- what it always holds,
unfoldable pub jhd_dated : ℕ → Bytes → Bytes
jhd_dated now b = if u32_of (drop 4 b) == 0 then put_u32_at 4 now b else b

unfoldable pub jhd_touched : ℕ → ℕ → Bytes → Bytes
jhd_touched now active b0 =
    let b2 = jhd_dated now (write_at (codes "JAM" ++ 0 ∷ []) 0 b0) in
    put_u32_at 12 active (put_u32_at 8 (u32_of (drop 8 b2) + 1) b2)

-- the number of the first message,
unfoldable pub jhd_numbered : ℕ → Bytes → Bytes
jhd_numbered base_num b =
    if u32_of (drop 20 b) == 0 then put_u32_at 20 (if ltb base_num 1 then 1 else base_num) b else b

-- and the bytes of the file, at a time `now`.
unfoldable pub jam_ensure_jhd : ℕ → ℕ → ℕ → Bytes → Bytes
jam_ensure_jhd now active base_num file =
    write_at (jhd_numbered base_num (jhd_touched now active (jhd_buffer file))) 0 file

-- The attributes that `AppendMsg` stores.
unfoldable pub flag_if : Bool → ℕ → ℕ → ℕ
flag_if on bit attr = if on then bit_or attr bit else attr

unfoldable pub stored_attr : Article → ℕ
unfolding flag_if
stored_attr a =
    let attr = if a.attr == 0 then 0x00800001 else a.attr in
    flag_if a.crash 0x100
      (flag_if a.kill_sent 32 (flag_if a.f_attach 0x2000 (flag_if a.private 4 attr)))

-- The header that `AppendMsg` stores, without its subfields.
unfoldable pub new_header : ℕ → ℕ → ℕ → ℕ → ℕ → ℕ → Bytes
new_header sub_len date num attr text_ofs text_len =
    let h0 = write_at (codes "JAM" ++ 0 ∷ []) 0 (replicate 76 0) in
    let h1 = put_u16_at 4 1 h0 in
    let h2 = put_u32_at 8 sub_len h1 in
    let h3 = put_u32_at 36 date h2 in
    let h4 = put_u32_at 48 num h3 in
    let h5 = put_u32_at 52 attr h4 in
    let h6 = put_u32_at 60 text_ofs h5 in put_u32_at 64 text_len h6

abbrev pub date_or : ℕ → Option ℤ → ℕ
date_or now none = now
date_or now (some d) = to_u32 d

-- What `AppendMsg` adds to the header file and to the index.
unfoldable pub new_record : ℕ → ℕ → Article → ℕ → Bytes
new_record now num a text_ofs =
    let subs = header_subs a in
    new_header (length subs) (date_or now a.date) num (stored_attr a) text_ofs (length (raw_text a))
    ++ subs

unfoldable pub new_entry : Article → ℕ → Bytes
new_entry a loc = u32_bytes (to_u32 (jam (runes a.to))) ++ u32_bytes loc

-- `AppendMsg` at a time `now`: the files afterwards and the number of the message.
unfoldable pub append_msg : ℕ → Article → Base → Base × ℕ
append_msg now a base =
    let base_num = jam_base_msg base.jhd in
    let idx = or_empty base.jdx in
    let hdr = or_empty base.jhr in
    let txt = or_empty base.jdt in
    let num = base_num + idx_slots idx in
    let base' = record base {
      jdx = some (idx ++ new_entry a (length hdr));
      jhr = some (hdr ++ new_record now num a (length txt));
      jdt = some (txt ++ raw_text a);
    } in
    let jhd' = jam_ensure_jhd now (stats base').active base_num (or_empty base.jhd) in
    (record base' { jhd = some jhd' }, num)

-- `jamChangeAttr` on the header file, at the offset where the message is found.
abbrev pub write_attr : (ℕ → ℕ) → ℕ → Bytes → Option Bytes → Bytes
write_attr fn loc hdr none = hdr
write_attr fn loc hdr (some b) = write_at (u32_bytes (fn (u32_of b))) (loc + 52) hdr

unfoldable pub change_at : (ℕ → ℕ) → Bytes → Option (ℕ × ℕ) → Bytes
change_at fn hdr none = hdr
change_at fn hdr (some (loc, fallback)) = write_attr fn loc hdr (read_at 4 (loc + 52) hdr)

-- `jamChangeAttr`. A header file that is not there is created.
abbrev pub change_open : (ℕ → ℕ) → Base → ℕ → Option Bytes → Base
change_open fn base num none = base
change_open fn base num (some idx) =
    let hdr = or_empty base.jhr in
    record base {
      jhr =
          some
            (change_at fn hdr (jam_find_msg idx hdr (jam_base_msg base.jhd) num (idx_slots idx)));
    }

unfoldable pub jam_change_attr : (ℕ → ℕ) → Base → ℕ → Base
jam_change_attr fn base num = if ltb num 1 then base else change_open fn base num base.jdx

-- `SetReceived` and `SetSent`.
unfoldable pub set_received : Base → ℕ → Base
set_received base num = jam_change_attr (λ attr. bit_or attr 8) base num

unfoldable pub set_sent : Base → ℕ → Base
set_sent base num = jam_change_attr (λ attr. bit_or attr 16) base num

-- The CRC of a record of the .jlr file, and the loop of `jamLastRead` on the bytes from a record on,
-- for a number of rounds.
unfoldable pub last_read_loop : (ℤ → Bool) → ℕ → Bytes → ℤ
last_read_loop wanted zero f = pos 0
last_read_loop wanted (suc fuel) f =
    let rest = last_read_loop wanted fuel (drop 16 f) in
    if ltb (length f) 16
    then pos 0
    else if wanted (from_u32 (u32_of f))
    then from_u32 (u32_of (drop 8 f))
    else rest

-- Names and handles are given as the characters of the strings.
unfoldable pub jam_last_read : Option Bytes → List ℕ → List ℕ → ℤ
unfolding last_read_loop trim
jam_last_read none name handle = pos 0
jam_last_read (some f) name handle =
    let name_crc = jam name in
    let hdl_crc = jam handle in
    let want_hdl = not (is_nil (trim handle)) && not (ℤ_eq hdl_crc name_crc) in
    last_read_loop (λ c. ℤ_eq c name_crc || want_hdl && ℤ_eq c hdl_crc) (length f) f

-- The loop of `SetLastRead` on the bytes from a record on: the record of the CRC is changed, or one
-- is added. What is left behind the last whole record stays before it.
abbrev pub with_high : ℕ → Bytes → Bytes
with_high high r = take 8 r ++ u32_bytes high ++ u32_bytes high

unfoldable pub set_last_loop : ℤ → ℕ → ℕ → Bytes → Bytes
set_last_loop name_crc high zero f = f
set_last_loop name_crc high (suc fuel) f =
    let rest = set_last_loop name_crc high fuel (drop 16 f) in
    if ltb (length f) 16
    then f ++ u32_bytes (to_u32 name_crc) ++ u32_bytes 0 ++ u32_bytes high ++ u32_bytes high
    else if ℤ_eq (from_u32 (u32_of f)) name_crc
    then with_high high (take 16 f) ++ drop 16 f
    else take 16 f ++ rest

-- `SetLastRead`: a negative pointer is stored as 0.
unfoldable pub set_last_read : Option Bytes → List ℕ → ℤ → Bytes
unfolding set_last_loop
set_last_read f name high =
    let b = or_empty f in set_last_loop (jam name) (pos_part high) (suc (length b)) b
