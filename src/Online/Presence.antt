-- ===== src/Online/Presence.antt =====
-- internal/online/useron.go: how a caller comes on line and goes (`Write`, `Kill`), and the list of
-- all slots (`ReadAll`).
pub mod Listing
pub mod Shown
mod Tests
use Prim.Native.Nat.{bit_and, bit_or}
use ele_bbs_go.Base.{
  is_nil, ℕ, zero, suc, ◌+◌, ◌-◌, ◌*◌, ◌/◌, ◌%◌, ◌≤◌, ◌<◌, ◌≡◌, refl, sym, ap, ◌∙◌, Bool, true,
  false, not, List, inl, inr, [], ◌∷◌, Option, none, some, arith, Bytes, ltb, leb, ◌==◌,
  if◌then◌else◌, length, take, drop, map, get_elem?, Bool-cases,
}
use ele_bbs_go.Base.Int.{ℤ, pos, pos_part, ltb_ℤ, to_u16, to_u32, from_u32}
use ele_bbs_go.Pascal.Cp437.{Text}
use ele_bbs_go.Pascal.Text.{trim}
use ele_bbs_go.Cfgrec.User.{User}
use ele_bbs_go.Online.Useron.{Record, decode}
use ele_bbs_go.Online.Useron.Slots.{write_slot}

-- What `Write` reads of the line's configuration.
pub record Line : Type 0 where
  pub user : User
  pub ra_node_nr : ℤ
  pub baud : ℕ

abbrev pub node_of : Line → ℕ
node_of l = if ltb_ℤ l.ra_node_nr (pos 1) then 1 else pos_part l.ra_node_nr

abbrev space_for : ℕ → ℕ
space_for r = if r == b'_' then b' ' else r

-- The calls a record has room for.
unfoldable pub calls_of : ℤ → ℕ
calls_of n = to_u16 (if ltb_ℤ (pos 65535) n then pos 65535 else n)

unfoldable pub attribute_of : User → ℕ
attribute_of u =
    bit_or (if not (bit_and u.attribute2 8 == 0) then 1 else 64)
      (if not (bit_and u.attribute 128 == 0) then 8 else 0)

-- The record that `Write` makes at a time `now`.
unfoldable pub shown_record : ℤ → Line → Text → ℤ → Record
unfolding calls_of attribute_of
shown_record now l stat_desc status =
    let desc = map space_for stat_desc in
    record {
      name = l.user.name;
      handle = l.user.handle;
      line = if leb (node_of l) 255 then node_of l else 0;
      baud = l.baud;
      city = l.user.location;
      status = elim desc [ [] ↦ to_u16 status % 256 | _ ∷ _ ↦ 255 ];
      attribute = attribute_of l.user;
      stat_desc = desc;
      no_calls = calls_of l.user.no_calls;
      node_number = from_u32 (to_u32 (pos (node_of l)));
      last_update = from_u32 (to_u32 now);
    }

abbrev pub is_blank_name : Text → Bool
is_blank_name s = is_nil (trim s)

-- `Write` on the bytes of the file; `none` where there is no line or no configuration.
unfoldable pub write : ℤ → Option Line → Text → ℤ → Bytes → Bytes
unfolding shown_record
write now none stat_desc status b = b
write now (some l) stat_desc status b =
    if is_blank_name l.user.name
    then b
    else write_slot (node_of l) (shown_record now l stat_desc status) b

abbrev pub empty_record : Record
empty_record = record {
  name = [];
  handle = [];
  line = 0;
  baud = 0;
  city = [];
  status = 0;
  attribute = 0;
  stat_desc = [];
  no_calls = 0;
  node_number = pos 0;
  last_update = pos 0;
}

-- `Kill`.
unfoldable pub kill : Option Line → Bytes → Bytes
kill none b = b
kill (some l) b =
    if ltb_ℤ l.ra_node_nr (pos 1) then b else write_slot (pos_part l.ra_node_nr) empty_record b

-- The loop of `ReadAll`, for a number of records from one on.
unfoldable pub read_from : ℕ → ℕ → Bytes → List Record
read_from zero i b = []
read_from (suc n) i b = decode (take 214 (drop (i * 214) b)) ∷ read_from n (i + 1) b

-- `ReadAll`; `none` where the file cannot be read.
unfoldable pub read_all : Option Bytes → List Record
unfolding read_from
read_all none = []
read_all (some b) = read_from (length b / 214) 0 b
