-- ===== src/Mail/Jam/Store.antt =====
-- internal/mail/jam.go and jam_rw.go: the files of a message base, and how a message is found.
use Prim.Native.Nat.{bit_and}
use ele_bbs_go.Base.{
  ℕ, zero, suc, ◌+◌, ◌-◌, ◌*◌, ◌/◌, Bool, not, ◌&&◌, ◌||◌, [], Option, none, some, Bytes, ltb, leb,
  ◌==◌, if◌then◌else◌, length, take, drop, codes, bytes_eq, min,
}
use ele_bbs_go.Base.Files.{u32_of, read_at}
use ele_bbs_go.Base.Int.{ℤ, pos, negsuc, from_u32}
use ele_bbs_go.Mail.Jam.Message.{Article, no_article, parse_subs, split_jam_text, count_lines}

-- The five files of a base; `none` is a file that is not there.
pub record Base : Type 0 where
  pub jdx : Option Bytes
  pub jhr : Option Bytes
  pub jdt : Option Bytes
  pub jhd : Option Bytes
  pub jlr : Option Bytes

abbrev pub or_empty : Option Bytes → Bytes
or_empty none = []
or_empty (some b) = b

-- `jamBaseMsg`.
abbrev pub at_least_one : ℤ → ℕ
at_least_one (pos n) = if n == 0 then 1 else n
at_least_one (negsuc n) = 1

unfoldable pub jam_base_msg : Option Bytes → ℕ
jam_base_msg none = 1
jam_base_msg (some b) =
    if ltb (length b) 24 then 1 else at_least_one (from_u32 (u32_of (drop 20 b)))

-- `idxSlots`.
unfoldable pub idx_slots : Bytes → ℕ
idx_slots idx = if ltb (length idx) 8 then 0 else length idx / 8

-- The offset of a header that a slot of the index holds; a negative one is none.
abbrev pub non_negative : ℤ → Option ℕ
non_negative (pos n) = some n
non_negative (negsuc n) = none

unfoldable pub slot_loc : Bytes → ℕ → Option ℕ
slot_loc idx slot =
    if leb (slot * 8 + 8) (length idx)
    then non_negative (from_u32 (u32_of (drop (slot * 8 + 4) idx)))
    else none

-- Whether a bit of the attributes is on.
abbrev pub bit_on : ℕ → ℕ → Bool
bit_on attr bit = not (bit_and attr bit == 0)

abbrev pub attr_of : Bytes → ℕ
attr_of h = u32_of (drop 52 h)

-- A header that is read whole, is one of JAM, and is not deleted.
unfoldable pub checked : Option Bytes → Option Bytes
checked none = none
checked (some h) =
    if not (bytes_eq (take 3 h) (codes "JAM"))
    then none
    else if bit_on (attr_of h) 0x80000000
    then none
    else some h

unfoldable pub header_at : Bytes → ℕ → Option Bytes
unfolding checked
header_at hdr loc = checked (read_at 76 loc hdr)

-- The number of a message, or the one that its slot gives.
abbrev pub num_or : ℕ → Bytes → ℕ
num_or fallback h = let n = u32_of (drop 48 h) in if n == 0 then fallback else n

abbrev pub or_else : Option (ℕ × ℕ) → Option (ℕ × ℕ) → Option (ℕ × ℕ)
or_else (some r) other = some r
or_else none other = other

-- `match` in `jamFindMsg`: the offset of the header in a slot, if it has the number.
abbrev pub numbered : ℕ → ℕ → ℕ → Option Bytes → Option (ℕ × ℕ)
numbered num fallback off none = none
numbered num fallback off (some h) = if num_or fallback h == num then some (off, fallback) else none

abbrev pub located : Bytes → ℕ → ℕ → Option ℕ → Option (ℕ × ℕ)
located hdr num fallback none = none
located hdr num fallback (some off) = numbered num fallback off (header_at hdr off)

unfoldable pub match_at : Bytes → Bytes → ℕ → ℕ → ℕ → ℕ → Option (ℕ × ℕ)
match_at idx hdr base_num num n slot =
    if leb n slot then none else located hdr num (base_num + slot) (slot_loc idx slot)

-- The inner loop: `got` slots from one on.
unfoldable pub find_chunk : (ℕ → Option (ℕ × ℕ)) → ℕ → ℕ → Option (ℕ × ℕ)
find_chunk match zero slot = none
find_chunk match (suc got) slot = or_else (match slot) (find_chunk match got (slot + 1))

-- The outer loop, in chunks of 512 slots, for a number of rounds.
unfoldable pub find_chunks : (ℕ → Option (ℕ × ℕ)) → ℕ → ℕ → ℕ → Option (ℕ × ℕ)
find_chunks match zero start n = none
find_chunks match (suc fuel) start n =
    let rest = find_chunks match fuel (start + 512) n in
    if ltb start n then or_else (find_chunk match (min 512 (n - start)) start) rest else none

-- `jamFindMsg`: first where the number should be, then everywhere.
unfoldable pub jam_find_msg : Bytes → Bytes → ℕ → ℕ → ℕ → Option (ℕ × ℕ)
jam_find_msg idx hdr base_num num n =
    let match = match_at idx hdr base_num num n in
    if ltb num 1 || leb n 0
    then none
    else or_else (if ltb num base_num then none else match (num - base_num))
        (find_chunks match n 0 n)

-- `articleAt` in its steps: the fields of the header,
unfoldable pub header_article : ℕ → Bytes → Article
header_article fallback h =
    let attr = attr_of h in
    record no_article {
      num = num_or fallback h;
      date = some (pos (u32_of (drop 36 h)));
      received = bit_on attr 8;
      sent = bit_on attr 16;
      private = bit_on attr 4;
      f_attach = bit_on attr 0x2000;
      kill_sent = bit_on attr 32;
      crash = bit_on attr 0x100;
      attr = attr;
    }

-- its subfields,
abbrev pub parse_read : Option Bytes → Article → Article
parse_read none a = a
parse_read (some sub) a = parse_subs sub a

unfoldable pub add_subs : Bytes → ℕ → ℕ → Article → Article
add_subs hdr loc sub_len a =
    if ltb 0 sub_len && leb sub_len 4000 then parse_read (read_at sub_len (loc + 76) hdr) a else a

-- the text,
unfoldable pub add_text : Option Bytes → ℕ → ℕ → Article → Article
add_text none text_ofs text_len a = a
add_text (some txt) text_ofs text_len a =
    let raw = take text_len (drop text_ofs txt) in
    let parts = split_jam_text raw in
    if length raw == 0 then a else record a { body = parts.0; kludges = parts.1 }

-- and its measures.
abbrev pub measured : Article → Article
measured a = record a { bytes = length a.body; lines = count_lines a.body }

abbrev pub article_from : Bytes → Option Bytes → ℕ → ℕ → Option Bytes → Option Article
article_from hdr txt loc fallback none = none
article_from hdr txt loc fallback (some h) = some (
    measured (
      add_text txt (u32_of (drop 60 h)) (u32_of (drop 64 h))
        (add_subs hdr loc (u32_of (drop 8 h)) (header_article fallback h))))

unfoldable pub article_at : Bytes → Option Bytes → ℕ → ℕ → Option Article
article_at hdr txt loc fallback = article_from hdr txt loc fallback (header_at hdr loc)

-- `ReadMsg` on the three files.
abbrev pub read_found : Bytes → Option Bytes → Option (ℕ × ℕ) → Option Article
read_found hdr txt none = none
read_found hdr txt (some (loc, fallback)) = article_at hdr txt loc fallback

unfoldable pub read_files : ℕ → Bytes → Bytes → Option Bytes → ℕ → Option Article
read_files base_num idx hdr txt num =
    read_found hdr txt (jam_find_msg idx hdr base_num num (idx_slots idx))

abbrev pub read_open : ℕ → ℕ → Option Bytes → Option Bytes → Option Bytes → Option Article
read_open base_num num (some idx) (some hdr) txt = read_files base_num idx hdr txt num
read_open base_num num (some idx) none txt = none
read_open base_num num none hdr txt = none

-- `ReadMsg`; a number below 1 is 0.
unfoldable pub read_msg : Base → ℕ → Option Article
read_msg base num =
    if ltb num 1 then none else read_open (jam_base_msg base.jhd) num base.jdx base.jhr base.jdt
