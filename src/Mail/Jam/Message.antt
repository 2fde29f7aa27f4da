-- ===== src/Mail/Jam/Message.antt =====
-- internal/mail/jam.go and jam_rw.go: a message, the subfields of its header and its text. A Go
-- string is its bytes.
use ele_bbs_go.Base.{
  ℕ, zero, suc, ◌+◌, ◌-◌, ◌*◌, Bool, false, not, ◌&&◌, ◌||◌, List, [], ◌∷◌, ◌++◌, Option, none,
  Bytes, ltb, ◌==◌, if◌then◌else◌, length, take, drop,
}
use ele_bbs_go.Base.Files.{u32_of}
use ele_bbs_go.Base.Int.{ℤ}
use ele_bbs_go.Base.Space.{split, trim_space}
use ele_bbs_go.Pascal.Text.{trim_right, is_nul}
use ele_bbs_go.Pascal.Buf.Codec.{u16_bytes, u32_bytes}
use ele_bbs_go.Mail.Wrap.{crlf_to_lf, cr_to_lf}

-- `Article`; no date is the zero time.
pub record Article : Type 0 where
  pub num : ℕ
  pub from : Bytes
  pub to : Bytes
  pub subject : Bytes
  pub date : Option ℤ
  pub msg_id : Bytes
  pub reply_id : Bytes
  pub body : Bytes
  pub kludges : List Bytes
  pub bytes : ℕ
  pub lines : ℕ
  pub deleted : Bool
  pub received : Bool
  pub sent : Bool
  pub private : Bool
  pub f_attach : Bool
  pub kill_sent : Bool
  pub crash : Bool
  pub orig : Bytes
  pub dest : Bytes
  pub attr : ℕ

abbrev pub no_article : Article
no_article = record {
  num = 0;
  from = [];
  to = [];
  subject = [];
  date = none;
  msg_id = [];
  reply_id = [];
  body = [];
  kludges = [];
  bytes = 0;
  lines = 0;
  deleted = false;
  received = false;
  sent = false;
  private = false;
  f_attach = false;
  kill_sent = false;
  crash = false;
  orig = [];
  dest = [];
  attr = 0;
}

-- `binary.LittleEndian` at the start of a slice; a shorter slice than it needs does not occur.
abbrev pub u16_of : Bytes → ℕ
u16_of (a ∷ b ∷ s) = a + b * 256
u16_of _ = 0

-- `jamSub`.
unfoldable pub jam_sub : ℕ → Bytes → Bytes
jam_sub loid s = u16_bytes loid ++ (0 ∷ 0 ∷ []) ++ u32_bytes (length s) ++ s

-- The switch on a subfield's identifier.
unfoldable pub put_sub : ℕ → Bytes → Article → Article
put_sub loid s a =
    if loid == 0
    then record a { orig = trim_space s }
    else if loid == 1
    then record a { dest = trim_space s }
    else if loid == 2
    then record a { from = s }
    else if loid == 3
    then record a { to = s }
    else if loid == 4
    then record a { msg_id = trim_space s }
    else if loid == 5
    then record a { reply_id = trim_space s }
    else if loid == 6
    then record a { subject = s }
    else a

-- The loop of `parseJamSubs` on the bytes from `off` on, for a number of rounds.
unfoldable pub parse_subs_loop : ℕ → Bytes → Article → Article
parse_subs_loop zero buf a = a
parse_subs_loop (suc fuel) buf a =
    let dlen = u32_of (drop 4 buf) in
    let behind = drop 8 buf in
    let s = trim_right is_nul (take dlen behind) in
    let next = parse_subs_loop fuel (drop dlen behind) (put_sub (u16_of buf) s a) in
    if ltb (length buf) 8 || ltb 4000 dlen || ltb (length behind) dlen then a else next

unfoldable pub parse_subs : Bytes → Article → Article
parse_subs buf a = parse_subs_loop (length buf) buf a

-- A line of text that starts with ^A is a kludge: the loop of `splitJamText`.
unfoldable pub sort_lines : List Bytes → List Bytes × List Bytes
sort_lines [] = ([], [])
sort_lines ([] ∷ rest) = let (l, k) = sort_lines rest in ([] ∷ l, k)
sort_lines ((c ∷ ln) ∷ rest) =
    let (l, k) = sort_lines rest in if c == 1 then (l, ln ∷ k) else ((c ∷ ln) ∷ l, k)

-- `strings.Join` with a line feed.
unfoldable pub join_lines : List Bytes → Bytes
join_lines [] = []
join_lines (ln ∷ []) = ln
join_lines (ln ∷ m ∷ rest) = ln ++ 10 ∷ join_lines (m ∷ rest)

unfoldable pub split_jam_text : Bytes → Bytes × List Bytes
split_jam_text raw =
    let (l, k) = sort_lines (split 10 (cr_to_lf (crlf_to_lf raw))) in (join_lines l, k)

-- The loop of `stringsCRLF`, with the byte before.
unfoldable pub crlf_loop : ℕ → Bytes → Bytes
crlf_loop prev [] = []
crlf_loop prev (c ∷ s) =
    let rest = crlf_loop c s in
    if c == 10 then (if prev == 13 then 10 ∷ rest else 13 ∷ 10 ∷ rest) else c ∷ rest

-- `stringsCRLF`.
unfoldable pub strings_crlf : Bytes → Bytes
unfolding crlf_loop
strings_crlf s = crlf_loop 0 s

abbrev pub count_lf : Bytes → ℕ
count_lf [] = 0
count_lf (c ∷ s) = if c == 10 then count_lf s + 1 else count_lf s

abbrev pub ends_with : ℕ → Bytes → Bool
ends_with x [] = false
ends_with x (c ∷ []) = c == x
ends_with x (c ∷ d ∷ s) = ends_with x (d ∷ s)

-- `countLines`.
unfoldable pub count_lines : Bytes → ℕ
count_lines [] = 0
count_lines (c ∷ s) = let n = 1 + count_lf (c ∷ s) in if ends_with 10 (c ∷ s) then n - 1 else n

-- What `AppendMsg` stores of the kludge lines.
unfoldable pub kludge_lines : List Bytes → Bytes
kludge_lines [] = []
kludge_lines (k ∷ rest) = 1 ∷ k ++ 13 ∷ kludge_lines rest

-- The text that `AppendMsg` stores.
unfoldable pub ended : Bytes → Bytes
ended [] = []
ended (c ∷ s) =
    if not (ends_with 10 (c ∷ s)) && not (ends_with 13 (c ∷ s))
    then (c ∷ s) ++ 13 ∷ 10 ∷ []
    else c ∷ s

unfoldable pub raw_text : Article → Bytes
raw_text a = strings_crlf (ended a.body) ++ kludge_lines a.kludges

-- The subfields that `AppendMsg` stores.
unfoldable pub sub_if : ℕ → Bytes → Bytes
unfolding jam_sub
sub_if loid [] = []
sub_if loid (c ∷ s) = jam_sub loid (c ∷ s)

unfoldable pub header_subs : Article → Bytes
header_subs a =
    jam_sub 2 a.from
    ++ (jam_sub 3 a.to
        ++ (jam_sub 6 a.subject
            ++ (sub_if 0 a.orig
                ++ (sub_if 1 a.dest ++ (sub_if 4 a.msg_id ++ sub_if 5 a.reply_id)))))
