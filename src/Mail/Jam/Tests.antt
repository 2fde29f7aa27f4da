-- ===== src/Mail/Jam/Tests.antt =====
-- A message base of one message, to which a second is added.
use Prim.Native.Nat.{bit_or}
use ele_bbs_go.Base.{
  bytes_eq, inl, lt→leb_false, ℕ, zero, suc, ◌+◌, ◌*◌, ◌≡◌, ◌≢◌, refl, sym, ◌∙◌, [], ◌∷◌, none,
  some, arith, codes,
}
use ele_bbs_go.Base.Int.{pos}
use ele_bbs_go.Pascal.Text.{trim_right}
use ele_bbs_go.Base.Space.{trim_space}
use ele_bbs_go.Mail.Jam.Message.{
  Article, no_article, raw_text, header_subs, jam_sub, sub_if, strings_crlf, crlf_loop, ended,
  kludge_lines,
}
use ele_bbs_go.Mail.Jam.Store.{
  match_at, checked, header_at, Base, or_empty, jam_base_msg, idx_slots, slot_loc, jam_find_msg,
  read_msg,
}
use ele_bbs_go.Mail.Jam.Change.{
  new_entry, new_header, new_record, append_msg, jam_change_attr, stored_attr, set_last_read,
  jam_last_read,
}
use ele_bbs_go.Mail.Jam.Subs.{FitsSubs}
use ele_bbs_go.Mail.Jam.Stored.{stored}
use ele_bbs_go.Mail.Jam.Append.{FitsBase, read_msg-append_msg}
use ele_bbs_go.Mail.Jam.BaseNum.{jam_base_msg-ensure}
use ele_bbs_go.Mail.Jam.Others.{whole, read_msg-append_msg_other}
use ele_bbs_go.Mail.Jam.Grow.{IsIntactBase, append_msg-IsIntact}
use ele_bbs_go.Mail.Jam.Found.{HasMessage, jam_find_msg-HasMessage, jam_find_msg-total}
use ele_bbs_go.Mail.Jam.Marked.{with_attr}
use ele_bbs_go.Mail.Jam.Mark.{IsApart, read_msg-jam_change_attr}
use ele_bbs_go.Mail.Jam.LastRead.{jam_last_read-set_last_read}

abbrev no_base : Base
no_base = record { jdx = none; jhr = none; jdt = none; jhd = none; jlr = none }

abbrev hello : Article
hello = record no_article {
  from = codes "Ann";
  to = codes "Bob";
  subject = codes "Hi";
  date = some (pos 1000);
  body = codes "Hello";
  kludges = codes "MSGID" ∷ [];
}

hello-FitsSubs : FitsSubs hello
unfolding header_subs trim_right trim_space jam_sub sub_if
hello-FitsSubs = record {
  short = ground arith;
  from = refl;
  to = refl;
  subject = refl;
  orig = refl;
  dest = refl;
  msg_id = refl;
  reply_id = refl;
}

no_base-FitsBase : FitsBase 5 hello no_base
unfolding jam_base_msg idx_slots raw_text stored_attr strings_crlf crlf_loop ended kludge_lines
no_base-FitsBase = record {
  aligned = refl;
  valid = ground arith;
  date = ground arith;
  room = ground arith;
  text_room = ground arith;
  number = ground arith;
  attr = ground arith;
  alive = ground arith;
  subs = hello-FitsSubs;
  body = ground arith;
  kludges = ground arith;
}

no_base-IsIntact : IsIntactBase no_base
unfolding idx_slots
no_base-IsIntact = record {
  aligned = refl;
  slots = λ slot loc below leads. absurd (omega (arith, below));
}

read_msg-append_msg_example :
    read_msg (append_msg 5 hello no_base).0 (append_msg 5 hello no_base).1
    ≡ some (stored 5 (append_msg 5 hello no_base).1 hello)
read_msg-append_msg_example = read_msg-append_msg 5 hello no_base no_base-FitsBase

append_msg-IsIntact_example : IsIntactBase (append_msg 5 hello no_base).0
append_msg-IsIntact_example = append_msg-IsIntact 5 hello no_base no_base-FitsBase no_base-IsIntact

-- The base with the message.
abbrev one : Base
one = (append_msg 5 hello no_base).0

abbrev one_whole : Base
one_whole = whole (or_empty one.jdx) (or_empty one.jhr) (or_empty one.jdt) one.jhd one.jlr

one_number : (append_msg 5 hello no_base).1 ≡ 1
unfolding append_msg jam_base_msg idx_slots
one_number = refl

one_base : jam_base_msg one_whole.jhd ≡ jam_base_msg none
unfolding append_msg
one_base = jam_base_msg-ensure 5 _ none

one_slots : idx_slots (or_empty one.jdx) ≡ 1
unfolding append_msg idx_slots new_entry
one_slots = refl

one-FitsBase : FitsBase 6 hello one_whole
unfolding append_msg idx_slots raw_text stored_attr strings_crlf crlf_loop ended kludge_lines
    new_entry new_record new_header header_subs jam_sub sub_if jam_base_msg
one-FitsBase = record {
  aligned = refl;
  valid = rw one_base (ground arith);
  date = ground arith;
  room = ground arith;
  text_room = ground arith;
  number = rw one_base (ground arith);
  attr = ground arith;
  alive = ground arith;
  subs = hello-FitsSubs;
  body = no_base-FitsBase.body;
  kludges = no_base-FitsBase.kludges;
}

one-IsApart : IsApart (or_empty one.jdx)
unfolding slot_loc append_msg new_entry
one-IsApart = record { apart = λ i j k l p q. inl (only i k p ∙ sym (only j l q)) }
  where
    none_some : {k : ℕ} → none ≡ some k → ⊥
    none_some q = cc

    only : (i k : ℕ) → slot_loc (or_empty one.jdx) i ≡ some k → k ≡ 0
    only zero k p = let q : some 0 ≡ some k = p in cc
    only (suc i) k p = absurd (none_some (rw (lt→leb_false (suc i * 8 + 8) 8 (omega arith)) at p))

one_read : read_msg one_whole 1 ≡ some (stored 5 1 hello)
unfolding append_msg jam_base_msg idx_slots
one_read = read_msg-append_msg_example

second : 1 ≢ (append_msg 6 hello one_whole).1
unfolding append_msg jam_base_msg
second = rw (one_base, one_slots) (ground arith)

read_msg-append_msg_other_example :
    read_msg (append_msg 6 hello one_whole).0 1 ≡ read_msg one_whole 1
read_msg-append_msg_other_example =
    read_msg-append_msg_other 6 hello (or_empty one.jdx) (or_empty one.jhr) (or_empty one.jdt)
      one.jhd one.jlr 1 one-FitsBase append_msg-IsIntact_example second

read_msg-jam_change_attr_example :
    read_msg (jam_change_attr (λ attr. bit_or attr 8) one_whole 1) 1
    ≡ some (with_attr (bit_or (stored_attr hello) 8) (stored 5 1 hello))
read_msg-jam_change_attr_example =
    read_msg-jam_change_attr (λ attr. bit_or attr 8) (or_empty one.jdx) (or_empty one.jhr)
      (or_empty one.jdt) one.jhd one.jlr 1 (stored 5 1 hello) append_msg-IsIntact_example
      one-IsApart one_read (unfold stored_attr in omega arith) (unfold stored_attr in refl)

one_found : jam_find_msg (or_empty one.jdx) (or_empty one.jhr) 1 1 1 ≡ some (0, 1)
unfolding append_msg new_entry new_record new_header jam_find_msg match_at slot_loc checked
    header_at stored_attr header_subs jam_sub sub_if raw_text strings_crlf crlf_loop ended
    kludge_lines bytes_eq jam_base_msg idx_slots
one_found = refl

jam_find_msg-HasMessage_example : HasMessage (or_empty one.jdx) (or_empty one.jhr) 1 1 1 0 1
jam_find_msg-HasMessage_example =
    jam_find_msg-HasMessage (or_empty one.jdx) (or_empty one.jhr) 1 1 1 0 1 one_found

jam_find_msg-total_example :
    (r : ℕ × ℕ) × (jam_find_msg (or_empty one.jdx) (or_empty one.jhr) 1 1 1 ≡ some r)
jam_find_msg-total_example =
    jam_find_msg-total (or_empty one.jdx) (or_empty one.jhr) 1 1 1 0 1 (omega arith)
      jam_find_msg-HasMessage_example

jam_last_read-set_last_read_example :
    jam_last_read (some (set_last_read none (codes "Ann") (pos 7))) (codes "Ann") [] ≡ pos 7
jam_last_read-set_last_read_example =
    jam_last_read-set_last_read 0 none (codes "Ann") [] (pos 7) refl
      (λ i below. absurd (omega (arith, below))) (omega arith)
