-- ===== src/Mail/Jam/Stored.antt =====
-- internal/mail/jam_rw.go: what `AppendMsg` leaves of a message, and the room it asks of the base.
use ele_bbs_go.Base.{
  ℕ, suc, ◌+◌, ◌*◌, ◌≤◌, ◌<◌, ◌≡◌, refl, sym, ap, ◌∙◌, true, false, List, [], ◌∷◌, ◌++◌, some,
  arith, Bytes, All, ◌==◌, if◌then◌else◌, length, take, length-append, drop-append, take_all,
  bytes_eq, codes,
}
use ele_bbs_go.Base.Int.{pos}
use ele_bbs_go.Mail.Jam.Message.{
  Article, raw_text, header_subs, jam_sub, no_article, split_jam_text, sort_lines, join_lines,
}
use ele_bbs_go.Mail.Jam.Store.{bit_on, attr_of, idx_slots, checked, add_text, measured}
use ele_bbs_go.Mail.Jam.Change.{stored_attr, date_or}
use ele_bbs_go.Mail.Wrap.{crlf_to_lf, cr_to_lf}
use ele_bbs_go.Base.Space.{split}
use ele_bbs_go.Mail.Jam.Subs.{FitsSubs, with_subs}
use ele_bbs_go.Mail.Jam.Lines.{IsPlain, IsLine, ended_lf}

-- The index is whole, and there is room in it for the message and its offsets.
pub record Fits (now base_num : ℕ) (a : Article) (idx hdr txt : Bytes) : Type 0 where
  pub aligned : length idx ≡ idx_slots idx * 8
  pub valid : 1 ≤ base_num
  pub date : date_or now a.date < 4294967296
  pub room : length hdr < 2147483648
  pub text_room : length txt + length (raw_text a) < 4294967296
  pub number : base_num + idx_slots idx < 4294967296
  pub attr : stored_attr a < 4294967296
  pub alive : bit_on (stored_attr a) 0x80000000 ≡ false
  pub subs : FitsSubs a
  pub body : IsPlain 10 a.body
  pub kludges : All IsLine a.kludges

pub idx_slots-append :
    (idx rec : Bytes)
    → length idx ≡ idx_slots idx * 8
    → length rec ≡ 8
    → idx_slots (idx ++ rec) ≡ idx_slots idx + 1
unfolding idx_slots
idx_slots-append idx rec h l = ground (arith, length-append idx rec)

-- What the header says of a message that is stored under a number.
abbrev pub fresh : ℕ → ℕ → Article → Article
fresh now num a = record no_article {
  num = num;
  date = some (pos (date_or now a.date));
  received = bit_on (stored_attr a) 8;
  sent = bit_on (stored_attr a) 16;
  private = bit_on (stored_attr a) 4;
  f_attach = bit_on (stored_attr a) 0x2000;
  kill_sent = bit_on (stored_attr a) 32;
  crash = bit_on (stored_attr a) 0x100;
  attr = stored_attr a;
}

-- What is read back of the message.
abbrev pub stored : ℕ → ℕ → Article → Article
stored now num a =
    measured
      (record (with_subs a (fresh now num a)) { body = ended_lf a.body; kludges = a.kludges })

pub checked_lem :
    (h : Bytes)
    → bytes_eq (take 3 h) (codes "JAM") ≡ true
    → bit_on (attr_of h) 0x80000000 ≡ false
    → checked (some h) ≡ some h
unfolding checked
checked_lem h mark alive = rw (mark, alive)

pub some_subs : (a : Article) → 0 < length (header_subs a)
unfolding header_subs jam_sub
some_subs a = omega arith

no_text : split_jam_text [] ≡ ([], [])
unfolding split_jam_text crlf_to_lf cr_to_lf split sort_lines join_lines
no_text = refl

pub add_text_lem :
    (txt raw : Bytes) (b : Article) (body : Bytes) (kludges : List Bytes)
    → split_jam_text raw ≡ (body, kludges)
    → b.body ≡ []
    → b.kludges ≡ []
    → add_text (some (txt ++ raw)) (length txt) (length raw) b
      ≡ record b { body = body; kludges = kludges }
unfolding add_text
add_text_lem txt raw b body kludges parted none_of no_kludges =
    rw (drop-append (length txt) txt raw refl, take_all (length raw) raw (omega arith))
      (by_size raw parted)
  where
    by_size :
        (raw : Bytes)
        → split_jam_text raw ≡ (body, kludges)
        → (if length raw == 0
            then b
            else record b { body = (split_jam_text raw).0; kludges = (split_jam_text raw).1 })
          ≡ record b { body = body; kludges = kludges }
    by_size [] e = λ i. record b {
      body = (none_of ∙ ap (λ (p : Bytes × List Bytes). p.0) (sym no_text ∙ e)) i;
      kludges = (no_kludges ∙ ap (λ (p : Bytes × List Bytes). p.1) (sym no_text ∙ e)) i;
    }
    by_size (c ∷ s) e =
        let some_text : (suc (length s) == 0) ≡ false = ground arith in
        rw some_text (λ i. record b { body = (e i).0; kludges = (e i).1 })
