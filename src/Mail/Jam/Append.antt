-- ===== src/Mail/Jam/Append.antt =====
-- internal/mail/jam_rw.go: a message that `AppendMsg` adds, read back by `ReadMsg`.
use ele_bbs_go.Base.{
  ℕ, ◌+◌, ◌-◌, ◌*◌, ◌<◌, ◌≡◌, refl, sym, ap, ◌∙◌, false, [], ◌++◌, some, arith, Bytes, length,
  length-append, drop-append, drop-drop, le→leb, le→ltb_false, lt→ltb, lt→leb_false, append_assoc,
  append-nil,
}
use ele_bbs_go.Base.Files.{read_at, read_at-end}
use ele_bbs_go.Mail.Jam.Message.{Article, raw_text, header_subs}
use ele_bbs_go.Mail.Jam.Store.{
  Base, or_empty, bit_on, attr_of, idx_slots, slot_loc, checked, header_at, match_at, jam_find_msg,
  header_article, add_subs, measured, article_at, read_files, read_msg, jam_base_msg,
}
use ele_bbs_go.Mail.Jam.Change.{stored_attr, new_header, date_or, new_record, new_entry, append_msg}
use ele_bbs_go.Mail.Jam.Header
use ele_bbs_go.Mail.Jam.Header.{u32_of-bytes}
use ele_bbs_go.Mail.Jam.BaseNum.{jam_base_msg-ensure}
use ele_bbs_go.Mail.Jam.Subs.{with_subs, parse_subs-header_subs}
use ele_bbs_go.Mail.Jam.Lines.{ended_lf}
use ele_bbs_go.Mail.Jam.Text.{split_jam_text-raw_text}
use ele_bbs_go.Mail.Jam.Stored.{
  Fits, idx_slots-append, fresh, stored, checked_lem, some_subs, add_text_lem,
}

module _ (now base_num : ℕ) (a : Article) (idx hdr txt : Bytes)
    (fits : Fits now base_num a idx hdr txt) where
  abbrev slots : ℕ
  slots = idx_slots idx

  abbrev header : Bytes
  header =
      new_header (length (header_subs a)) (date_or now a.date) (base_num + slots) (stored_attr a)
        (length txt) (length (raw_text a))

  -- The last slot holds the offset of the header.
  pub slot_loc-last : slot_loc (idx ++ new_entry a (length hdr)) slots ≡ some (length hdr)
  unfolding slot_loc new_entry
  slot_loc-last =
      rw
        (
          le→leb (slots * 8 + 8) (length (idx ++ new_entry a (length hdr)))
              (omega (arith, fits.aligned, length-append idx (new_entry a (length hdr)))),
          ← drop-drop (slots * 8) 4 (idx ++ new_entry a (length hdr)),
          drop-append (slots * 8) idx (new_entry a (length hdr)) fits.aligned,
          u32_of-bytes (length hdr) (omega (arith, fits.room)),
        )
        (rw (lt→ltb (length hdr) 2147483648 fits.room))

  attr_alive : bit_on (attr_of header) 0x80000000 ≡ false
  attr_alive = rw (Header.new_header-attr _ _ _ (stored_attr a) _ _ fits.attr) fits.alive

  pub header_at-last :
      (behind : Bytes) → header_at (hdr ++ (header ++ behind)) (length hdr) ≡ some header
  unfolding header_at
  header_at-last behind =
      ap checked (read_at-end hdr header behind 76 (Header.length-new_header _ _ _ _ _ _))
      ∙ checked_lem header (Header.new_header-mark _ _ _ _ _ _) attr_alive

  match-last :
      (n : ℕ)
      → slots < n
      → match_at
          (idx ++ new_entry a (length hdr))
          (hdr ++ (header ++ header_subs a))
          base_num
          (base_num + slots)
          n
          slots
        ≡ some (length hdr, base_num + slots)
  unfolding match_at
  match-last n h =
      rw
        (
          lt→leb_false n slots h,
          slot_loc-last,
          header_at-last (header_subs a),
          Header.new_header-num _ _ (base_num + slots) _ _ _ fits.number,
        )
        (ground arith)

  -- The number leads straight to the last slot.
  find-last :
      jam_find_msg
        (idx ++ new_entry a (length hdr))
        (hdr ++ (header ++ header_subs a))
        base_num
        (base_num + slots)
        (slots + 1)
      ≡ some (length hdr, base_num + slots)
  unfolding jam_find_msg
  find-last =
      let there : base_num + slots - base_num ≡ slots = omega arith in
      rw (
        le→ltb_false (base_num + slots) 1 (omega (arith, fits.valid)),
        lt→leb_false (slots + 1) 0 (omega arith),
        le→ltb_false (base_num + slots) base_num (omega arith),
        there,
        match-last (slots + 1) (omega arith),
      )

  -- The fields of the header come back.
  header_article-fresh : header_article (base_num + slots) header ≡ (fresh now (base_num + slots) a)
  unfolding header_article
  header_article-fresh =
      rw
        (
          Header.new_header-date _ (date_or now a.date) _ _ _ _ fits.date,
          Header.new_header-num _ _ (base_num + slots) _ _ _ fits.number,
          Header.new_header-attr _ _ _ (stored_attr a) _ _ fits.attr,
        )
        (ap (λ (k : ℕ). record (fresh now (base_num + slots) a) { num = k }) (ground arith))

  add_subs-last :
      add_subs
        (hdr ++ (header ++ header_subs a))
        (length hdr)
        (length (header_subs a))
        (header_article (base_num + slots) header)
      ≡ with_subs a (fresh now (base_num + slots) a)
  unfolding add_subs
  add_subs-last =
      rw
        (
          lt→ltb 0 (length (header_subs a)) (some_subs a),
          le→leb (length (header_subs a)) 4000 fits.subs.short,
          subs_read,
        )
        (parse_subs-header_subs a (base_num + slots) header fits.subs
          ∙ ap (with_subs a) header_article-fresh)
    where
      subs_read :
          read_at (length (header_subs a)) (length hdr + 76) (hdr ++ (header ++ header_subs a))
          ≡ some (header_subs a)
      subs_read =
          ap (read_at (length (header_subs a)) (length hdr + 76)) (
            sym (append_assoc hdr header (header_subs a))
            ∙ ap (λ (t : Bytes). (hdr ++ header) ++ t) (sym (append-nil (header_subs a))))
          ∙ ap
              (λ (o : ℕ).
                read_at (length (header_subs a)) o ((hdr ++ header) ++ (header_subs a ++ [])))
              {x = length hdr + 76} {y = length (hdr ++ header)}
              (omega (
                arith,
                length-append hdr header,
                Header.length-new_header (length (header_subs a)) (date_or now a.date)
                    (base_num + slots) (stored_attr a) (length txt) (length (raw_text a)),
              ))
          ∙ read_at-end (hdr ++ header) (header_subs a) [] (length (header_subs a)) refl

  article_at-last :
      article_at
        (hdr ++ (header ++ header_subs a))
        (some (txt ++ raw_text a))
        (length hdr)
        (base_num + slots)
      ≡ some (stored now (base_num + slots) a)
  unfolding article_at
  article_at-last =
      rw
        (
          header_at-last (header_subs a),
          Header.new_header-sub_len (length (header_subs a)) _ _ _ _ _
              (omega (arith, fits.subs.short)),
          Header.new_header-text_ofs _ _ _ _ (length txt) _ (omega (arith, fits.text_room)),
          Header.new_header-text_len _ _ _ _ _ (length (raw_text a))
              (omega (arith, fits.text_room)),
          add_subs-last,
        )
        (ap (λ (t : Article). some (measured t))
          (add_text_lem txt (raw_text a) (with_subs a (fresh now (base_num + slots) a))
            (ended_lf a.body) a.kludges (split_jam_text-raw_text a fits.body fits.kludges) refl
            refl))

  pub read_files-last :
      read_files base_num
        (idx ++ new_entry a (length hdr))
        (hdr ++ new_record now (base_num + slots) a (length txt))
        (some (txt ++ raw_text a))
        (base_num + slots)
      ≡ some (stored now (base_num + slots) a)
  unfolding read_files new_record
  read_files-last =
      rw (idx_slots-append idx (new_entry a (length hdr)) fits.aligned entry_size, find-last)
        article_at-last
    where
      entry_size : length (new_entry a (length hdr)) ≡ 8
      entry_size = unfold new_entry in refl

-- What `Fits` asks of the files of a base.
abbrev pub FitsBase : ℕ → Article → Base → Type 0
FitsBase now a base =
    Fits now (jam_base_msg base.jhd) a (or_empty base.jdx) (or_empty base.jhr) (or_empty base.jdt)

-- The message that `AppendMsg` adds is what `ReadMsg` gives for the number that it returns, if the
-- index is whole, the numbers and offsets fit their words, the subfields take at most 4000 bytes and
-- survive trimming, the body has no carriage returns and no line that starts like a kludge, each
-- kludge is one line, and the attributes do not delete the message.
pub read_msg-append_msg :
    (now : ℕ) (a : Article) (base : Base)
    → FitsBase now a base
    → read_msg (append_msg now a base).0 (append_msg now a base).1
      ≡ some (stored now (append_msg now a base).1 a)
unfolding read_msg append_msg
read_msg-append_msg now a base fits =
    rw
      (
        le→ltb_false (jam_base_msg base.jhd + idx_slots (or_empty base.jdx)) 1
            (omega (arith, fits.valid)),
        jam_base_msg-ensure now _ base.jhd,
      )
      (read_files-last now (jam_base_msg base.jhd) a (or_empty base.jdx) (or_empty base.jhr)
        (or_empty base.jdt) fits)
