-- ===== src/Mail/Jam/Grow.antt =====
-- internal/mail/jam_rw.go: after `AppendMsg` the index of a base points at whole messages.
use ele_bbs_go.Base.{
  ℕ, ◌+◌, ◌≤◌, ◌<◌, ◌≡◌, refl, sym, ap, ◌∙◌, subst, inl, inr, ◌++◌, some, arith, Bytes, ltb, length,
  length-append, Bool-cases, ltb→lt, ltb_false→le, drop-append, take-append,
}
use ele_bbs_go.Mail.Jam.Message.{Article, raw_text, header_subs}
use ele_bbs_go.Mail.Jam.Store.{Base, or_empty, slot_loc, idx_slots, jam_base_msg}
use ele_bbs_go.Mail.Jam.Change.{stored_attr, date_or, new_entry, new_record, new_header, append_msg}
use ele_bbs_go.Mail.Jam.Header
use ele_bbs_go.Mail.Jam.Intact.{header_in, IsInside, IsIntact, IsInside-append}
use ele_bbs_go.Mail.Jam.Stored.{Fits, idx_slots-append}
use ele_bbs_go.Mail.Jam.Append.{FitsBase, slot_loc-last}
use ele_bbs_go.Mail.Jam.Others.{slot_loc-append}

module _ (now base_num : ℕ) (a : Article) (idx hdr txt : Bytes)
    (fits : Fits now base_num a idx hdr txt) where
  abbrev slots : ℕ
  slots = idx_slots idx

  abbrev header : Bytes
  header =
      new_header (length (header_subs a)) (date_or now a.date) (base_num + slots) (stored_attr a)
        (length txt) (length (raw_text a))

  header_in-last :
      header_in (hdr ++ new_record now (base_num + slots) a (length txt)) (length hdr) ≡ header
  unfolding new_record
  header_in-last = rw (drop-append (length hdr) hdr (header ++ header_subs a) refl) (
      take-append 76 header (header_subs a) (
        Header.length-new_header (length (header_subs a)) (date_or now a.date) (base_num + slots)
          (stored_attr a) (length txt) (length (raw_text a))))

  IsInside-last :
      IsInside
        (hdr ++ new_record now (base_num + slots) a (length txt))
        (txt ++ raw_text a)
        (length hdr)
  IsInside-last = record {
    header =
        omega (arith, size, length-append hdr (new_record now (base_num + slots) a (length txt)));
    subs =
        rw
          (
            header_in-last,
            Header.new_header-sub_len (length (header_subs a)) _ _ _ _ _
                (omega (arith, fits.subs.short)),
          )
          (omega
            (arith, size, length-append hdr (new_record now (base_num + slots) a (length txt))));
    text =
        rw
          (
            header_in-last,
            Header.new_header-text_ofs _ _ _ _ (length txt) _ (omega (arith, fits.text_room)),
            Header.new_header-text_len _ _ _ _ _ (length (raw_text a))
                (omega (arith, fits.text_room)),
          )
          (omega (arith, length-append txt (raw_text a)));
  }
    where
      size : length (new_record now (base_num + slots) a (length txt)) ≡ 76 + length (header_subs a)
      size =
          unfold new_record in
          omega (
            arith,
            length-append header (header_subs a),
            Header.length-new_header (length (header_subs a)) (date_or now a.date)
                (base_num + slots) (stored_attr a) (length txt) (length (raw_text a)),
          )

  pub append-IsIntact :
      IsIntact idx hdr txt
      → IsIntact
          (idx ++ new_entry a (length hdr))
          (hdr ++ new_record now (base_num + slots) a (length txt))
          (txt ++ raw_text a)
  append-IsIntact intact = record {
    aligned =
        omega
          (arith, more, intact.aligned, entry_size, length-append idx (new_entry a (length hdr)));
    slots = λ slot loc below e. elim (Bool-cases (ltb slot (idx_slots idx))) [
      | inl old ↦
          let there = ltb→lt slot (idx_slots idx) old in
          IsInside-append hdr txt (new_record now (base_num + slots) a (length txt)) (raw_text a)
            loc
            (intact.slots slot loc there (
              sym (
                slot_loc-append idx (new_entry a (length hdr)) slot
                  (omega (arith, there, intact.aligned)))
              ∙ e))
      | inr new ↦ last slot loc (ltb_false→le slot (idx_slots idx) new) (below_last slot below) e
    ];
  }
    where
      entry_size : length (new_entry a (length hdr)) ≡ 8
      entry_size = unfold new_entry in refl

      more : idx_slots (idx ++ new_entry a (length hdr)) ≡ slots + 1
      more = idx_slots-append idx (new_entry a (length hdr)) fits.aligned entry_size

      below_last :
          (slot : ℕ) → slot < idx_slots (idx ++ new_entry a (length hdr)) → slot < slots + 1
      below_last slot h = omega (arith, h, more)

      last :
          (slot loc : ℕ)
          → slots ≤ slot
          → slot < slots + 1
          → slot_loc (idx ++ new_entry a (length hdr)) slot ≡ some loc
          → IsInside
              (hdr ++ new_record now (base_num + slots) a (length txt))
              (txt ++ raw_text a)
              loc
      last slot loc h k e =
          let same : slot ≡ slots = omega (arith, h, k) in
          let there : length hdr ≡ loc = inj (
            sym (slot_loc-last now base_num a idx hdr txt fits)
            ∙ ap (slot_loc (idx ++ new_entry a (length hdr))) (sym same)
            ∙ e) in
          subst
            (IsInside (hdr ++ new_record now (base_num + slots) a (length txt)) (txt ++ raw_text a))
            there IsInside-last
        where
          inj : {x y : ℕ} → some x ≡ some y → x ≡ y
          inj q = cc

abbrev pub IsIntactBase : Base → Type 0
IsIntactBase base = IsIntact (or_empty base.jdx) (or_empty base.jhr) (or_empty base.jdt)

-- Adding a message keeps the index of a base pointing at whole messages, if the base has room for
-- it and it can be read back.
pub append_msg-IsIntact :
    (now : ℕ) (a : Article) (base : Base)
    → FitsBase now a base
    → IsIntactBase base
    → IsIntactBase (append_msg now a base).0
unfolding append_msg
append_msg-IsIntact now a base fits intact =
    append-IsIntact now (jam_base_msg base.jhd) a (or_empty base.jdx) (or_empty base.jhr)
      (or_empty base.jdt) fits intact
