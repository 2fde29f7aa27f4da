-- ===== src/Mail/Jam/Others.antt =====
-- internal/mail/jam_rw.go: `AppendMsg` leaves the messages that are there.
use ele_bbs_go.Base.{
  ℕ, ◌+◌, ◌-◌, ◌*◌, ◌≤◌, ◌<◌, ◌≡◌, ◌≢◌, refl, sym, ap, ap₂, ◌∙◌, true, false, inl, inr, ◌⊎◌, Bool,
  [], ◌++◌, Option, none, some, arith, Bytes, leb, ltb, if◌then◌else◌, length, drop, length-append,
  window-append, Bool-cases, le→leb, leb→le, lt→leb_false, ltb_false→le, ltb→lt,
}
use ele_bbs_go.Base.Int.{from_u32}
use ele_bbs_go.Base.Files.{u32_of, u32_of-take}
use ele_bbs_go.Mail.Jam.Message.{Article, raw_text, header_subs}
use ele_bbs_go.Mail.Jam.Store.{
  Base, or_else, non_negative, slot_loc, idx_slots, located, match_at, find_chunk, find_chunks,
  jam_find_msg, read_found, read_files, read_msg, jam_base_msg,
}
use ele_bbs_go.Mail.Jam.Change.{new_entry, new_record, append_msg}
use ele_bbs_go.Mail.Jam.Header
use ele_bbs_go.Mail.Jam.Search.{
  or_else-none, find_chunk-add, find_chunks_all, find_chunks_empty, find_chunk-agree,
}
use ele_bbs_go.Mail.Jam.Intact.{IsIntact, header_at-append, article_at-append}
use ele_bbs_go.Mail.Jam.Stored.{Fits, idx_slots-append}
use ele_bbs_go.Mail.Jam.Append.{FitsBase, header_at-last, slot_loc-last}
use ele_bbs_go.Mail.Jam.Found.{jam_find_msg-HasMessage}
use ele_bbs_go.Mail.Jam.BaseNum.{jam_base_msg-ensure}

pub slot_loc-append :
    (idx more : Bytes) (slot : ℕ)
    → slot * 8 + 8 ≤ length idx
    → slot_loc (idx ++ more) slot ≡ slot_loc idx slot
unfolding slot_loc
slot_loc-append idx more slot h =
    rw
      (
        le→leb (slot * 8 + 8) (length idx) h,
        le→leb (slot * 8 + 8) (length (idx ++ more)) (omega (arith, h, length-append idx more)),
      )
      (ap (λ (w : ℕ). non_negative (from_u32 w))
        (sym (u32_of-take (drop (slot * 8 + 4) (idx ++ more)))
          ∙ ap u32_of (window-append 4 (slot * 8 + 4) idx more (omega (arith, h)))
          ∙ u32_of-take (drop (slot * 8 + 4) idx)))

module _ (now base_num : ℕ) (a : Article) (idx hdr txt : Bytes)
    (fits : Fits now base_num a idx hdr txt) (intact : IsIntact idx hdr txt) where
  abbrev slots : ℕ
  slots = idx_slots idx

  abbrev idx' : Bytes
  idx' = idx ++ new_entry a (length hdr)

  abbrev hdr' : Bytes
  hdr' = hdr ++ new_record now (base_num + slots) a (length txt)

  abbrev txt' : Bytes
  txt' = txt ++ raw_text a

  inside_idx : (slot : ℕ) → slot < slots → slot * 8 + 8 ≤ length idx
  inside_idx slot h = omega (arith, h, intact.aligned)

  module _ (num : ℕ) (other : num ≢ base_num + slots) where
    -- A slot that was there shows the same,
    match-old :
        (slot : ℕ)
        → slot < slots
        → match_at idx' hdr' base_num num (slots + 1) slot
          ≡ match_at idx hdr base_num num slots slot
    unfolding match_at
    match-old slot h =
        rw
          (
            lt→leb_false (slots + 1) slot (omega (arith, h)),
            lt→leb_false slots slot h,
            slot_loc-append idx (new_entry a (length hdr)) slot (inside_idx slot h),
          )
          (by_loc (slot_loc idx slot) refl)
      where
        by_loc :
            (o : Option ℕ)
            → slot_loc idx slot ≡ o
            → located hdr' num (base_num + slot) o ≡ located hdr num (base_num + slot) o
        by_loc none e = refl
        by_loc (some loc) e = rw (
            header_at-append hdr txt (new_record now (base_num + slots) a (length txt)) [] loc
              (intact.slots slot loc h e))

    -- and the new slot has another number.
    match-new : match_at idx' hdr' base_num num (slots + 1) slots ≡ none
    unfolding match_at new_record
    match-new =
        rw
          (
            lt→leb_false (slots + 1) slots (omega arith),
            slot_loc-last now base_num a idx hdr txt fits,
            header_at-last now base_num a idx hdr txt fits (header_subs a),
            Header.new_header-num _ _ (base_num + slots) _ _ _ fits.number,
          )
          (ground arith)

    past : (n slot : ℕ) → n ≤ slot → match_at idx hdr base_num num n slot ≡ none
    unfolding match_at
    past n slot h = rw (le→leb n slot h)

    past' : (n slot : ℕ) → n ≤ slot → match_at idx' hdr' base_num num n slot ≡ none
    unfolding match_at
    past' n slot h = rw (le→leb n slot h)

    match-direct :
        (slot : ℕ)
        → slot ≢ slots
        → match_at idx' hdr' base_num num (slots + 1) slot
          ≡ match_at idx hdr base_num num slots slot
    match-direct slot ne = elim (Bool-cases (ltb slot slots)) [
      | inl e ↦ match-old slot (ltb→lt slot slots e)
      | inr e ↦
          let past_old = ltb_false→le slot slots e in
          past' (slots + 1) slot (grind (arith, past_old, ne)) ∙ sym (past slots slot past_old)
    ]

    searched :
        find_chunks (match_at idx' hdr' base_num num (slots + 1)) (slots + 1) 0 (slots + 1)
        ≡ find_chunks (match_at idx hdr base_num num slots) slots 0 slots
    searched =
        find_chunks_all (match_at idx' hdr' base_num num (slots + 1)) (slots + 1) (slots + 1)
          (omega arith)
        ∙ find_chunk-add (match_at idx' hdr' base_num num (slots + 1)) slots 1 0
        ∙ ap₂ or_else
            (find_chunk-agree (match_at idx' hdr' base_num num (slots + 1))
              (match_at idx hdr base_num num slots) slots 0
              (λ i p q. match-old i (omega (arith, q))))
            last
        ∙ or_else-none (find_chunk (match_at idx hdr base_num num slots) slots 0)
        ∙ sym (find_chunks_all (match_at idx hdr base_num num slots) slots slots (omega arith))
      where
        last : find_chunk (match_at idx' hdr' base_num num (slots + 1)) 1 (0 + slots) ≡ none
        last = let z : 0 + slots ≡ slots = omega arith in rw z (unfold find_chunk in rw match-new)

    -- The search finds what it found.
    find-other :
        jam_find_msg idx' hdr' base_num num (slots + 1) ≡ jam_find_msg idx hdr base_num num slots
    unfolding jam_find_msg
    find-other = elim (Bool-cases (ltb num 1)) [
      | inl e ↦ rw e
      | inr e ↦
          rw (e, lt→leb_false (slots + 1) 0 (omega arith))
            (ap₂ or_else direct searched ∙ by_slots (Bool-cases (leb slots 0)))
    ]
      where
        both_none : (b : Bool) → ◌≡◌ {A = Option (ℕ × ℕ)} (if b then none else none) none
        both_none true = refl
        both_none false = refl

        direct :
            (if ltb num base_num
              then none
              else match_at idx' hdr' base_num num (slots + 1) (num - base_num))
            ≡ (if ltb num base_num
                then none
                else match_at idx hdr base_num num slots (num - base_num))
        direct = elim (Bool-cases (ltb num base_num)) [
          | inl e ↦ rw e
          | inr e ↦
              let above = ltb_false→le num base_num e in
              rw e (match-direct (num - base_num) (λ q. other (omega (arith, above, q))))
        ]

        by_slots :
            (leb slots 0 ≡ true) ⊎ (leb slots 0 ≡ false)
            → or_else
                (if ltb num base_num
                  then none
                  else match_at idx hdr base_num num slots (num - base_num))
                (find_chunks (match_at idx hdr base_num num slots) slots 0 slots)
              ≡ (if leb slots 0
                  then none
                  else or_else
                      (if ltb num base_num
                        then none
                        else match_at idx hdr base_num num slots (num - base_num))
                      (find_chunks (match_at idx hdr base_num num slots) slots 0 slots))
        by_slots (inr e) = rw e
        by_slots (inl e) =
            let z : slots ≡ 0 = omega (arith, leb→le slots 0 e) in
            rw
              (
                e,
                past slots (num - base_num) (omega (arith, z)),
                find_chunks_empty (match_at idx hdr base_num num slots) slots z,
              )
              (or_else-none _ ∙ both_none (ltb num base_num))

    pub read_files-other :
        read_files base_num idx' hdr' (some txt') num ≡ read_files base_num idx hdr (some txt) num
    unfolding read_files
    read_files-other =
        rw
          (
            idx_slots-append idx (new_entry a (length hdr)) intact.aligned
                (unfold new_entry in refl),
            find-other,
          )
          (by_found (jam_find_msg idx hdr base_num num slots) refl)
      where
        by_found :
            (o : Option (ℕ × ℕ))
            → jam_find_msg idx hdr base_num num slots ≡ o
            → read_found hdr' (some txt') o ≡ read_found hdr (some txt) o
        by_found none e = refl
        by_found (some (loc, fallback)) e =
            let m = jam_find_msg-HasMessage idx hdr base_num num slots loc fallback e in
            article_at-append hdr txt (new_record now (base_num + slots) a (length txt))
              (raw_text a) loc (intact.slots m.slot loc m.below m.leads) fallback

-- A base whose files are there.
abbrev pub whole : Bytes → Bytes → Bytes → Option Bytes → Option Bytes → Base
whole idx hdr txt jhd jlr = record {
  jdx = some idx;
  jhr = some hdr;
  jdt = some txt;
  jhd = jhd;
  jlr = jlr;
}

-- `AppendMsg` leaves what `ReadMsg` gives for every other number, in a base whose files are there,
-- whose index points at whole messages, and which has room for a message that can be read back.
pub read_msg-append_msg_other :
    (now : ℕ) (a : Article) (idx hdr txt : Bytes) (jhd jlr : Option Bytes) (num : ℕ)
    → FitsBase now a (whole idx hdr txt jhd jlr)
    → IsIntact idx hdr txt
    → num ≢ (append_msg now a (whole idx hdr txt jhd jlr)).1
    → read_msg (append_msg now a (whole idx hdr txt jhd jlr)).0 num
      ≡ read_msg (whole idx hdr txt jhd jlr) num
unfolding read_msg append_msg
read_msg-append_msg_other now a idx hdr txt jhd jlr num fits intact other =
    rw (jam_base_msg-ensure now _ jhd) (elim (Bool-cases (ltb num 1)) [
      | inl e ↦ rw e
      | inr e ↦ rw e (read_files-other now (jam_base_msg jhd) a idx hdr txt fits intact num other)
    ])
