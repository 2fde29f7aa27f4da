-- ===== src/Mail/Jam/Mark.antt =====
-- internal/mail/jam_rw.go: a message whose attributes `jamChangeAttr` has changed, read again.
use ele_bbs_go.Base.{
  ℕ, ◌+◌, ◌≤◌, ◌<◌, ◌≡◌, refl, sym, ap, subst, ◌∙◌, ◌⊎◌, inl, inr, false, Option, none, some, arith,
  Bytes, leb, ltb, length, Bool-cases, le→leb, drop, leb_false→lt,
}
use mathlib.Core.Path.{fun_ext}
use ele_bbs_go.Base.Files.{u32_of-take, word_at, write_at}
use ele_bbs_go.Pascal.Buf.Codec.{u32_bytes}
use ele_bbs_go.Mail.Jam.Message.{Article}
use ele_bbs_go.Mail.Jam.Store.{
  bit_on, attr_of, slot_loc, idx_slots, header_at, located, numbered, match_at, jam_find_msg,
  header_article, add_subs, add_text, article_at, read_found, read_files, read_msg, jam_base_msg,
}
use ele_bbs_go.Mail.Jam.Change.{change_at, jam_change_attr}
use ele_bbs_go.Mail.Jam.Found.{HasMessage, jam_find_msg-HasMessage}
use ele_bbs_go.Mail.Jam.Intact.{header_in, IsInside, IsIntact, header_at-some}
use ele_bbs_go.Mail.Jam.Others.{whole}
use ele_bbs_go.Mail.Jam.Marked.{
  with_attr, hdr', word_in, word-kept, header_at-changed, header_at-apart, header_article-changed,
  add_subs-changed, add_subs-with_attr, add_text-with_attr,
}

-- Two slots show the same header, or headers that do not overlap.
pub record IsApart (idx : Bytes) : Type 0 where
  pub apart :
      (i j k l : ℕ)
      → slot_loc idx i ≡ some k
      → slot_loc idx j ≡ some l
      → (k ≡ l) ⊎ ((k + 76 ≤ l) ⊎ (l + 76 ≤ k))

module _ (idx hdr txt : Bytes) (base_num num loc fallback v : ℕ) (intact : IsIntact idx hdr txt)
    (apart : IsApart idx) (m : HasMessage idx hdr base_num num (idx_slots idx) loc fallback)
    (small : v < 4294967296) (alive : bit_on v 0x80000000 ≡ false) where
  inside : IsInside hdr txt loc
  inside = intact.slots m.slot loc m.below m.leads

  abbrev new_hdr : Bytes
  new_hdr = hdr' hdr loc v inside.header

  -- No slot changes its number.
  located-changed :
      (slot other num fb : ℕ)
      → slot < idx_slots idx
      → slot_loc idx slot ≡ some other
      → located new_hdr num fb (some other) ≡ located hdr num fb (some other)
  located-changed slot other num fb below leads =
      elim (apart.apart slot m.slot other loc leads m.leads) [
        | inl same ↦
            subst (λ k. located new_hdr num fb (some k) ≡ located hdr num fb (some k)) (sym same)
              (ap (numbered num fb loc)
                  (header_at-changed hdr loc v inside.header m.header small alive m.shows)
                ∙ here
                ∙ ap (numbered num fb loc) (sym m.shows))
        | inr beside ↦ ap (numbered num fb other) (
            header_at-apart hdr loc v inside.header other
              (intact.slots slot other below leads).header beside)
      ]
    where
      here :
          numbered num fb loc (some (header_in new_hdr loc)) ≡ numbered num fb loc (some m.header)
      here = rw (
        word-kept hdr loc v inside.header 48 (omega arith) (inl (omega arith)),
        header_at-some hdr loc m.header inside.header m.shows,
      )

  match-changed :
      (slot : ℕ)
      → match_at idx new_hdr base_num num (idx_slots idx) slot
        ≡ match_at idx hdr base_num num (idx_slots idx) slot
  unfolding match_at
  match-changed slot = elim (Bool-cases (leb (idx_slots idx) slot)) [
    | inl e ↦ rw e
    | inr e ↦ rw e (by_loc (leb_false→lt (idx_slots idx) slot e) (slot_loc idx slot) refl)
  ]
    where
      by_loc :
          slot < idx_slots idx
          → (o : Option ℕ) → slot_loc idx slot ≡ o
          → located new_hdr num (base_num + slot) o ≡ located hdr num (base_num + slot) o
      by_loc below none e = refl
      by_loc below (some other) e = located-changed slot other num (base_num + slot) below e

  find-changed :
      jam_find_msg idx new_hdr base_num num (idx_slots idx)
      ≡ jam_find_msg idx hdr base_num num (idx_slots idx)
  unfolding jam_find_msg
  find-changed = rw (fun_ext match-changed)

  article_at-changed :
      (a : Article)
      → article_at hdr (some txt) loc fallback ≡ some a
      → article_at new_hdr (some txt) loc fallback ≡ some (with_attr v a)
  unfolding article_at
  article_at-changed a e =
      rw
        (
          header_at-changed hdr loc v inside.header m.header small alive m.shows,
          word-kept hdr loc v inside.header 8 (omega arith) (inl (omega arith)),
          word-kept hdr loc v inside.header 60 (omega arith) (inr (omega arith)),
          word-kept hdr loc v inside.header 64 (omega arith) (inr (omega arith)),
          header_article-changed hdr loc v inside.header fallback small,
          add_subs-changed hdr loc v inside.header (word_at 8 (header_in hdr loc))
              (with_attr v (header_article fallback (header_in hdr loc))) inside.subs,
          add_subs-with_attr v hdr loc (word_at 8 (header_in hdr loc))
              (header_article fallback (header_in hdr loc)),
          add_text-with_attr v (some txt) (word_at 60 (header_in hdr loc))
              (word_at 64 (header_in hdr loc))
              (add_subs hdr loc (word_at 8 (header_in hdr loc))
                (header_article fallback (header_in hdr loc))),
        )
        (ap (λ (x : Article). some (with_attr v x))
          (inj (rw (m.shows, header_at-some hdr loc m.header inside.header m.shows) at e)))
    where
      inj : {x y : Article} → some x ≡ some y → x ≡ y
      inj q = cc

-- The attributes of an article are those of its header.
article_at-attr :
    (hdr : Bytes) (txt : Option Bytes) (loc fallback : ℕ) (h : Bytes) (a : Article)
    → header_at hdr loc ≡ some h
    → article_at hdr txt loc fallback ≡ some a
    → a.attr ≡ attr_of h
unfolding article_at add_text header_article add_subs
article_at-attr hdr txt loc fallback h a shows e =
    sym (ap attr (inj (rw shows at e)))
    ∙ ap (λ (x : Article). (add_text txt (word_at 60 h) (word_at 64 h) x).attr)
        (add_subs-with_attr (attr_of h) hdr loc (word_at 8 h) (header_article fallback h))
    ∙ ap attr (
        add_text-with_attr (attr_of h) txt (word_at 60 h) (word_at 64 h)
          (add_subs hdr loc (word_at 8 h) (header_article fallback h)))
  where
    attr : Article → ℕ
    attr x = x.attr

    inj : {x y : Article} → some x ≡ some y → x ≡ y
    inj q = cc

-- `jamChangeAttr` writes at the word of the attributes.
change_at-word :
    (fn : ℕ → ℕ) (hdr : Bytes) (loc fallback : ℕ)
    → loc + 76 ≤ length hdr
    → change_at fn hdr (some (loc, fallback))
      ≡ write_at (u32_bytes (fn (word_at (loc + 52) hdr))) (loc + 52) hdr
unfolding change_at
change_at-word fn hdr loc fallback inside =
    rw (
      le→leb (loc + 52 + 4) (length hdr) (omega (arith, inside)),
      u32_of-take (drop (loc + 52) hdr),
    )

read_files-change :
    (fn : ℕ → ℕ) (idx hdr txt : Bytes) (base_num num : ℕ) (a : Article)
    → IsIntact idx hdr txt
    → IsApart idx
    → read_files base_num idx hdr (some txt) num ≡ some a
    → fn a.attr < 4294967296
    → bit_on (fn a.attr) 0x80000000 ≡ false
    → read_files base_num idx
        (change_at fn hdr (jam_find_msg idx hdr base_num num (idx_slots idx)))
        (some txt)
        num
      ≡ some (with_attr (fn a.attr) a)
unfolding read_files
read_files-change fn idx hdr txt base_num num a intact apart e small alive =
    by_found (jam_find_msg idx hdr base_num num (idx_slots idx)) refl e
  where
    no : ◌≡◌ {A = Option Article} none (some a) → ⊥
    no q = cc

    by_found :
        (o : Option (ℕ × ℕ))
        → jam_find_msg idx hdr base_num num (idx_slots idx) ≡ o
        → read_found hdr (some txt) o ≡ some a
        → read_found
            (change_at fn hdr o)
            (some txt)
            (jam_find_msg idx (change_at fn hdr o) base_num num (idx_slots idx))
          ≡ some (with_attr (fn a.attr) a)
    by_found none f q = absurd (no q)
    by_found (some (loc, fallback)) f q =
        let m = jam_find_msg-HasMessage idx hdr base_num num (idx_slots idx) loc fallback f in
        let inside = (intact.slots m.slot loc m.below m.leads).header in
        let is_attr : a.attr ≡ word_at (loc + 52) hdr =
          article_at-attr hdr (some txt) loc fallback m.header a m.shows q
          ∙ ap attr_of (header_at-some hdr loc m.header inside m.shows)
          ∙ word_in hdr loc 52 inside (omega arith) in
        rw
          (
            change_at-word fn hdr loc fallback inside,
            ← is_attr,
            find-changed idx hdr txt base_num num loc fallback (fn a.attr) intact apart m small
                alive,
            f,
          )
          (article_at-changed idx hdr txt base_num num loc fallback (fn a.attr) intact apart m small
            alive a q)

-- A message whose attributes are changed reads as before under the new ones, in a base whose index
-- points at whole messages that do not overlap; the new attributes must not delete it.
pub read_msg-jam_change_attr :
    (fn : ℕ → ℕ) (idx hdr txt : Bytes) (jhd jlr : Option Bytes) (num : ℕ) (a : Article)
    → IsIntact idx hdr txt
    → IsApart idx
    → read_msg (whole idx hdr txt jhd jlr) num ≡ some a
    → fn a.attr < 4294967296
    → bit_on (fn a.attr) 0x80000000 ≡ false
    → read_msg (jam_change_attr fn (whole idx hdr txt jhd jlr) num) num
      ≡ some (with_attr (fn a.attr) a)
unfolding read_msg jam_change_attr
read_msg-jam_change_attr fn idx hdr txt jhd jlr num a intact apart e small alive =
    elim (Bool-cases (ltb num 1)) [
      | inl t ↦ absurd (no (rw t at e))
      | inr t ↦ rw t (
          read_files-change fn idx hdr txt (jam_base_msg jhd) num a intact apart (rw t at e) small
            alive)
    ]
  where
    no : ◌≡◌ {A = Option Article} none (some a) → ⊥
    no q = cc
