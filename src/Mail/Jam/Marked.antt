-- ===== src/Mail/Jam/Marked.antt =====
-- internal/mail/jam_rw.go, `jamChangeAttr`: the header that it rewrites.
use ele_bbs_go.Base.{
  ℕ, zero, suc, ◌+◌, ◌≤◌, ◌<◌, ◌≡◌, refl, sym, ap, ◌∙◌, ◌⊎◌, inl, inr, true, false, ◌||◌, ◌&&◌,
  Option, none, some, arith, Bytes, codes, bytes_eq, ltb, leb, ◌==◌, length, take, drop,
  length-drop, window-take, drop-drop, le→leb, if_ap, Bool-cases,
}
use ele_bbs_go.Base.Files.{
  u32_of, word_at, read_at, write_at, u32_of-take, length-write_at, window-write_other,
  word-write_other, drop-write_at,
}
use ele_bbs_go.Pascal.Buf.Codec.{u32_bytes}
use ele_bbs_go.Pascal.Text.{trim_right, is_nul}
use ele_bbs_go.Mail.Jam.Message.{Article, put_sub, u16_of, parse_subs_loop, parse_subs}
use ele_bbs_go.Mail.Jam.Store.{
  bit_on, attr_of, checked, header_at, header_article, parse_read, add_subs, add_text,
}
use ele_bbs_go.Mail.Jam.Header.{u32_of-bytes}
use ele_bbs_go.Mail.Jam.Stored.{checked_lem}
use ele_bbs_go.Mail.Jam.Intact.{header_in, header_at-some}

-- An article under other attributes.
abbrev pub with_attr : ℕ → Article → Article
with_attr v a = record a {
  received = bit_on v 8;
  sent = bit_on v 16;
  private = bit_on v 4;
  f_attach = bit_on v 0x2000;
  kill_sent = bit_on v 32;
  crash = bit_on v 0x100;
  attr = v;
}

-- A word of a header is a word of the file.
pub word_in :
    (file : Bytes) (loc o : ℕ)
    → loc + 76 ≤ length file
    → o + 4 ≤ 76
    → word_at o (header_in file loc) ≡ word_at (loc + o) file
word_in file loc o inside h =
    sym (u32_of-take (drop o (header_in file loc)))
    ∙ ap u32_of (
        window-take 4 o 76 (drop loc file) h (omega (arith, inside, length-drop loc file))
        ∙ ap (take 4) (drop-drop loc o file))
    ∙ u32_of-take (drop (loc + o) file)

module _ (hdr : Bytes) (loc v : ℕ) (inside : loc + 76 ≤ length hdr) where
  abbrev pub hdr' : Bytes
  hdr' = write_at (u32_bytes v) (loc + 52) hdr

  fits : loc + 52 + 4 ≤ length hdr
  fits = omega (arith, inside)

  pub inside' : loc + 76 ≤ length hdr'
  inside' = omega (arith, inside, length-write_at (u32_bytes v) hdr (loc + 52) fits)

  -- Every other word of the header stays,
  pub word-kept :
      (o : ℕ)
      → o + 4 ≤ 76
      → (o + 4 ≤ 52) ⊎ (56 ≤ o)
      → word_at o (header_in hdr' loc) ≡ word_at o (header_in hdr loc)
  word-kept o h apart =
      word_in hdr' loc o inside' h
      ∙ word-write_other (u32_bytes v) hdr (loc + 52) fits (loc + o) (beside apart)
      ∙ sym (word_in hdr loc o inside h)
    where
      beside : (o + 4 ≤ 52) ⊎ (56 ≤ o) → (loc + o + 4 ≤ loc + 52) ⊎ (loc + 52 + 4 ≤ loc + o)
      beside (inl p) = inl (omega (arith, p))
      beside (inr p) = inr (omega (arith, p))

  -- and the attributes are the new ones.
  pub attr-changed : v < 4294967296 → attr_of (header_in hdr' loc) ≡ v
  attr-changed small =
      word_in hdr' loc 52 inside' (omega arith)
      ∙ ap u32_of (drop-write_at (u32_bytes v) hdr (loc + 52) fits)
      ∙ u32_of-bytes v small

  mark-kept : take 3 (header_in hdr' loc) ≡ take 3 (header_in hdr loc)
  mark-kept =
      window-take 3 0 76 (drop loc hdr') (omega arith)
        (omega (arith, inside', length-drop loc hdr'))
      ∙ window-write_other (u32_bytes v) hdr (loc + 52) fits 3 loc (inl (omega arith))
      ∙ sym (
          window-take 3 0 76 (drop loc hdr) (omega arith)
            (omega (arith, inside, length-drop loc hdr)))

  marked : (h : Bytes) → checked (some h) ≡ some h → bytes_eq (take 3 h) (codes "JAM") ≡ true
  unfolding checked
  marked h e = ground arith

  pub header_at-changed :
      (h : Bytes)
      → v < 4294967296
      → bit_on v 0x80000000 ≡ false
      → header_at hdr loc ≡ some h
      → header_at hdr' loc ≡ some (header_in hdr' loc)
  unfolding header_at
  header_at-changed h small alive e = rw (le→leb (loc + 76) (length hdr') inside') (
      checked_lem (header_in hdr' loc) (rw mark-kept (marked (header_in hdr loc) was))
        (rw (attr-changed small) alive))
    where
      was : checked (some (header_in hdr loc)) ≡ some (header_in hdr loc)
      was =
          (rw (le→leb (loc + 76) (length hdr) inside) at e)
          ∙ ap some (header_at-some hdr loc h inside e)

  -- A header that stands apart stays.
  pub header_at-apart :
      (other : ℕ)
      → other + 76 ≤ length hdr
      → (other + 76 ≤ loc) ⊎ (loc + 76 ≤ other)
      → header_at hdr' other ≡ header_at hdr other
  unfolding header_at
  header_at-apart other there apart =
      rw
        (
          le→leb (other + 76) (length hdr) there,
          le→leb (other + 76) (length hdr')
              (omega (arith, there, length-write_at (u32_bytes v) hdr (loc + 52) fits)),
        )
        (ap (λ (h : Bytes). checked (some h))
          (window-write_other (u32_bytes v) hdr (loc + 52) fits 76 other (beside apart)))
    where
      beside :
          (other + 76 ≤ loc) ⊎ (loc + 76 ≤ other) → (other + 76 ≤ loc + 52) ⊎ (loc + 52 + 4 ≤ other)
      beside (inl p) = inl (omega (arith, p))
      beside (inr p) = inr (omega (arith, p))

  -- The fields of the header are those of before, under the new attributes,
  pub header_article-changed :
      (fallback : ℕ)
      → v < 4294967296
      → header_article fallback (header_in hdr' loc)
        ≡ with_attr v (header_article fallback (header_in hdr loc))
  unfolding header_article
  header_article-changed fallback small = rw (
    attr-changed small,
    word-kept 36 (omega arith) (inl (omega arith)),
    word-kept 48 (omega arith) (inl (omega arith)),
  )

  -- and the subfields are the same bytes.
  pub add_subs-changed :
      (sub_len : ℕ) (a : Article)
      → loc + 76 + sub_len ≤ length hdr
      → add_subs hdr' loc sub_len a ≡ add_subs hdr loc sub_len a
  unfolding add_subs
  add_subs-changed sub_len a there = rw (
    le→leb (loc + 76 + sub_len) (length hdr) there,
    le→leb (loc + 76 + sub_len) (length hdr')
        (omega (arith, there, length-write_at (u32_bytes v) hdr (loc + 52) fits)),
    window-write_other (u32_bytes v) hdr (loc + 52) fits sub_len (loc + 76) (inr (omega arith)),
  )

put_sub-with_attr :
    (v loid : ℕ) (s : Bytes) (a : Article)
    → put_sub loid s (with_attr v a) ≡ with_attr v (put_sub loid s a)
unfolding put_sub
put_sub-with_attr v loid s a = elim (Bool-cases (loid == 0)) [
  | inl e ↦ rw e
  | inr e ↦ rw e (elim (Bool-cases (loid == 1)) [
    | inl e ↦ rw e
    | inr e ↦ rw e (elim (Bool-cases (loid == 2)) [
      | inl e ↦ rw e
      | inr e ↦ rw e (elim (Bool-cases (loid == 3)) [
        | inl e ↦ rw e
        | inr e ↦ rw e (elim (Bool-cases (loid == 4)) [
          | inl e ↦ rw e
          | inr e ↦ rw e (elim (Bool-cases (loid == 5)) [
            | inl e ↦ rw e
            | inr e ↦ rw e (elim (Bool-cases (loid == 6)) [ inl e ↦ rw e | inr e ↦ rw e (refl) ])
          ])
        ])
      ])
    ])
  ])
]

parse_loop-with_attr :
    (fuel v : ℕ) (buf : Bytes) (a : Article)
    → parse_subs_loop fuel buf (with_attr v a) ≡ with_attr v (parse_subs_loop fuel buf a)
unfolding parse_subs_loop
parse_loop-with_attr zero v buf a = refl
parse_loop-with_attr (suc fuel) v buf a =
    let s : Bytes = trim_right is_nul (take (u32_of (drop 4 buf)) (drop 8 buf)) in
    let rest : Bytes = drop (u32_of (drop 4 buf)) (drop 8 buf) in
    if_ap (with_attr v)
      (ltb (length buf) 8
        || ltb 4000 (u32_of (drop 4 buf))
        || ltb (length (drop 8 buf)) (u32_of (drop 4 buf)))
      refl
      (ap (parse_subs_loop fuel rest) (put_sub-with_attr v (u16_of buf) s a)
        ∙ parse_loop-with_attr fuel v rest (put_sub (u16_of buf) s a))

pub add_subs-with_attr :
    (v : ℕ) (hdr : Bytes) (loc sub_len : ℕ) (a : Article)
    → add_subs hdr loc sub_len (with_attr v a) ≡ with_attr v (add_subs hdr loc sub_len a)
unfolding add_subs parse_subs
add_subs-with_attr v hdr loc sub_len a =
    if_ap (with_attr v) (ltb 0 sub_len && leb sub_len 4000)
      (by_read (read_at sub_len (loc + 76) hdr)) refl
  where
    by_read : (o : Option Bytes) → parse_read o (with_attr v a) ≡ with_attr v (parse_read o a)
    by_read none = refl
    by_read (some sub) = parse_loop-with_attr (length sub) v sub a

pub add_text-with_attr :
    (v : ℕ) (txt : Option Bytes) (ofs len : ℕ) (a : Article)
    → add_text txt ofs len (with_attr v a) ≡ with_attr v (add_text txt ofs len a)
unfolding add_text
add_text-with_attr v none ofs len a = refl
add_text-with_attr v (some txt) ofs len a =
    if_ap (with_attr v) (length (take len (drop ofs txt)) == 0) refl refl
