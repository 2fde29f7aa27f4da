-- ===== src/Mail/Jam/Intact.antt =====
-- internal/mail/jam.go and jam_rw.go: a message base whose index points at whole messages.
use ele_bbs_go.Base.{
  ℕ, ◌+◌, ◌*◌, ◌≤◌, ◌<◌, ◌≡◌, refl, ap, ◌∙◌, ◌&&◌, inl, inr, ◌++◌, Option, none, some, arith, Bytes,
  codes, bytes_eq, leb, ltb, if◌then◌else◌, length, take, drop, length-append, window-append,
  Bool-cases, le→leb,
}
use ele_bbs_go.Base.Files.{word_at, read_at-append}
use ele_bbs_go.Mail.Jam.Message.{Article}
use ele_bbs_go.Mail.Jam.Store.{
  slot_loc, idx_slots, bit_on, attr_of, checked, header_at, header_article, add_subs, add_text,
  measured, article_from, article_at, parse_read,
}

-- The bytes of a header.
abbrev pub header_in : Bytes → ℕ → Bytes
header_in hdr loc = take 76 (drop loc hdr)

-- The header, its subfields and its text stand inside the files.
pub record IsInside (hdr txt : Bytes) (loc : ℕ) : Type 0 where
  pub header : loc + 76 ≤ length hdr
  pub subs : loc + 76 + word_at 8 (header_in hdr loc) ≤ length hdr
  pub text : word_at 60 (header_in hdr loc) + word_at 64 (header_in hdr loc) ≤ length txt

pub record IsIntact (idx hdr txt : Bytes) : Type 0 where
  pub aligned : length idx ≡ idx_slots idx * 8
  pub slots :
      (slot loc : ℕ) → slot < idx_slots idx → slot_loc idx slot ≡ some loc → IsInside hdr txt loc

-- A header that is given is what stands there.
checked-some : (h r : Bytes) → checked (some h) ≡ some r → r ≡ h
unfolding checked
checked-some h r e = elim (Bool-cases (bytes_eq (take 3 h) (codes "JAM"))) [
  | inl m ↦ marked (rw m at e)
  | inr m ↦ absurd (no (rw m at e))
]
  where
    no : none ≡ some r → ⊥
    no q = cc

    marked : (if bit_on (attr_of h) 0x80000000 then none else some h) ≡ some r → r ≡ h
    marked q = elim (Bool-cases (bit_on (attr_of h) 0x80000000)) [
      | inl d ↦ absurd (no (rw d at q))
      | inr d ↦ let s = rw d at q in cc
    ]

pub header_at-some :
    (hdr : Bytes) (loc : ℕ) (h : Bytes)
    → loc + 76 ≤ length hdr
    → header_at hdr loc ≡ some h
    → h ≡ header_in hdr loc
unfolding header_at
header_at-some hdr loc h inside e =
    checked-some (header_in hdr loc) h (rw (le→leb (loc + 76) (length hdr) inside) at e)

-- Files that are extended show the same message at an offset.
module _ (hdr txt more_hdr more_txt : Bytes) (loc : ℕ) (inside : IsInside hdr txt loc) where
  pub header_in-append : header_in (hdr ++ more_hdr) loc ≡ header_in hdr loc
  header_in-append = window-append 76 loc hdr more_hdr inside.header

  pub header_at-append : header_at (hdr ++ more_hdr) loc ≡ header_at hdr loc
  unfolding header_at
  header_at-append = ap checked (read_at-append 76 loc hdr more_hdr inside.header)

  pub IsInside-append : IsInside (hdr ++ more_hdr) (txt ++ more_txt) loc
  IsInside-append = record {
    header = omega (arith, inside.header, length-append hdr more_hdr);
    subs = rw header_in-append (omega (arith, inside.subs, length-append hdr more_hdr));
    text = rw header_in-append (omega (arith, inside.text, length-append txt more_txt));
  }

  add_subs-append :
      (a : Article)
      → add_subs (hdr ++ more_hdr) loc (word_at 8 (header_in hdr loc)) a
        ≡ add_subs hdr loc (word_at 8 (header_in hdr loc)) a
  unfolding add_subs
  add_subs-append a =
      ap
        (λ (t : Option Bytes).
          if ltb 0 (word_at 8 (header_in hdr loc)) && leb (word_at 8 (header_in hdr loc)) 4000
          then parse_read t a
          else a)
        (read_at-append (word_at 8 (header_in hdr loc)) (loc + 76) hdr more_hdr inside.subs)

  add_text-append :
      (a : Article)
      → add_text
          (some (txt ++ more_txt))
          (word_at 60 (header_in hdr loc))
          (word_at 64 (header_in hdr loc))
          a
        ≡ add_text (some txt) (word_at 60 (header_in hdr loc)) (word_at 64 (header_in hdr loc)) a
  unfolding add_text
  add_text-append a = rw (
      window-append (word_at 64 (header_in hdr loc)) (word_at 60 (header_in hdr loc)) txt more_txt
        inside.text)

  pub article_at-append :
      (fallback : ℕ)
      → article_at (hdr ++ more_hdr) (some (txt ++ more_txt)) loc fallback
        ≡ article_at hdr (some txt) loc fallback
  unfolding article_at
  article_at-append fallback = rw header_at-append (by_header (header_at hdr loc) refl)
    where
      by_header :
          (o : Option Bytes)
          → header_at hdr loc ≡ o
          → article_from (hdr ++ more_hdr) (some (txt ++ more_txt)) loc fallback o
            ≡ article_from hdr (some txt) loc fallback o
      by_header none e = refl
      by_header (some h) e = rw (header_at-some hdr loc h inside.header e) (
          ap
            (λ (a : Article). some (
              measured (
                add_text (some (txt ++ more_txt)) (word_at 60 (header_in hdr loc))
                  (word_at 64 (header_in hdr loc)) a)))
            (add_subs-append (header_article fallback (header_in hdr loc)))
          ∙ ap (λ (a : Article). some (measured a))
              (add_text-append (
                add_subs hdr loc (word_at 8 (header_in hdr loc))
                  (header_article fallback (header_in hdr loc)))))
