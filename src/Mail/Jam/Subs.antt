-- ===== src/Mail/Jam/Subs.antt =====
-- internal/mail/jam.go and jam_rw.go: the subfields that `AppendMsg` stores, as `parseJamSubs`
-- reads them.
use ele_bbs_go.Base.{
  ℕ, zero, suc, ◌+◌, ◌*◌, ◌/◌, ◌%◌, ◌≤◌, ◌<◌, ◌≡◌, refl, sym, ap, ◌∙◌, false, ◌||◌, [], ◌∷◌, ◌++◌,
  inl, inr, arith, Bytes, ltb, if◌then◌else◌, length, take, drop, length-append, length-drop,
  take-append, drop-append, append-nil, Bool-cases, ltb_false→le, le→ltb_false,
}
use ele_bbs_go.Mail.Jam.Store.{header_article}
use ele_bbs_go.Base.Files.{u32_of}
use ele_bbs_go.Base.Space.{trim_space}
use ele_bbs_go.Pascal.Text.{trim_right, is_nul}
use ele_bbs_go.Mail.Jam.Message.{
  Article, u16_of, jam_sub, put_sub, parse_subs_loop, parse_subs, sub_if, header_subs,
}

-- The rounds are enough: each takes eight bytes at least.
pub parse_subs_loop_enough :
    (f g : ℕ) (buf : Bytes) (a : Article)
    → length buf ≤ f
    → length buf ≤ g
    → parse_subs_loop f buf a ≡ parse_subs_loop g buf a
unfolding parse_subs_loop
parse_subs_loop_enough zero zero buf a h k = refl
parse_subs_loop_enough zero (suc g) [] a h k = refl
parse_subs_loop_enough zero (suc g) (c ∷ buf) a h k = absurd (omega (arith, h))
parse_subs_loop_enough (suc f) zero [] a h k = refl
parse_subs_loop_enough (suc f) zero (c ∷ buf) a h k = absurd (omega (arith, k))
parse_subs_loop_enough (suc f) (suc g) buf a h k = elim (Bool-cases (ltb (length buf) 8)) [
  | inl e ↦ rw e
  | inr e ↦ rw e (
      ap
        (λ (t : Article).
          if ltb 4000 (u32_of (drop 4 buf)) || ltb (length (drop 8 buf)) (u32_of (drop 4 buf))
          then a
          else t)
        (parse_subs_loop_enough f g _ _ (shorter f h e) (shorter g k e)))
]
  where
    shorter :
        (n : ℕ)
        → length buf ≤ suc n
        → ltb (length buf) 8 ≡ false
        → length (drop (u32_of (drop 4 buf)) (drop 8 buf)) ≤ n
    shorter n l e = omega (
      arith,
      ltb_false→le (length buf) 8 e,
      length-drop 8 buf,
      length-drop (u32_of (drop 4 buf)) (drop 8 buf),
    )

-- One round that does not end the loop.
parse_round :
    (f : ℕ) (buf : Bytes) (a : Article)
    → 8 ≤ length buf
    → u32_of (drop 4 buf) ≤ 4000
    → u32_of (drop 4 buf) ≤ length (drop 8 buf)
    → parse_subs_loop (suc f) buf a
      ≡ parse_subs_loop f
          (drop (u32_of (drop 4 buf)) (drop 8 buf))
          (put_sub (u16_of buf) (trim_right is_nul (take (u32_of (drop 4 buf)) (drop 8 buf))) a)
unfolding parse_subs_loop
parse_round f buf a long small inside = rw (
  le→ltb_false (length buf) 8 long,
  le→ltb_false 4000 (u32_of (drop 4 buf)) small,
  le→ltb_false (length (drop 8 buf)) (u32_of (drop 4 buf)) inside,
)

-- A subfield in front is taken off.
pub parse_subs-jam_sub :
    (loid : ℕ) (s rest : Bytes) (a : Article)
    → loid < 65536
    → length s ≤ 4000
    → parse_subs (jam_sub loid s ++ rest) a ≡ parse_subs rest (put_sub loid (trim_right is_nul s) a)
unfolding parse_subs jam_sub
parse_subs-jam_sub loid s rest a small short =
    parse_round (suc (suc (suc (suc (suc (suc (suc (length (s ++ rest)))))))))
      (jam_sub loid s ++ rest) a (omega arith) (omega (arith, size))
      (omega (arith, size, length-append s rest))
    ∙ rw (size, id, take-append (length s) s rest refl, drop-append (length s) s rest refl)
        (parse_subs_loop_enough (suc (suc (suc (suc (suc (suc (suc (length (s ++ rest)))))))))
          (length rest) rest (put_sub loid (trim_right is_nul s) a)
          (omega (arith, length-append s rest)) (omega arith))
  where
    size :
        length s % 256
          + length s / 256 % 256 * 256
          + length s / 65536 % 256 * 65536
          + length s / 16777216 % 256 * 16777216
        ≡ length s
    size = omega (arith, short)

    id : loid % 256 + loid / 256 % 256 * 256 ≡ loid
    id = omega (arith, small)

-- The fields that are read back as they were: no NUL at their ends, no white space round addresses
-- and identifiers, and not too long.
pub record FitsSubs (a : Article) : Type 0 where
  pub short : length (header_subs a) ≤ 4000
  pub from : trim_right is_nul a.from ≡ a.from
  pub to : trim_right is_nul a.to ≡ a.to
  pub subject : trim_right is_nul a.subject ≡ a.subject
  pub orig : trim_space (trim_right is_nul a.orig) ≡ a.orig
  pub dest : trim_space (trim_right is_nul a.dest) ≡ a.dest
  pub msg_id : trim_space (trim_right is_nul a.msg_id) ≡ a.msg_id
  pub reply_id : trim_space (trim_right is_nul a.reply_id) ≡ a.reply_id

parse_subs-sub_if :
    (loid : ℕ) (s rest : Bytes) (a : Article)
    → loid < 65536
    → length s ≤ 4000
    → put_sub loid (trim_right is_nul []) a ≡ a
    → parse_subs (sub_if loid s ++ rest) a ≡ parse_subs rest (put_sub loid (trim_right is_nul s) a)
unfolding sub_if
parse_subs-sub_if loid [] rest a small short same = ap (parse_subs rest) (sym same)
parse_subs-sub_if loid (c ∷ s) rest a small short same =
    parse_subs-jam_sub loid (c ∷ s) rest a small short

length-jam_sub : (loid : ℕ) (s : Bytes) → length (jam_sub loid s) ≡ 8 + length s
unfolding jam_sub
length-jam_sub loid s = omega arith

length-sub_if : (loid : ℕ) (s : Bytes) → length s ≤ length (sub_if loid s)
unfolding sub_if
length-sub_if loid [] = omega arith
length-sub_if loid (c ∷ s) = omega (arith, length-jam_sub loid (c ∷ s))

-- No field is longer than all of them.
abbrev Short : Article → Type 0
Short a =
    (length a.from ≤ 4000)
    × (length a.to ≤ 4000)
    × (length a.subject ≤ 4000)
    × (length a.orig ≤ 4000)
    × (length a.dest ≤ 4000)
    × (length a.msg_id ≤ 4000)
    × (length a.reply_id ≤ 4000)

shorts : (a : Article) → length (header_subs a) ≤ 4000 → Short a
unfolding header_subs
shorts a h =
    let s5 = sub_if 5 a.reply_id in
    let s4 = sub_if 4 a.msg_id ++ s5 in
    let s1 = sub_if 1 a.dest ++ s4 in
    let s0 = sub_if 0 a.orig ++ s1 in
    let s6 = jam_sub 6 a.subject ++ s0 in
    let s3 = jam_sub 3 a.to ++ s6 in
    omega (
      arith,
      h,
      length-append (jam_sub 2 a.from) s3,
      length-append (jam_sub 3 a.to) s6,
      length-append (jam_sub 6 a.subject) s0,
      length-append (sub_if 0 a.orig) s1,
      length-append (sub_if 1 a.dest) s4,
      length-append (sub_if 4 a.msg_id) s5,
      length-jam_sub 2 a.from,
      length-jam_sub 3 a.to,
      length-jam_sub 6 a.subject,
      length-sub_if 0 a.orig,
      length-sub_if 1 a.dest,
      length-sub_if 4 a.msg_id,
      length-sub_if 5 a.reply_id,
    )

-- What the subfields make of an article whose fields they are to fill.
abbrev pub with_subs : Article → Article → Article
with_subs a b = record b {
  from = a.from;
  to = a.to;
  subject = a.subject;
  orig = a.orig;
  dest = a.dest;
  msg_id = a.msg_id;
  reply_id = a.reply_id;
}

abbrev trimmed : Article → Article → Article
trimmed a b = record b {
  from = trim_right is_nul a.from;
  to = trim_right is_nul a.to;
  subject = trim_right is_nul a.subject;
  orig = trim_space (trim_right is_nul a.orig);
  dest = trim_space (trim_right is_nul a.dest);
  msg_id = trim_space (trim_right is_nul a.msg_id);
  reply_id = trim_space (trim_right is_nul a.reply_id);
}

trimmed_lem : (a b : Article) → FitsSubs a → trimmed a b ≡ with_subs a b
trimmed_lem a b fits = λ i. record b {
  from = fits.from i;
  to = fits.to i;
  subject = fits.subject i;
  orig = fits.orig i;
  dest = fits.dest i;
  msg_id = fits.msg_id i;
  reply_id = fits.reply_id i;
}

parse_subs-nil : (b : Article) → parse_subs [] b ≡ b
unfolding parse_subs parse_subs_loop
parse_subs-nil b = refl

parse_subs-sub_if_last :
    (loid : ℕ) (s : Bytes) (a : Article)
    → loid < 65536
    → length s ≤ 4000
    → put_sub loid (trim_right is_nul []) a ≡ a
    → parse_subs (sub_if loid s) a ≡ put_sub loid (trim_right is_nul s) a
parse_subs-sub_if_last loid s a small short same =
    ap (λ (t : Bytes). parse_subs t a) (sym (append-nil (sub_if loid s)))
    ∙ parse_subs-sub_if loid s [] a small short same
    ∙ parse_subs-nil (put_sub loid (trim_right is_nul s) a)

pub parse_subs-header_subs :
    (a : Article) (fallback : ℕ) (h : Bytes)
    → FitsSubs a
    → parse_subs (header_subs a) (header_article fallback h)
      ≡ with_subs a (header_article fallback h)
unfolding header_subs header_article put_sub trim_space trim_right
parse_subs-header_subs a fallback h fits =
    let (f, t, s, o, d, m, r) = shorts a fits.short in
    parse_subs-jam_sub 2 a.from _ _ (omega arith) f
    ∙ parse_subs-jam_sub 3 a.to _ _ (omega arith) t
    ∙ parse_subs-jam_sub 6 a.subject _ _ (omega arith) s
    ∙ parse_subs-sub_if 0 a.orig _ _ (omega arith) o refl
    ∙ parse_subs-sub_if 1 a.dest _ _ (omega arith) d refl
    ∙ parse_subs-sub_if 4 a.msg_id _ _ (omega arith) m refl
    ∙ parse_subs-sub_if_last 5 a.reply_id _ (omega arith) r refl
    ∙ trimmed_lem a (header_article fallback h) fits
