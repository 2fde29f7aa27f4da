-- ===== src/Mail/Jam/Lines.antt =====
-- internal/mail/jam.go and jam_rw.go: the text that `AppendMsg` stores, as `splitJamText` reads it.
use ele_bbs_go.Base.{
  ℕ, ◌≡◌, ◌≢◌, refl, sym, ap, ap₂, ◌∙◌, false, List, [], ◌∷◌, ◌++◌, inl, inr, arith, Bytes, ◌==◌,
  if◌then◌else◌, All, Bool-cases, ==_iff,
}
use ele_bbs_go.Mail.Wrap.{crlf_to_lf, cr_to_lf}
use ele_bbs_go.Mail.Jam.Message.{crlf_loop, strings_crlf, ends_with, ended, kludge_lines}

-- Text without carriage returns in which no line starts with ^A; the byte before it comes first.
abbrev pub IsPlain : ℕ → Bytes → Type 0
IsPlain prev [] = Unit {0}
IsPlain prev (c ∷ s) = (c ≢ 13) × (c ≡ 1 → prev ≢ 10) × IsPlain c s

-- A kludge is one line.
abbrev pub IsLine : Bytes → Type 0
IsLine k = All (λ c. (c ≢ 13) × (c ≢ 10)) k

abbrev pub norm : Bytes → Bytes
norm s = cr_to_lf (crlf_to_lf s)

abbrev first : Bytes → Bytes
first [] = []
first (c ∷ s) = c ∷ []

norm-cons : (c : ℕ) (s : Bytes) → c ≢ 13 → norm (c ∷ s) ≡ c ∷ norm s
unfolding crlf_to_lf cr_to_lf
norm-cons c [] h = ground arith
norm-cons c (d ∷ s) h = ground arith

norm_crlf : (s : Bytes) → norm (13 ∷ 10 ∷ s) ≡ 10 ∷ norm s
unfolding crlf_to_lf cr_to_lf
norm_crlf s = refl

-- A carriage return before another byte than a line feed.
norm_cr : (s : Bytes) → (All (λ c. c ≢ 10) (first s)) → norm (13 ∷ s) ≡ 10 ∷ norm s
unfolding crlf_to_lf cr_to_lf
norm_cr [] h = refl
norm_cr (d ∷ s) h = ground arith

-- The bytes that are stored read back as the text, with a line feed for each line end.
pub norm-crlf_loop :
    (prev : ℕ) (t rest : Bytes)
    → prev ≢ 13
    → IsPlain prev t
    → norm (crlf_loop prev t ++ rest) ≡ t ++ norm rest
unfolding crlf_loop
norm-crlf_loop prev [] rest h p = refl
norm-crlf_loop prev (c ∷ s) rest h p = elim (Bool-cases (c == 10)) [
  | inl e ↦
      let lf : c ≡ 10 = (==_iff c 10).0 e in
      rw e (
        rw not_cr
          (norm_crlf (crlf_loop c s ++ rest) ∙ ap₂ ◌∷◌ (sym lf) (norm-crlf_loop c s rest p.0 p.2)))
  | inr e ↦
      rw e (norm-cons c (crlf_loop c s ++ rest) p.0 ∙ ap (c ∷◌) (norm-crlf_loop c s rest p.0 p.2))
]
  where
    not_cr : (prev == 13) ≡ false
    not_cr = ground arith

-- The text that is read back: a last line that is not ended gets its line feed.
abbrev pub ended_lf : Bytes → Bytes
ended_lf [] = []
ended_lf (c ∷ s) = if ends_with 10 (c ∷ s) then c ∷ s else (c ∷ s) ++ 10 ∷ []

no_cr_end : (prev c : ℕ) (s : Bytes) → IsPlain prev (c ∷ s) → ends_with 13 (c ∷ s) ≡ false
no_cr_end prev c [] p = let h = p.0 in ground arith
no_cr_end prev c (d ∷ s) p = no_cr_end c d s p.2

crlf_loop_end :
    (prev p : ℕ) (s : Bytes)
    → prev ≢ 13
    → IsPlain p s
    → crlf_loop prev (s ++ 13 ∷ 10 ∷ []) ≡ crlf_loop prev (s ++ 10 ∷ [])
unfolding crlf_loop
crlf_loop_end prev p [] h plain = rw not_cr
  where
    not_cr : (prev == 13) ≡ false
    not_cr = ground arith
crlf_loop_end prev p (c ∷ s) h plain = rw (crlf_loop_end c c s plain.0 plain.2)

pub strings_crlf-ended :
    (body : Bytes) → IsPlain 10 body → strings_crlf (ended body) ≡ crlf_loop 0 (ended_lf body)
unfolding strings_crlf ended
strings_crlf-ended [] p = refl
strings_crlf-ended (c ∷ s) p = elim (Bool-cases (ends_with 10 (c ∷ s))) [
  | inl e ↦ rw e
  | inr e ↦
      rw (e, no_cr_end 10 c s p) (crlf_loop_end 0 10 (c ∷ s) (λ q. absurd (omega (arith, q))) p)
]

abbrev pub lf_lines : List Bytes → Bytes
lf_lines [] = []
lf_lines (k ∷ ks) = (1 ∷ k) ++ 10 ∷ lf_lines ks

norm_line :
    (k rest : Bytes)
    → IsLine k
    → All (λ c. c ≢ 10) (first rest)
    → norm (k ++ 13 ∷ rest) ≡ k ++ 10 ∷ norm rest
norm_line [] rest l h = norm_cr rest h
norm_line (c ∷ k) rest l h = norm-cons c (k ++ 13 ∷ rest) l.0.0 ∙ ap (c ∷◌) (norm_line k rest l.1 h)

pub norm-kludge_lines : (ks : List Bytes) → All IsLine ks → norm (kludge_lines ks) ≡ lf_lines ks
unfolding kludge_lines
norm-kludge_lines [] h = unfold crlf_to_lf cr_to_lf in refl
norm-kludge_lines (k ∷ ks) h =
    norm-cons 1 (k ++ 13 ∷ kludge_lines ks) (λ q. absurd (omega (arith, q)))
    ∙ ap (1 ∷◌) (norm_line k (kludge_lines ks) h.0 (starts ks))
    ∙ ap (λ (t : Bytes). (1 ∷ k) ++ 10 ∷ t) (norm-kludge_lines ks h.1)
  where
    starts : (ks : List Bytes) → All (λ c. c ≢ 10) (first (kludge_lines ks))
    starts [] = tt
    starts (k ∷ ks) = ((λ q. absurd (omega (arith, q))), tt)
