-- ===== src/Mail/Wrap/Letters.antt =====
-- Wrapping loses nothing but blanks and line ends.
use ele_bbs_go.Base.{
  ℕ, zero, suc, ◌≡◌, refl, sym, ap, ap₂, ◌∙◌, inl, inr, Bool, true, ◌||◌, List, [], ◌∷◌, ◌++◌,
  Option, none, some, append_assoc, append-nil, arith, Bytes, ltb, ◌==◌, if◌then◌else◌, length,
  take, drop, take-append-drop, Bool-cases,
}
use ele_bbs_go.Base.Int.{ℤ}
use ele_bbs_go.Base.Space.{split, cons_first}
use ele_bbs_go.Mail.Wrap.{
  Run, skip_space, flush, flush_full, append_byte, wrap_byte, wrap_bytes, last_line, wrap_run,
  wrap_all, crlf_to_lf, cr_to_lf, width, wrap_lines,
}

-- A space, NUL, line end or soft carriage return.
abbrev pub is_blank : ℕ → Bool
is_blank c = c == 32 || c == 0x8d || c == 0 || c == 10 || c == 13

unfoldable pub letters : Bytes → Bytes
letters [] = []
letters (c ∷ s) = let rest = letters s in if is_blank c then rest else c ∷ rest

unfoldable pub all_letters : List Bytes → Bytes
unfolding letters
all_letters [] = []
all_letters (l ∷ ls) = letters l ++ all_letters ls

letters-append : (s t : Bytes) → letters (s ++ t) ≡ letters s ++ letters t
unfolding letters
letters-append [] t = refl
letters-append (c ∷ s) t = elim (Bool-cases (is_blank c)) [
  | inl e ↦ rw (e, letters) (letters-append s t)
  | inr e ↦ rw (e, letters) (ap (◌∷◌ c) (letters-append s t))
]

all_letters-append : (x y : List Bytes) → all_letters (x ++ y) ≡ all_letters x ++ all_letters y
unfolding all_letters
all_letters-append [] y = refl
all_letters-append (l ∷ x) y =
    ap (λ (t : Bytes). letters l ++ t) (all_letters-append x y)
    ∙ sym (append_assoc (letters l) (all_letters x) (all_letters y))

-- The letters of the lines made so far and of the current line.
pub held : Run → Bytes
held r = all_letters r.out ++ letters r.cur

letters-skip_space : (s : Bytes) → letters (skip_space s) ≡ letters s
unfolding skip_space letters
letters-skip_space [] = refl
letters-skip_space (b ∷ s) = ground arith

all_letters_one : (l : Bytes) → all_letters (l ∷ []) ≡ letters l
unfolding all_letters
all_letters_one l = append-nil (letters l)

held-flush : (cut : ℕ) (r : Run) → held (flush cut r) ≡ held r
unfolding held flush
held-flush cut r =
    ap (λ (t : Bytes). t ++ letters (skip_space (drop cut r.cur)))
      (all_letters-append r.out (take cut r.cur ∷ [])
        ∙ ap (λ (t : Bytes). all_letters r.out ++ t) (all_letters_one (take cut r.cur)))
    ∙ append_assoc (all_letters r.out) (letters (take cut r.cur)) _
    ∙ ap (λ (t : Bytes). all_letters r.out ++ t)
        (ap (λ (t : Bytes). letters (take cut r.cur) ++ t) (letters-skip_space (drop cut r.cur))
          ∙ sym (letters-append (take cut r.cur) (drop cut r.cur))
          ∙ ap letters (take-append-drop cut r.cur))

held-flush_full : (space : Option ℕ) (r : Run) → held (flush_full space r) ≡ held r
held-flush_full none r = held-flush (length r.cur) r
held-flush_full (some zero) r = held-flush (length r.cur) r
held-flush_full (some (suc n)) r = held-flush (suc n) r

held-cur :
    (out : List Bytes) (cur : Bytes) (ch : ℕ) (space : Option ℕ)
    → held (record { out = out; cur = cur ++ ch ∷ []; last_space = space })
      ≡ (all_letters out ++ letters cur) ++ letters (ch ∷ [])
unfolding held
held-cur out cur ch space =
    ap (λ (t : Bytes). all_letters out ++ t) (letters-append cur (ch ∷ []))
    ∙ sym (append_assoc (all_letters out) (letters cur) (letters (ch ∷ [])))

held-append_byte : (n ch : ℕ) (r : Run) → held (append_byte n ch r) ≡ held r ++ letters (ch ∷ [])
unfolding append_byte
held-append_byte n ch r = elim (Bool-cases (ltb (length (r.cur ++ ch ∷ [])) n)) [
  | inl e ↦ rw e (whole)
  | inr e ↦ rw e (held-flush_full space grown ∙ whole)
]
  where
    space : Option ℕ
    space = if ch == b' ' then some (length r.cur) else r.last_space

    grown : Run
    grown = record { out = r.out; cur = r.cur ++ ch ∷ []; last_space = space }

    whole : held grown ≡ held r ++ letters (ch ∷ [])
    whole = held-cur r.out r.cur ch space ∙ (unfold held in refl)

letter_of_blank : (ch : ℕ) → is_blank ch ≡ true → letters (ch ∷ []) ≡ []
unfolding letters
letter_of_blank ch e = rw (e, letters) refl

held-wrap_byte : (n ch : ℕ) (r : Run) → held (wrap_byte n ch r) ≡ held r ++ letters (ch ∷ [])
unfolding wrap_byte
held-wrap_byte n ch r = elim (Bool-cases (ch == 0x8d || ch == 0)) [
  | inl e ↦ rw e (dropped (ground arith))
  | inr e ↦ rw e (elim (Bool-cases (ch == b'\n')) [
    | inl f ↦ rw f (held-flush (length r.cur) r ∙ dropped (ground arith))
    | inr f ↦ rw f (held-append_byte n ch r)
  ])
]
  where
    dropped : is_blank ch ≡ true → held r ≡ held r ++ letters (ch ∷ [])
    dropped b =
        sym (append-nil (held r)) ∙ ap (λ (t : Bytes). held r ++ t) (sym (letter_of_blank ch b))

letters-cons : (ch : ℕ) (s : Bytes) → letters (ch ∷ []) ++ letters s ≡ letters (ch ∷ s)
letters-cons ch s = sym (letters-append (ch ∷ []) s)

held-wrap_bytes : (n : ℕ) (s : Bytes) (r : Run) → held (wrap_bytes n s r) ≡ held r ++ letters s
unfolding wrap_bytes
held-wrap_bytes n [] r = sym (append-nil (held r)) ∙ (unfold letters in refl)
held-wrap_bytes n (ch ∷ s) r =
    held-wrap_bytes n s (wrap_byte n ch r)
    ∙ ap (λ (t : Bytes). t ++ letters s) (held-wrap_byte n ch r)
    ∙ append_assoc (held r) (letters (ch ∷ [])) (letters s)
    ∙ ap (λ (t : Bytes). held r ++ t) (letters-cons ch s)

last_line-letters :
    (r : Run) (cur : Bytes) (out : List Bytes)
    → r.cur ≡ cur
    → r.out ≡ out
    → all_letters (last_line r cur out) ≡ held r
unfolding held
last_line-letters r [] [] c o = rw o (all_letters_one r.cur ∙ (unfold all_letters in refl))
last_line-letters r [] (l ∷ out) c o =
    rw (o, c) (sym (append-nil (all_letters (l ∷ out))) ∙ (unfold letters in refl))
last_line-letters r (b ∷ cur) out c o = rw o (
    all_letters-append out (r.cur ∷ [])
    ∙ ap (λ (t : Bytes). all_letters out ++ t) (all_letters_one r.cur))

wrap_run-letters : (n : ℕ) (s : Bytes) → all_letters (wrap_run n s) ≡ letters s
unfolding wrap_run
wrap_run-letters n [] = unfold all_letters letters in refl
wrap_run-letters n (ch ∷ s) =
    let fresh : Run = record { out = []; cur = []; last_space = none } in
    let r = wrap_bytes n (ch ∷ s) fresh in
    last_line-letters r r.cur r.out refl refl
    ∙ held-wrap_bytes n (ch ∷ s) fresh
    ∙ (unfold held all_letters letters in refl)

wrap_all-letters : (n : ℕ) (paras : List Bytes) → all_letters (wrap_all n paras) ≡ all_letters paras
unfolding wrap_all
wrap_all-letters n [] = refl
wrap_all-letters n (para ∷ paras) =
    all_letters-append (wrap_run n para) (wrap_all n paras)
    ∙ ap₂ (λ (x y : Bytes). x ++ y) (wrap_run-letters n para) (wrap_all-letters n paras)
    ∙ (unfold all_letters in refl)

all_letters-cons_first :
    (c : ℕ) (fs : List Bytes) → all_letters (cons_first c fs) ≡ letters (c ∷ []) ++ all_letters fs
unfolding all_letters
all_letters-cons_first c [] = refl
all_letters-cons_first c (f ∷ fs) =
    ap (λ (t : Bytes). t ++ all_letters fs) (letters-append (c ∷ []) f)
    ∙ append_assoc (letters (c ∷ [])) (letters f) (all_letters fs)

all_letters-nil : (fs : List Bytes) → all_letters ([] ∷ fs) ≡ all_letters fs
unfolding all_letters letters
all_letters-nil fs = refl

all_letters-split : (s : Bytes) → all_letters (split b'\n' s) ≡ letters s
unfolding split
all_letters-split [] = unfold all_letters letters in refl
all_letters-split (c ∷ s) = elim (Bool-cases (c == b'\n')) [
  | inl e ↦ rw e (
      all_letters-nil (split b'\n' s)
      ∙ all_letters-split s
      ∙ ap (λ (t : Bytes). t ++ letters s) (sym (letter_of_blank c (ground arith)))
      ∙ letters-cons c s)
  | inr e ↦ rw e (
      all_letters-cons_first c (split b'\n' s)
      ∙ ap (λ (t : Bytes). letters (c ∷ []) ++ t) (all_letters-split s)
      ∙ letters-cons c s)
]

letters-cr_to_lf : (s : Bytes) → letters (cr_to_lf s) ≡ letters s
unfolding cr_to_lf letters
letters-cr_to_lf [] = refl
letters-cr_to_lf (a ∷ s) = ground (arith, letters-cr_to_lf s)

letters-crlf_to_lf : (s : Bytes) → letters (crlf_to_lf s) ≡ letters s
unfolding crlf_to_lf letters
letters-crlf_to_lf [] = refl
letters-crlf_to_lf (a ∷ []) = refl
letters-crlf_to_lf (a ∷ b ∷ s) = ground (arith, letters-crlf_to_lf s, letters-crlf_to_lf (b ∷ s))

-- All the letters of the text stand in the lines, in order: wrapping drops spaces, NULs, line ends
-- and soft carriage returns, and nothing else.
pub wrap_lines-letters :
    (text : Bytes) (max_len : ℤ) → all_letters (wrap_lines text max_len) ≡ letters text
unfolding wrap_lines
wrap_lines-letters text max_len =
    wrap_all-letters (width max_len) (split b'\n' (cr_to_lf (crlf_to_lf text)))
    ∙ all_letters-split (cr_to_lf (crlf_to_lf text))
    ∙ letters-cr_to_lf (crlf_to_lf text)
    ∙ letters-crlf_to_lf text
