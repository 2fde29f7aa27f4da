-- ===== src/Mail/Jam/Kept.antt =====
-- internal/mail/jam.go: how `splitJamText` parts text and kludges.
use ele_bbs_go.Base.{
  ℕ, ◌≡◌, ◌≢◌, refl, sym, ap, ap₂, subst, ◌∙◌, true, false, List, [], ◌∷◌, ◌++◌, inl, inr, arith,
  Bytes, ◌==◌, if◌then◌else◌, All, append-nil, Bool-cases, ==_iff,
}
use ele_bbs_go.Base.Space.{split, cons_first}
use ele_bbs_go.Mail.Jam.Message.{sort_lines, join_lines, ends_with}
use ele_bbs_go.Mail.Jam.Lines.{IsPlain, IsLine, lf_lines, ended_lf}

abbrev head_line : List Bytes → Bytes
head_line [] = []
head_line (f ∷ fs) = f

abbrev tail_lines : List Bytes → List Bytes
tail_lines [] = []
tail_lines (f ∷ fs) = fs

abbrev pub Parts : Type 0
Parts = Bytes × List Bytes

-- What lines make, the first of them from its start, or from its inside, where it is no kludge.
abbrev pub start_parts : List Bytes → Parts
start_parts l = let r = sort_lines l in (join_lines r.0, r.1)

abbrev inside_parts : List Bytes → Parts
inside_parts l = let r = sort_lines (tail_lines l) in (join_lines (head_line l ∷ r.0), r.1)

abbrev and_byte : ℕ → Parts → Parts
and_byte c p = (c ∷ p.0, p.1)

join-cons :
    (c : ℕ) (f : Bytes) (fs : List Bytes) → join_lines ((c ∷ f) ∷ fs) ≡ c ∷ join_lines (f ∷ fs)
unfolding join_lines
join-cons c f [] = refl
join-cons c f (g ∷ fs) = refl

inside-cons_first :
    (c : ℕ) (l : List Bytes) → inside_parts (cons_first c l) ≡ and_byte c (inside_parts l)
inside-cons_first c [] =
    ap (λ (t : Bytes). (t, (sort_lines []).1)) (join-cons c [] (sort_lines []).0)
inside-cons_first c (f ∷ fs) =
    ap (λ (t : Bytes). (t, (sort_lines fs).1)) (join-cons c f (sort_lines fs).0)

-- A line that does not start with ^A is read as from its inside.
start-cons_first :
    (c : ℕ) (l : List Bytes) → c ≢ 1 → start_parts (cons_first c l) ≡ inside_parts (cons_first c l)
unfolding sort_lines
start-cons_first c [] h = let e : (c == 1) ≡ false = ground arith in rw e
start-cons_first c (f ∷ fs) h = let e : (c == 1) ≡ false = ground arith in rw e

start-nil : (l : List Bytes) → start_parts ([] ∷ l) ≡ inside_parts ([] ∷ l)
unfolding sort_lines
start-nil l = refl

abbrev HasLine : List Bytes → Type 0
HasLine l = (f : Bytes) × (fs : List Bytes) × ((sort_lines l).0 ≡ f ∷ fs)

inside-nil : (l : List Bytes) → HasLine l → inside_parts ([] ∷ l) ≡ and_byte 10 (start_parts l)
unfolding join_lines
inside-nil l (f, fs, e) = rw e

-- Whether the text goes on at the start of a line.
abbrev parts_at : ℕ → Bytes → Parts
parts_at prev s = if prev == 10 then start_parts (split 10 s) else inside_parts (split 10 s)

HasLine-append : (t u : Bytes) → IsPlain 10 t → HasLine (split 10 u) → HasLine (split 10 (t ++ u))
unfolding split sort_lines
HasLine-append [] u p h = h
HasLine-append (c ∷ s) u p h = elim (Bool-cases (c == 10)) [
  | inl e ↦ rw e ([], (sort_lines (split 10 (s ++ u))).0, refl)
  | inr e ↦ rw e (by_lines (split 10 (s ++ u)))
]
  where
    no_kludge : (c == 1) ≡ false
    no_kludge = let h = p.1 in ground (arith, h)

    by_lines : (l : List Bytes) → HasLine (cons_first c l)
    by_lines [] = rw no_kludge (c ∷ [], [], refl)
    by_lines (f ∷ fs) = rw no_kludge (c ∷ f, (sort_lines fs).0, refl)

abbrev last_byte : ℕ → Bytes → ℕ
last_byte prev [] = prev
last_byte prev (c ∷ s) = last_byte c s

-- Plain text that ends with a line feed is kept, whatever follows.
parts_at-append :
    (prev : ℕ) (t u : Bytes)
    → IsPlain prev t
    → last_byte prev t ≡ 10
    → HasLine (split 10 u)
    → parts_at prev (t ++ u) ≡ (t ++ (start_parts (split 10 u)).0, (start_parts (split 10 u)).1)
unfolding split
parts_at-append prev [] u p l h = rw l
parts_at-append prev (c ∷ s) u p l h = elim (Bool-cases (c == 10)) [
  | inl e ↦
      let lf : c ≡ 10 = (==_iff c 10).0 e in
      let ih = rw e at (parts_at-append c s u p.2 l h) in
      rw e (
        same ([] ∷ split 10 (s ++ u)) (λ _. start-nil (split 10 (s ++ u)))
        ∙ inside-nil (split 10 (s ++ u)) (HasLine-append s u (plain_at lf) h)
        ∙ ap₂ and_byte (sym lf) ih)
  | inr e ↦
      let ih = rw e at (parts_at-append c s u p.2 l h) in
      rw e (
        same (cons_first c (split 10 (s ++ u)))
          (λ start. start-cons_first c (split 10 (s ++ u)) (λ q. p.1 q start))
        ∙ inside-cons_first c (split 10 (s ++ u))
        ∙ ap (and_byte c) ih)
]
  where
    plain_at : c ≡ 10 → IsPlain 10 s
    plain_at lf = subst (λ k. IsPlain k s) lf p.2

    same :
        (l : List Bytes)
        → (prev ≡ 10 → start_parts l ≡ inside_parts l)
        → (if prev == 10 then start_parts l else inside_parts l) ≡ inside_parts l
    same l eq = elim (Bool-cases (prev == 10)) [
      | inl b ↦ rw b (eq ((==_iff prev 10).0 b))
      | inr b ↦ rw b
    ]

split_line : (k rest : Bytes) → IsLine k → split 10 (k ++ 10 ∷ rest) ≡ k ∷ split 10 rest
unfolding split
split_line [] rest h = refl
split_line (c ∷ k) rest h =
    let e : (c == 10) ≡ false = let q = h.0.1 in ground (arith, q) in rw (e, split_line k rest h.1)

sort-kludges :
    (ks : List Bytes) → All IsLine ks → sort_lines (split 10 (lf_lines ks)) ≡ ([] ∷ [], ks)
unfolding sort_lines split
sort-kludges [] h = refl
sort-kludges (k ∷ ks) h = rw (split_line k (lf_lines ks) h.0, sort-kludges ks h.1)

ended_lf-IsPlain : (prev : ℕ) (s : Bytes) → IsPlain prev s → IsPlain prev (s ++ 10 ∷ [])
ended_lf-IsPlain prev [] p =
    ((λ q. absurd (omega (arith, q))), (λ q. absurd (omega (arith, q))), tt)
ended_lf-IsPlain prev (c ∷ s) p = (p.0, p.1, ended_lf-IsPlain c s p.2)

last_byte-append : (prev : ℕ) (s : Bytes) (c : ℕ) → last_byte prev (s ++ c ∷ []) ≡ c
last_byte-append prev [] c = refl
last_byte-append prev (d ∷ s) c = last_byte-append d s c

ends-last_byte :
    (prev c : ℕ) (s : Bytes) → ends_with 10 (c ∷ s) ≡ true → last_byte prev (c ∷ s) ≡ 10
ends-last_byte prev c [] h = (==_iff c 10).0 h
ends-last_byte prev c (d ∷ s) h = ends-last_byte c d s h

pub ended_lf-last :
    (body : Bytes)
    → IsPlain 10 body
    → IsPlain 10 (ended_lf body) × (last_byte 10 (ended_lf body) ≡ 10)
ended_lf-last [] p = (tt, refl)
ended_lf-last (c ∷ s) p = elim (Bool-cases (ends_with 10 (c ∷ s))) [
  | inl e ↦ rw e (p, ends-last_byte 10 c s e)
  | inr e ↦ rw e (ended_lf-IsPlain 10 (c ∷ s) p, last_byte-append 10 (c ∷ s) 10)
]

-- Text and kludges are parted as they were put together.
pub sort-text :
    (body : Bytes) (ks : List Bytes)
    → IsPlain 10 body
    → All IsLine ks
    → start_parts (split 10 (ended_lf body ++ lf_lines ks)) ≡ (ended_lf body, ks)
unfolding join_lines
sort-text body ks p h =
    let (plain, ends) = ended_lf-last body p in
    parts_at-append 10 (ended_lf body) (lf_lines ks) plain ends has_line
    ∙ rw (sort-kludges ks h) (ap (λ (t : Bytes). (t, ks)) (append-nil (ended_lf body)))
  where
    has_line : HasLine (split 10 (lf_lines ks))
    has_line = rw (sort-kludges ks h) ([], [], refl)
