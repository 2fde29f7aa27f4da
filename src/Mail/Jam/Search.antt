-- ===== src/Mail/Jam/Search.antt =====
-- internal/mail/jam_rw.go: the search for a message goes through all slots in their order.
use ele_bbs_go.Base.{
  ℕ, zero, suc, ◌+◌, ◌-◌, ◌*◌, ◌≤◌, ◌<◌, ◌≡◌, refl, sym, ap, ap₂, ◌∙◌, inl, inr, Option, none, some,
  arith, ltb, min, Bool-cases, Option-cases, ==_iff, ◌==◌, ltb→lt, ltb_false→le,
}
use ele_bbs_go.Mail.Jam.Store.{or_else, find_chunk, find_chunks}

or_else_assoc : (a b c : Option (ℕ × ℕ)) → or_else (or_else a b) c ≡ or_else a (or_else b c)
or_else_assoc none b c = refl
or_else_assoc (some r) b c = refl

pub or_else-none : (a : Option (ℕ × ℕ)) → or_else a none ≡ a
or_else-none none = refl
or_else-none (some r) = refl

module _ (match : ℕ → Option (ℕ × ℕ)) where
  pub find_chunk-add :
      (a b s : ℕ)
      → find_chunk match (a + b) s ≡ or_else (find_chunk match a s) (find_chunk match b (s + a))
  unfolding find_chunk
  find_chunk-add zero b s =
      let e : 0 + b ≡ b = omega arith in let f : s + 0 ≡ s = omega arith in rw (e, f)
  find_chunk-add (suc a) b s =
      let e : suc a + b ≡ suc (a + b) = omega arith in
      let f : s + suc a ≡ s + 1 + a = omega arith in
      rw (e, f)
        (ap (or_else (match s)) (find_chunk-add a b (s + 1))
          ∙ sym (
              or_else_assoc (match s) (find_chunk match a (s + 1))
                (find_chunk match b (s + 1 + a))))

  -- The first chunk and what is behind it.
  chunk_split :
      (s n : ℕ)
      → or_else (find_chunk match (min 512 (n - s)) s) (find_chunk match (n - (s + 512)) (s + 512))
        ≡ find_chunk match (n - s) s
  chunk_split s n = elim (Bool-cases (ltb (n - s) 512)) [
    | inl e ↦
        let small = ltb→lt (n - s) 512 e in
        let a : min 512 (n - s) ≡ n - s = omega (arith, small) in
        let b : n - (s + 512) ≡ 0 = omega (arith, small) in
        rw (a, b) (unfold find_chunk in or_else-none (find_chunk match (n - s) s))
    | inr e ↦
        let large = ltb_false→le (n - s) 512 e in
        let a : min 512 (n - s) ≡ 512 = omega (arith, large) in
        let b : n - s ≡ 512 + (n - (s + 512)) = omega (arith, large) in
        rw a (
          sym (find_chunk-add 512 (n - (s + 512)) s) ∙ ap (λ (k : ℕ). find_chunk match k s) (sym b))
  ]

  -- In chunks or one by one is the same, and the rounds are enough.
  pub find_chunks-eq :
      (fuel s n : ℕ) → n ≤ s + fuel * 512 → find_chunks match fuel s n ≡ find_chunk match (n - s) s
  unfolding find_chunks
  find_chunks-eq zero s n h =
      let e : n - s ≡ 0 = omega (arith, h) in rw e (unfold find_chunk in refl)
  find_chunks-eq (suc fuel) s n h = elim (Bool-cases (ltb s n)) [
    | inl e ↦ rw e (
        ap (or_else (find_chunk match (min 512 (n - s)) s))
          (find_chunks-eq fuel (s + 512) n (omega (arith, h)))
        ∙ chunk_split s n)
    | inr e ↦
        let none_left : n - s ≡ 0 = omega (arith, ltb_false→le s n e) in
        rw (e, none_left) (unfold find_chunk in refl)
  ]

  pub find_chunks_all :
      (fuel n : ℕ) → n ≤ fuel * 512 → find_chunks match fuel 0 n ≡ find_chunk match n 0
  find_chunks_all fuel n h =
      let e : n - 0 ≡ n = omega arith in
      find_chunks-eq fuel 0 n (omega (arith, h)) ∙ ap (λ (k : ℕ). find_chunk match k 0) e

  pub find_chunks_empty : (n : ℕ) → n ≡ 0 → find_chunks match n 0 n ≡ none
  find_chunks_empty n e =
      find_chunks_all n n (omega arith)
      ∙ ap (λ (k : ℕ). find_chunk match k 0) e
      ∙ (unfold find_chunk in refl)

  -- What is found, a slot has; where nothing is found, no slot has it.
  pub find_chunk-some :
      (n s : ℕ) (r : ℕ × ℕ)
      → find_chunk match n s ≡ some r
      → (i : ℕ) × (s ≤ i) × (i < s + n) × (match i ≡ some r)
  unfolding find_chunk
  find_chunk-some zero s r h = absurd cc
  find_chunk-some (suc n) s r h = elim (Option-cases (match s)) [
    | inl e ↦
        let (i, p, q, m) = find_chunk-some n (s + 1) r (rw e at h) in
        (i, omega (arith, p), omega (arith, q), m)
    | inr (a, e) ↦ (s, omega arith, omega arith, e ∙ (rw e at h))
  ]

  pub find_chunk-none :
      (n s : ℕ) → find_chunk match n s ≡ none → (i : ℕ) → s ≤ i → i < s + n → match i ≡ none
  unfolding find_chunk
  find_chunk-none zero s h i p q = absurd (omega (arith, p, q))
  find_chunk-none (suc n) s h i p q = elim (Option-cases (match s)) [
    | inl e ↦ elim (Bool-cases (s == i)) [
      | inl same ↦ ap match (sym ((==_iff s i).0 same)) ∙ e
      | inr differ ↦ find_chunk-none n (s + 1) (rw e at h) i (ground (arith, p)) (omega (arith, q))
    ]
    | inr (a, e) ↦ absurd (no a (rw e at h))
  ]
    where
      no : (a : ℕ × ℕ) → some a ≡ none → ⊥
      no a q = cc

-- Two searches that agree at each slot find the same.
pub find_chunk-agree :
    (m k : ℕ → Option (ℕ × ℕ)) (n s : ℕ)
    → ((i : ℕ) → s ≤ i → i < s + n → m i ≡ k i)
    → find_chunk m n s ≡ find_chunk k n s
unfolding find_chunk
find_chunk-agree m k zero s h = refl
find_chunk-agree m k (suc n) s h =
    ap₂ or_else (h s (omega arith) (omega arith))
      (find_chunk-agree m k n (s + 1) (λ i p q. h i (omega (arith, p)) (omega (arith, q))))
