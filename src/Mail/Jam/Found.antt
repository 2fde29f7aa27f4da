-- ===== src/Mail/Jam/Found.antt =====
-- internal/mail/jam_rw.go, `jamFindMsg`: what is found, and when.
use ele_bbs_go.Base.{
  ℕ, ◌+◌, ◌-◌, ◌≤◌, ◌<◌, ◌≡◌, refl, sym, ap, ◌∙◌, ◌⊎◌, inl, inr, ◌||◌, Option, none, some, arith,
  Bytes, ltb, leb, ◌==◌, if◌then◌else◌, Bool-cases, Option-cases, ==_iff, ==_refl, le→ltb_false,
  leb_false→lt, lt→leb_false,
}
use ele_bbs_go.Mail.Jam.Store.{
  or_else, slot_loc, header_at, num_or, numbered, located, match_at, find_chunk, find_chunks,
  jam_find_msg,
}
use ele_bbs_go.Mail.Jam.Search.{find_chunks_all, find_chunk-some, find_chunk-none}

-- A slot of the index that leads to a message with the number.
pub record HasMessage (idx hdr : Bytes) (base_num num n loc fallback : ℕ) : Type 0 where
  pub slot : ℕ
  pub below : slot < n
  pub header : Bytes
  pub leads : slot_loc idx slot ≡ some loc
  pub shows : header_at hdr loc ≡ some header
  pub counted : fallback ≡ base_num + slot
  pub number : num_or fallback header ≡ num

module _ (idx hdr : Bytes) (base_num num n : ℕ) where
  match_at-some :
      (slot loc fallback : ℕ)
      → match_at idx hdr base_num num n slot ≡ some (loc, fallback)
      → HasMessage idx hdr base_num num n loc fallback
  unfolding match_at
  match_at-some slot loc fallback e = elim (Bool-cases (leb n slot)) [
    | inl p ↦ absurd (no (rw p at e))
    | inr p ↦ by_loc (leb_false→lt n slot p) (slot_loc idx slot) refl (rw p at e)
  ]
    where
      no : ◌≡◌ {A = Option (ℕ × ℕ)} none (some (loc, fallback)) → ⊥
      no q = cc

      parts :
          {x y : ℕ}
          → ◌≡◌ {A = Option (ℕ × ℕ)} (some (x, y)) (some (loc, fallback))
          → (x ≡ loc) × (y ≡ fallback)
      parts q = (cc, cc)

      by_header :
          (off : ℕ) (h : Option Bytes)
          → slot < n
          → slot_loc idx slot ≡ some off
          → header_at hdr off ≡ h
          → numbered num (base_num + slot) off h ≡ some (loc, fallback)
          → HasMessage idx hdr base_num num n loc fallback
      by_header off none b l s q = absurd (no q)
      by_header off (some h) b l s q = elim (Bool-cases (num_or (base_num + slot) h == num)) [
        | inl t ↦
            let (o, f) = parts (rw t at q) in
            record {
              slot = slot;
              below = b;
              header = h;
              leads = l ∙ ap some o;
              shows = ap (header_at hdr) (sym o) ∙ s;
              counted = sym f;
              number = ap (λ (k : ℕ). num_or k h) (sym f) ∙ (==_iff _ num).0 t;
            }
        | inr t ↦ absurd (no (rw t at q))
      ]

      by_loc :
          slot < n
          → (o : Option ℕ) → slot_loc idx slot ≡ o
          → located hdr num (base_num + slot) o ≡ some (loc, fallback)
          → HasMessage idx hdr base_num num n loc fallback
      by_loc b none l q = absurd (no q)
      by_loc b (some off) l q = by_header off (header_at hdr off) b l refl q

  or_else-cases :
      (a b : Option (ℕ × ℕ)) (r : ℕ × ℕ) → or_else a b ≡ some r → (a ≡ some r) ⊎ (b ≡ some r)
  or_else-cases none b r e = inr e
  or_else-cases (some s) b r e = inl e

  -- What is found is a message with the number.
  pub jam_find_msg-HasMessage :
      (loc fallback : ℕ)
      → jam_find_msg idx hdr base_num num n ≡ some (loc, fallback)
      → HasMessage idx hdr base_num num n loc fallback
  unfolding jam_find_msg
  jam_find_msg-HasMessage loc fallback e = elim (Bool-cases (ltb num 1 || leb n 0)) [
    | inl p ↦ absurd (no (rw p at e))
    | inr p ↦
        elim (or_else-cases
          (if ltb num base_num then none else match_at idx hdr base_num num n (num - base_num))
          (find_chunks (match_at idx hdr base_num num n) n 0 n) (loc, fallback) (rw p at e)) [
            | inl q ↦ elim (Bool-cases (ltb num base_num)) [
              | inl t ↦ absurd (no (rw t at q))
              | inr t ↦ match_at-some (num - base_num) loc fallback (rw t at q)
            ]
            | inr q ↦
                let (i, _, _, m) =
                  find_chunk-some (match_at idx hdr base_num num n) n 0 (loc, fallback)
                    (sym (find_chunks_all (match_at idx hdr base_num num n) n n (omega arith))
                      ∙ q) in
                match_at-some i loc fallback m
          ]
  ]
    where
      no : ◌≡◌ {A = Option (ℕ × ℕ)} none (some (loc, fallback)) → ⊥
      no q = cc

  match_at-HasMessage :
      (loc fallback : ℕ) (m : HasMessage idx hdr base_num num n loc fallback)
      → match_at idx hdr base_num num n m.slot ≡ some (loc, fallback)
  unfolding match_at
  match_at-HasMessage loc fallback m =
      rw (lt→leb_false n m.slot m.below, m.leads, m.shows, ← m.counted, m.number, ==_refl num)

  -- A message with the number is found, or another one with it before.
  pub jam_find_msg-total :
      (loc fallback : ℕ)
      → 1 ≤ num
      → HasMessage idx hdr base_num num n loc fallback
      → (r : ℕ × ℕ) × (jam_find_msg idx hdr base_num num n ≡ some r)
  unfolding jam_find_msg
  jam_find_msg-total loc fallback valid m =
      elim (Option-cases (jam_find_msg idx hdr base_num num n)) [
        | inr (r, e) ↦ (r, e)
        | inl e ↦ absurd (
            no (
              sym (
                find_chunk-none (match_at idx hdr base_num num n) n 0 (searched e) m.slot
                  (omega arith) (omega (arith, m.below)))
              ∙ match_at-HasMessage loc fallback m))
      ]
    where
      no : ◌≡◌ {A = Option (ℕ × ℕ)} none (some (loc, fallback)) → ⊥
      no q = cc

      right : (a b : Option (ℕ × ℕ)) → or_else a b ≡ none → b ≡ none
      right none b q = q
      right (some r) b q = absurd cc

      searched :
          jam_find_msg idx hdr base_num num n ≡ none
          → find_chunk (match_at idx hdr base_num num n) n 0 ≡ none
      searched e =
          sym (find_chunks_all (match_at idx hdr base_num num n) n n (omega arith))
          ∙ right
              (if ltb num base_num then none else match_at idx hdr base_num num n (num - base_num))
              (find_chunks (match_at idx hdr base_num num n) n 0 n)
              (rw (le→ltb_false num 1 valid, lt→leb_false n 0 (omega (arith, m.below))) at e)
