-- ===== src/Online/Presence/Listing.antt =====
-- internal/online/useron.go, `ReadAll` beside `ReadSlot`.
use ele_bbs_go.Base.{
  ℕ, zero, suc, ◌+◌, ◌-◌, ◌*◌, ◌/◌, ◌≤◌, ◌<◌, ◌≡◌, refl, ap, ◌∙◌, inl, inr, none, some, arith,
  Bytes, ltb, length, take, drop, get_elem?, Bool-cases, if◌then◌else◌, ltb→lt, ltb_false→le,
  le→ltb_false,
}
use ele_bbs_go.Online.Useron.{decode}
use ele_bbs_go.Online.Useron.Slots.{read_slot}
use ele_bbs_go.Online.Presence.{read_from, read_all}

get_elem?-read_from :
    (n i j : ℕ) (b : Bytes)
    → i < n
    → get_elem? (read_from n j b) i ≡ some (decode (take 214 (drop ((j + i) * 214) b)))
unfolding read_from
get_elem?-read_from zero i j b h = absurd (omega (arith, h))
get_elem?-read_from (suc n) zero j b h =
    ap (λ (k : ℕ). some (decode (take 214 (drop (k * 214) b)))) {x = j} {y = j + 0} (omega arith)
get_elem?-read_from (suc n) (suc i) j b h =
    get_elem?-read_from n i (j + 1) b (omega (arith, h))
    ∙ ap (λ (k : ℕ). some (decode (take 214 (drop (k * 214) b)))) {x = j + 1 + i} {y = j + suc i}
        (omega arith)

past_end : (n i j : ℕ) (b : Bytes) → n ≤ i → get_elem? (read_from n j b) i ≡ none
unfolding read_from
past_end zero i j b h = refl
past_end (suc n) zero j b h = absurd (omega (arith, h))
past_end (suc n) (suc i) j b h = past_end n i (j + 1) b (omega (arith, h))

-- The list that `ReadAll` gives has at each place what `ReadSlot` gives for the node of that place,
-- and ends where `ReadSlot` finds nothing.
pub get_elem?-read_all : (b : Bytes) (i : ℕ) → get_elem? (read_all (some b)) i ≡ read_slot (i + 1) b
unfolding read_all read_slot
get_elem?-read_all b i =
    rw (le→ltb_false (i + 1) 1 (omega arith)) (at_place (i + 1 - 1) (omega arith))
  where
    at_place :
        (k : ℕ)
        → k ≡ i
        → get_elem? (read_from (length b / 214) 0 b) i ≡ (
            if ltb (length b) (k * 214 + 214)
            then none
            else some (decode (take 214 (drop (k * 214) b))))
    at_place k same = elim (Bool-cases (ltb (length b) (k * 214 + 214))) [
      | inl e ↦ rw e (past_end (length b / 214) i 0 b (omega (arith, same, ltb→lt _ _ e)))
      | inr e ↦ rw e (
          get_elem?-read_from (length b / 214) i 0 b (omega (arith, same, ltb_false→le _ _ e))
          ∙ ap (λ (j : ℕ). some (decode (take 214 (drop (j * 214) b)))) {x = 0 + i} {y = k}
              (omega (arith, same)))
    ]
