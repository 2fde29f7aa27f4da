-- ===== src/Online/EmptyNode.antt =====
-- internal/online/useron.go, `EmptyNodeNr`: a free slot of useron.bbs.
use ele_bbs_go.Base.{
  is_nil, ℕ, zero, suc, ◌+◌, ◌-◌, ◌*◌, ◌/◌, ◌≤◌, ◌≡◌, refl, ap, ◌∙◌, inl, inr, Bool, true, false,
  ◌&&◌, ◌||◌, Option, none, some, arith, Bytes, ltb, leb, ◌==◌, if◌then◌else◌, length, take, drop,
  Bool-cases,
}
use ele_bbs_go.Base.Int.{ℤ, pos, negsuc}
use ele_bbs_go.Pascal.Text.{trim}
use ele_bbs_go.Online.Useron.{Record, decode}

abbrev pub is_none : ℤ → Bool
is_none (pos n) = n == 0
is_none (negsuc n) = false

-- The test on a record in the loop.
unfoldable pub is_hole : Record → Bool
unfolding trim
is_hole rec = is_nil (trim rec.name) || rec.line == 0 && is_none rec.node_number

unfoldable pub hole_at : Bytes → ℕ → Bool
unfolding is_hole
hole_at b i = is_hole (decode (take 214 (drop (i * 214) b)))

-- The loop, for a number of rounds from a record on.
unfoldable pub scan : ℕ → ℕ → Bytes → Option ℕ
unfolding hole_at
scan zero i b = none
scan (suc k) i b = let rest = scan k (i + 1) b in if hole_at b i then some (i + 1) else rest

abbrev pub start_of : Bool → ℕ
start_of eleweb = if eleweb then 1000 else 1

-- What comes behind the loop, for `n` records.
unfoldable pub append_at : Bool → ℕ → ℕ
append_at eleweb n =
    let next = if eleweb && leb (n + 1) 1000 then 1001 else n + 1 in
    if ltb next (start_of eleweb) then start_of eleweb else next

-- `EmptyNodeNr` on the bytes of the file, `none` where it cannot be read.
unfoldable pub empty_node_nr : Option Bytes → Bool → ℕ
unfolding scan append_at
empty_node_nr none eleweb = start_of eleweb
empty_node_nr (some b) eleweb =
    if ltb (length b) 214
    then start_of eleweb
    else elim (scan (length b / 214 - (start_of eleweb - 1)) (start_of eleweb - 1) b) [
      | some k ↦ k
      | none ↦ append_at eleweb (length b / 214)
    ]

-- At or above the first node allowed, and free in the file, where the file has it.
pub record IsFreeSlot (b : Bytes) (first node : ℕ) : Type 0 where
  pub allowed : first ≤ node
  pub free : node * 214 ≤ length b → hole_at b (node - 1) ≡ true

scan-hole : (k i r : ℕ) (b : Bytes) → scan k i b ≡ some r → (i + 1 ≤ r) × (hole_at b (r - 1) ≡ true)
unfolding scan
scan-hole zero i r b e = absurd cc
scan-hole (suc k) i r b e = elim (Bool-cases (hole_at b i)) [
  | inl h ↦
      let r' : i + 1 ≡ r = some_inj (rw h at e) in
      (omega (arith, r'), ap (hole_at b) {x = r - 1} {y = i} (omega (arith, r')) ∙ h)
  | inr n ↦ let (p, q) = scan-hole k (i + 1) r b (rw n at e) in (omega (arith, p), q)
]
  where
    some_inj : {x y : ℕ} → some x ≡ some y → x ≡ y
    some_inj e = cc

append_at-IsFreeSlot :
    (b : Bytes) (eleweb : Bool) → IsFreeSlot b (start_of eleweb) (append_at eleweb (length b / 214))
unfolding append_at
append_at-IsFreeSlot b true = record { allowed = ground arith; free = λ h. absurd (ground arith) }
append_at-IsFreeSlot b false = record { allowed = ground arith; free = λ h. absurd (ground arith) }

-- `EmptyNodeNr` gives a node at or above the first one allowed (1, or 1000 for the web server)
-- whose slot is a hole of the file or lies past its end: it never names a slot that shows a caller.
pub empty_node_nr-IsFreeSlot :
    (b : Bytes) (eleweb : Bool) → IsFreeSlot b (start_of eleweb) (empty_node_nr (some b) eleweb)
unfolding empty_node_nr
empty_node_nr-IsFreeSlot b eleweb = elim (Bool-cases (ltb (length b) 214)) [
  | inl e ↦ rw e (record { allowed = omega arith; free = λ h. absurd (ground arith) })
  | inr e ↦ rw e (
      found (scan (length b / 214 - (start_of eleweb - 1)) (start_of eleweb - 1) b) (λ r q.
        let (p, h) =
          scan-hole (length b / 214 - (start_of eleweb - 1)) (start_of eleweb - 1) r b q in
        record { allowed = ground (arith, p); free = λ _. h }))
]
  where
    found :
        (o : Option ℕ)
        → ((r : ℕ) → o ≡ some r → IsFreeSlot b (start_of eleweb) r)
        → IsFreeSlot b
            (start_of eleweb)
            (elim o [ some k ↦ k | none ↦ append_at eleweb (length b / 214) ])
    found none h = append_at-IsFreeSlot b eleweb
    found (some r) h = h r refl
