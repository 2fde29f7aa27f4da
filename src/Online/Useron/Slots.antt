-- ===== src/Online/Useron/Slots.antt =====
-- internal/online/useron.go on the whole file: one slot for each node. A file is its bytes.
use ele_bbs_go.Base.{
  max, refl, length-replicate, ◌<◌, ◌∷◌, ℕ, zero, suc, ◌+◌, ◌-◌, ◌*◌, ◌≤◌, ◌≡◌, ◌≢◌, sym, ap, ◌∙◌,
  [], ◌++◌, Option, none, some, append-nil, append_assoc, arith, ltb, if◌then◌else◌, Bytes, length,
  replicate, take, drop, length-append, length-take, length-drop, take-append, drop-append,
  drop-drop, le→ltb_false, ◌⊎◌, inl, inr, Bool-cases, ltb→lt, ltb_false→le, window-append,
  window-take, drop_past,
}
use ele_bbs_go.Online.Useron.{Record, encode, decode}
use ele_bbs_go.Online.Useron.RoundTrip.{FitsRecord, decode-encode, length-encode}

-- `ReadSlot` on the bytes of the file.
unfoldable pub read_slot : ℕ → Bytes → Option Record
read_slot line_nr b =
    if ltb line_nr 1
    then none
    else let off = (line_nr - 1) * 214 in
      if ltb (length b) (off + 214) then none else some (decode (take 214 (drop off b)))

-- A write of `p` at an offset, over what the file holds there.
abbrev pub write_at : ℕ → Bytes → Bytes → Bytes
write_at off p b = take off b ++ p ++ drop (off + length p) b

abbrev pub zeros : ℕ → Bytes
zeros n = replicate n 0

-- The loop of `writeSlot` writes empty records while the file is shorter than `need`. The file was
-- opened without O_APPEND, so the writes start at its first byte: the second argument is the
-- offset. The first argument bounds the rounds.
unfoldable pub grow : ℕ → ℕ → ℕ → Bytes → Bytes
grow zero off need b = b
grow (suc fuel) off need b =
    let rest = grow fuel (off + 214) need (write_at off (zeros 214) b) in
    if ltb (length b) need then rest else b

-- `writeSlot` on a file of bytes `b`.
unfoldable pub write_slot : ℕ → Record → Bytes → Bytes
unfolding grow
write_slot node t b = let need = (node - 1) * 214 in write_at need (encode t) (grow node 0 need b)

length-write_at :
    (off : ℕ) (p b : Bytes)
    → off ≤ length b
    → length (write_at off p b) ≡ max (length b) (off + length p)
length-write_at off p b h = omega (
  arith,
  length-append (take off b ++ p) (drop (off + length p) b),
  length-append (take off b) p,
  length-take off b,
  length-drop (off + length p) b,
)

length-empty : length (zeros 214) ≡ 214
length-empty = length-replicate {A = ℕ} 214 0

-- The rounds are enough for the file to reach the slot.
grow_reaches :
    (fuel off need : ℕ) (b : Bytes)
    → off ≤ length b
    → need ≤ off + fuel * 214
    → need ≤ length (grow fuel off need b)
unfolding grow
grow_reaches zero off need b o h = omega arith
grow_reaches (suc fuel) off need b o h = elim (Bool-cases (ltb (length b) need)) [
  | inl e ↦ rw e (
      grow_reaches fuel (off + 214) need (write_at off (zeros 214) b)
        (omega (arith, length-write_at off (zeros 214) b o, length-empty)) (omega arith))
  | inr e ↦ rw e (ltb_false→le (length b) need e)
]

-- A file that reaches the slot is left alone.
grow_long : (fuel off need : ℕ) (b : Bytes) → need ≤ length b → grow fuel off need b ≡ b
unfolding grow
grow_long zero off need b h = refl
grow_long (suc fuel) off need b h = rw (le→ltb_false (length b) need h) refl

replicate-append : (n m : ℕ) → zeros n ++ zeros m ≡ zeros (n + m)
replicate-append zero m = ap (λ (k : ℕ). zeros k) {x = m} {y = 0 + m} (omega arith)
replicate-append (suc n) m =
    ap (λ (l : Bytes). 0 ∷ l) (replicate-append n m)
    ∙ ap (λ (k : ℕ). zeros k) {x = suc (n + m)} {y = suc n + m} (omega arith)

take-replicate : (k n : ℕ) → k ≤ n → take k (zeros n) ≡ zeros k
take-replicate zero n h = refl
take-replicate (suc k) zero h = absurd (omega arith)
take-replicate (suc k) (suc n) h = ap (λ (l : Bytes). 0 ∷ l) (take-replicate k n (omega arith))

take-take : (k n : ℕ) (b : Bytes) → k ≤ n → n ≤ length b → take k (take n b) ≡ take k b
take-take k n b h l = window-take k 0 n b (omega arith) l

blank_below :
    (off need : ℕ) (b : Bytes)
    → need ≤ off
    → off ≤ length b
    → take off b ≡ zeros off
    → take need b ≡ zeros need
blank_below off need b h l z =
    sym (take-take need off b h l) ∙ ap (take need) z ∙ take-replicate need off h

blank_more :
    (off : ℕ) (b : Bytes)
    → off ≤ length b
    → take off b ≡ zeros off
    → take (off + 214) (write_at off (zeros 214) b) ≡ zeros (off + 214)
blank_more off b l z =
    take-append (off + 214) (take off b ++ zeros 214) (drop (off + length (zeros 214)) b)
      (omega (arith, length-append (take off b) (zeros 214), length-take off b, length-empty))
    ∙ ap (λ (p : Bytes). p ++ zeros 214) z
    ∙ replicate-append off 214

-- A file that is shorter is blank up to the slot afterwards.
grow_blanks :
    (fuel off need : ℕ) (b : Bytes)
    → off ≤ length b
    → take off b ≡ zeros off
    → (need ≤ length b → need ≤ off)
    → need ≤ off + fuel * 214
    → take need (grow fuel off need b) ≡ zeros need
unfolding grow
grow_blanks zero off need b l z done h = blank_below off need b (omega arith) l z
grow_blanks (suc fuel) off need b l z done h = elim (Bool-cases (ltb (length b) need)) [
  | inl e ↦
      let n = length-write_at off (zeros 214) b l in
      rw e (
        grow_blanks fuel (off + 214) need (write_at off (zeros 214) b)
          (omega (arith, n, length-empty)) (blank_more off b l z)
          (λ r. omega (arith, r, n, length-empty, ltb→lt (length b) need e)) (omega arith))
  | inr e ↦ rw e (blank_below off need b (done (ltb_false→le (length b) need e)) l z)
]

drop-write_at :
    (off : ℕ) (p b : Bytes)
    → off ≤ length b
    → drop off (write_at off p b) ≡ p ++ drop (off + length p) b
drop-write_at off p b h =
    rw (append_assoc (take off b) p (drop (off + length p) b))
      (drop-append off (take off b) _ (omega (arith, length-take off b)))

window_other :
    (o off : ℕ) (p b : Bytes)
    → off ≤ length b
    → length p ≡ 214
    → o + 214 ≤ length b
    → (o + 214 ≤ off) ⊎ (off + 214 ≤ o)
    → take 214 (drop o (write_at off p b)) ≡ take 214 (drop o b)
window_other o off p b h l k (inl before) =
    rw (append_assoc (take off b) p (drop (off + length p) b)) (
      window-append 214 o (take off b) _ (omega (arith, length-take off b))
      ∙ window-take 214 o off b before h)
window_other o off p b h l k (inr after) =
    let a = take off b ++ p in
    let n : length a ≡ off + 214 = omega (arith, length-append (take off b) p, length-take off b) in
    ap (take 214) (
      drop_past o a (drop (off + length p) b) (omega arith)
      ∙ drop-drop (off + length p) (o - length a) b
      ∙ ap (λ (j : ℕ). drop j b) {x = off + length p + (o - length a)} {y = o} (omega arith))

window_blank : (o n : ℕ) → o + 214 ≤ n → take 214 (drop o (zeros n)) ≡ zeros 214
window_blank zero n h = take-replicate 214 n (omega arith)
window_blank (suc o) zero h = absurd (omega arith)
window_blank (suc o) (suc n) h = window_blank o n (omega arith)

module _ (node : ℕ) (t : Record) (b : Bytes) (valid : 1 ≤ node) where
  abbrev grown : Bytes
  grown = grow node 0 ((node - 1) * 214) b

  grown_reaches : (node - 1) * 214 ≤ length grown
  grown_reaches = grow_reaches node 0 ((node - 1) * 214) b (omega arith) (omega arith)

  length-written : (node - 1) * 214 + 214 ≤ length (write_slot node t b)
  unfolding write_slot
  length-written = omega (
    arith,
    grown_reaches,
    length-encode t,
    length-append (take ((node - 1) * 214) grown ++ encode t)
        (drop ((node - 1) * 214 + length (encode t)) grown),
    length-append (take ((node - 1) * 214) grown) (encode t),
    length-take ((node - 1) * 214) grown,
  )

  -- A record whose fields fit their places, written to the slot of a node from 1 on, is read back,
  -- however short the file was.
  pub read_slot-write_slot : FitsRecord t → read_slot node (write_slot node t b) ≡ some t
  unfolding read_slot
  read_slot-write_slot fits = rw (le→ltb_false node 1 valid) (
      rw (le→ltb_false (length (write_slot node t b)) ((node - 1) * 214 + 214) length-written)
        (ap some (ap decode in_place ∙ decode-encode t fits)))
    where
      in_place : take 214 (drop ((node - 1) * 214) (write_slot node t b)) ≡ encode t
      in_place =
          unfold write_slot in
          rw (drop-write_at ((node - 1) * 214) (encode t) grown grown_reaches)
            (take-append 214 (encode t) _ (length-encode t))

  -- Writing one node's slot leaves what every other node's slot of the file holds, if the file
  -- reaches the written slot already.
  pub read_slot-write_slot_other :
      (other : ℕ)
      → 1 ≤ other
      → other ≢ node
      → other * 214 ≤ length b
      → (node - 1) * 214 ≤ length b
      → read_slot other (write_slot node t b) ≡ read_slot other b
  unfolding read_slot
  read_slot-write_slot_other other valid' ne inside long = rw (le→ltb_false other 1 valid') (
      rw (le→ltb_false (length (write_slot node t b)) ((other - 1) * 214 + 214) still_there) (
        rw (le→ltb_false (length b) ((other - 1) * 214 + 214) (omega arith))
          (ap (λ (w : Bytes). some (decode w)) window)))
    where
      old : (x : Bytes) × (grown ≡ b ++ x)
      old = ([], grow_long node 0 ((node - 1) * 214) b long ∙ sym (append-nil b))

      fits : (other - 1) * 214 + 214 ≤ length grown
      fits = rw (old.1) (omega (arith, length-append b old.0))

      sides :
          ((other - 1) * 214 + 214 ≤ (node - 1) * 214)
          ⊎ ((node - 1) * 214 + 214 ≤ (other - 1) * 214)
      sides = elim (Bool-cases (ltb other node)) [
        | inl e ↦ inl (omega (arith, ltb→lt other node e))
        | inr e ↦ inr (omega (arith, ltb_false→le other node e))
      ]

      still_there : (other - 1) * 214 + 214 ≤ length (write_slot node t b)
      still_there =
          unfold write_slot in
          omega (
            arith,
            fits,
            length-encode t,
            length-append (take ((node - 1) * 214) grown ++ encode t)
                (drop ((node - 1) * 214 + length (encode t)) grown),
            length-append (take ((node - 1) * 214) grown) (encode t),
            length-take ((node - 1) * 214) grown,
            length-drop ((node - 1) * 214 + length (encode t)) grown,
            grown_reaches,
          )

      window :
          take 214 (drop ((other - 1) * 214) (write_slot node t b))
          ≡ take 214 (drop ((other - 1) * 214) b)
      window =
          unfold write_slot in
          window_other ((other - 1) * 214) ((node - 1) * 214) (encode t) grown grown_reaches
            (length-encode t) fits sides
          ∙ ap (λ (w : Bytes). take 214 (drop ((other - 1) * 214) w)) old.1
          ∙ window-append 214 ((other - 1) * 214) b old.0 (omega arith)

  -- Where the file does not reach the written slot, making room for it blanks every slot before it:
  -- whoever was on line on a lower node is no longer shown.
  pub read_slot-write_slot_short :
      (other : ℕ)
      → 1 ≤ other
      → other < node
      → length b < (node - 1) * 214
      → read_slot other (write_slot node t b) ≡ some (decode (zeros 214))
  unfolding read_slot
  read_slot-write_slot_short other valid' less short = rw (le→ltb_false other 1 valid') (
      rw
        (le→ltb_false (length (write_slot node t b)) ((other - 1) * 214 + 214)
          (omega (arith, length-written)))
        (ap (λ (w : Bytes). some (decode w)) window))
    where
      blank : take ((node - 1) * 214) grown ≡ zeros ((node - 1) * 214)
      blank =
          grow_blanks node 0 ((node - 1) * 214) b (omega arith) refl (λ h. absurd (omega arith))
            (omega arith)

      window : take 214 (drop ((other - 1) * 214) (write_slot node t b)) ≡ zeros 214
      window =
          unfold write_slot in
          window_other ((other - 1) * 214) ((node - 1) * 214) (encode t) grown grown_reaches
            (length-encode t) (omega (arith, grown_reaches)) (inl (omega arith))
          ∙ sym (
              window-take 214 ((other - 1) * 214) ((node - 1) * 214) grown (omega arith)
                grown_reaches)
          ∙ ap (λ (w : Bytes). take 214 (drop ((other - 1) * 214) w)) blank
          ∙ window_blank ((other - 1) * 214) ((node - 1) * 214) (omega arith)
