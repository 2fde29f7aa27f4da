-- ===== src/Comm/Telnet/Plain.antt =====
-- Reading text with no commands in it: what a caller gets does not depend on how the network cut
-- the text into pieces.
use mathlib.Core.Option
use mathlib.Core.List.{concat-ne-nil, cons-ne-nil}
use ele_bbs_go.Base.{
  ℕ, zero, suc, ◌≤◌, ◌<◌, ◌≡◌, ◌≢◌, refl, sym, ap, ◌∙◌, inl, inr, Bool, true, false, ◌&&◌, [], ◌∷◌,
  ◌++◌, append_assoc, append-nil, Option, none, some, arith, Bytes, ◌==◌, ==_iff, if◌then◌else◌,
  length, All, Bool-cases,
}
use ele_bbs_go.Comm.Telnet.{
  Telnet, Input, Round, again, stop, round, data_byte, return_then, eats, iac, Got, read,
}
use ele_bbs_go.Comm.Telnet.Loop.{read_total}

abbrev pub IsPlain : Input → Type 0
IsPlain inp = All (λ x. x.0 ≢ iac) inp

abbrev pub bytes_of : Input → Bytes
bytes_of [] = []
bytes_of (x ∷ inp) = x.0 ∷ bytes_of inp

-- The reference: a line feed or NUL behind a carriage return is dropped. The flag says that a
-- carriage return came last.
unfoldable pub normalize : Bool → Bytes → Bytes
normalize cr [] = []
normalize cr (b ∷ p) = elim (cr && eats b) [
  | true ↦ normalize false p
  | false ↦ b ∷ normalize (b == b'\r') p
]

-- What a round keeps: what is delivered and the reference on what is left make up the whole.
abbrev Keeps : ℕ → Bytes → Round → Type 0
Keeps n whole (again out t inp) =
    IsPlain inp × (out ++ normalize t.pending_cr (bytes_of inp) ≡ whole) × (length inp < n)
Keeps n whole (stop out f t inp) =
    IsPlain inp
    × (out ++ normalize t.pending_cr (bytes_of inp) ≡ whole)
    × (f ≡ true → (out ≡ []) × (inp ≡ []))
    × (f ≡ false → (out ≢ []) × (length inp < n))

module _ (n : ℕ) where
  deliver-Keeps :
      (last : Bool) (out : Bytes) (b : ℕ) (t : Telnet) (inp : Input) (whole : Bytes)
      → IsPlain inp
      → length inp < n
      → (out ++ b ∷ []) ++ normalize t.pending_cr (bytes_of inp) ≡ whole
      → Keeps n whole
          (if last then stop (out ++ b ∷ []) false t inp else again (out ++ b ∷ []) t inp)
  deliver-Keeps true out b t inp whole p l e = (p, e, λ f. cc, λ f. (concat-ne-nil b out, l))
  deliver-Keeps false out b t inp whole p l e = (p, e, l)

  return_then-Keeps :
      (out : Bytes) (t : Telnet) (inp : Input) (whole : Bytes)
      → IsPlain inp
      → length inp < n
      → t.pending_cr ≡ false
      → (out ++ b'\r' ∷ []) ++ normalize true (bytes_of inp) ≡ whole
      → Keeps n whole (return_then (out ++ b'\r' ∷ []) t inp)
  unfolding return_then
  return_then-Keeps out t [] whole p l c e = (p, unfold normalize in e, l)
  return_then-Keeps out t ((b, last) ∷ inp) whole p l c e = elim (Bool-cases (eats b)) [
    | inl y ↦ rw y (
        deliver-Keeps last out b'\r' t inp whole p.1 (omega arith)
          (rw c (unfold normalize in (rw (y, normalize) at e))))
    | inr x ↦ rw x (p, rw c (unfold normalize in (rw (x, normalize) at e)), l)
  ]

  data_byte-Keeps :
      (out : Bytes) (t : Telnet) (b : ℕ) (last : Bool) (inp : Input) (whole : Bytes)
      → IsPlain inp
      → length inp < n
      → (out ++ b ∷ []) ++ normalize (b == b'\r') (bytes_of inp) ≡ whole
      → Keeps n whole (data_byte out t b last inp)
  unfolding data_byte
  data_byte-Keeps out t b last inp whole p l e = elim (Bool-cases (b == b'\r')) [
    | inl y ↦ rw y (split last ((==_iff b b'\r').0 y) (rw y at e))
    | inr x ↦
        rw x (deliver-Keeps last out b (record t { pending_cr = false }) inp whole p l (rw x at e))
  ]
    where
      split :
          (last : Bool)
          → b ≡ b'\r'
          → (out ++ b ∷ []) ++ normalize true (bytes_of inp) ≡ whole
          → Keeps n whole (
              if last
              then stop (out ++ b ∷ []) false (record t { pending_cr = true }) inp
              else return_then (out ++ b ∷ []) (record t { pending_cr = false }) inp)
      split true y e' = (p, e', λ f. cc, λ f. (concat-ne-nil b out, l))
      split false y e' =
          rw y (
            return_then-Keeps out (record t { pending_cr = false }) inp whole p l refl (rw y at e'))

  round-Keeps :
      (out : Bytes) (t : Telnet) (inp : Input)
      → IsPlain inp
      → length inp ≤ n
      → (out ≢ [] → length inp < n)
      → Keeps n (out ++ normalize t.pending_cr (bytes_of inp)) (round out t inp)
  round-Keeps [] t [] p l h = unfold round in (tt, refl, λ f. (refl, refl), λ f. cc)
  round-Keeps (x ∷ out) t [] p l h =
      unfold round in (tt, refl, λ f. cc, λ f. (cons-ne-nil x out, h (cons-ne-nil x out)))
  round-Keeps out t ((b, last) ∷ inp) p l h = elim (Bool-cases (t.pending_cr && eats b)) [
    | inl y ↦ unfold round normalize in rw (not_iac, y) (p.1, rw (y, normalize), omega arith)
    | inr x ↦
        unfold round in
        rw (not_iac, x)
          (data_byte-Keeps out t b last inp _ p.1 (omega arith) (
            unfold normalize in
            rw (x, normalize) (append_assoc out (b ∷ []) (normalize (b == b'\r') (bytes_of inp)))))
  ]
    where
      not_iac : (b == iac) ≡ false
      not_iac = ground (arith, p.0)

-- What one read of plain text returns.
abbrev ReadsPlain : ℕ → Bytes → Got → Type 0
ReadsPlain n whole g =
    IsPlain g.rest
    × (g.payload ++ normalize g.telnet.pending_cr (bytes_of g.rest) ≡ whole)
    × (g.failed ≡ true → (g.payload ≡ []) × (g.rest ≡ []))
    × (g.failed ≡ false → (g.payload ≢ []) × (length g.rest < n))

read-ReadsPlain :
    (room : ℕ) (t : Telnet) (inp : Input)
    → 0 < room
    → IsPlain inp
    → (g : Got) × (read room t inp ≡ some g)
      × ReadsPlain (length inp) (normalize t.pending_cr (bytes_of inp)) g
read-ReadsPlain room t inp pos p =
    read_total room
      (λ out t' i.
        IsPlain i
        × (out ++ normalize t'.pending_cr (bytes_of i) ≡ whole)
        × (length i ≤ length inp)
        × (out ≢ [] → length i < length inp))
      (ReadsPlain (length inp) whole)
      (λ out t' i q h.
        let some_out : out ≢ [] = not_nil out h in
        (q.0, q.1, λ f. cc, λ f. (some_out, q.3 some_out)))
      (λ out t' i r q e.
        let k = rw (e, q.1) at (round-Keeps (length inp) out t' i q.0 q.2 q.3) in
        (k.0, k.1, omega (arith, k.2), λ _. k.2))
      (λ out t' i r f q e. rw (e, q.1) at (round-Keeps (length inp) out t' i q.0 q.2 q.3)) inp
      (p, refl, omega arith, λ h. absurd (h refl))
  where
    not_nil : (out : Bytes) → room ≤ length out → out ≢ []
    not_nil [] h = absurd (omega arith)
    not_nil (x ∷ out) h = cons-ne-nil x out

    whole : Bytes
    whole = normalize t.pending_cr (bytes_of inp)

at_end :
    {n : ℕ} {whole : Bytes} (g : Got) → ReadsPlain n whole g → g.failed ≡ true → g.payload ≡ whole
unfolding normalize
at_end g q f = sym (append-nil g.payload) ∙ (rw ((q.2 f).1) at (q.1))

-- A caller that reads again and again until a read fails, and keeps what it got.
pub drain : ℕ → ℕ → Telnet → Input → Option Bytes
drain zero room t inp = none
drain (suc fuel) room t inp = elim (read room t inp) [
  | none ↦ none
  | some g ↦ elim g.failed [
    | true ↦ some g.payload
    | false ↦ Option.map (λ p. g.payload ++ p) (drain fuel room g.telnet g.rest)
  ]
]

-- Whatever pieces the network delivers a text without commands in, and whatever the size of the
-- caller's buffer, reading until the input ends gives the text with each line feed or NUL behind a
-- carriage return dropped.
pub drain-eq-normalize :
    (fuel room : ℕ) (t : Telnet) (inp : Input)
    → 0 < room
    → IsPlain inp
    → length inp < fuel
    → drain fuel room t inp ≡ some (normalize t.pending_cr (bytes_of inp))
unfolding drain
drain-eq-normalize zero room t inp pos p l = absurd (omega arith)
drain-eq-normalize (suc fuel) room t inp pos p l =
    let (g, e, q) = read-ReadsPlain room t inp pos p in
    rw (e, drain)
      (elim (Bool-cases g.failed) [
        | inl f ↦ rw f (ap some (at_end g q f))
        | inr f ↦ rw f (
            rw (drain-eq-normalize fuel room g.telnet g.rest pos q.0 (omega (arith, (q.3 f).1)))
              (ap some q.1))
      ])
