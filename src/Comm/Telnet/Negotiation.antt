-- ===== src/Comm/Telnet/Negotiation.antt =====
-- Option negotiation: what the stream has said stays consistent, and nothing is said twice.
use ele_bbs_go.Base.{
  ℕ, ◌≡◌, refl, inl, inr, Bool, true, false, ◌&&◌, ◌||◌, [], ◌∷◌, ◌++◌, Option, none, some, arith,
  Bytes, ◌==◌, ==_refl, if◌then◌else◌, Bool-cases,
}
use ele_bbs_go.Comm.Telnet.Loop.{read_total}
use ele_bbs_go.Comm.Telnet.{
  Telnet, Flags, assign, iac, will, wont, do_, dont, sb, accept_telnet_opt, send_will, send_do,
  send_wont, send_dont, negotiate, after_sb, option_byte, Input, Round, again, stop, round, command,
  data_byte, return_then, skip_sb, Got, read,
}

-- For no option has the stream's last word been both yes and no.
pub record IsConsistent (t : Telnet) : Type 0 where
  pub ours : (opt : ℕ) → (t.us_will opt && t.said_wont opt) ≡ false
  pub theirs : (opt : ℕ) → (t.us_do opt && t.said_dont opt) ≡ false

both_assigned :
    (f g : Flags) (k j : ℕ)
    → (f j && g j) ≡ false
    → (assign f k true j && assign g k false j) ≡ false
both_assigned f g k j h = ground arith

both_assigned' :
    (f g : Flags) (k j : ℕ)
    → (f j && g j) ≡ false
    → (assign f k false j && assign g k true j) ≡ false
both_assigned' f g k j h = ground arith

send_will-IsConsistent : (opt : ℕ) {t : Telnet} → IsConsistent t → IsConsistent (send_will opt t)
unfolding send_will
send_will-IsConsistent opt {t} c = elim (Bool-cases (t.us_will opt)) [
  | inl e ↦ rw e c
  | inr e ↦ rw e (record {
    ours = λ j. both_assigned t.us_will t.said_wont opt j (c.ours j);
    theirs = c.theirs;
  })
]

send_wont-IsConsistent : (opt : ℕ) {t : Telnet} → IsConsistent t → IsConsistent (send_wont opt t)
unfolding send_wont
send_wont-IsConsistent opt {t} c = elim (Bool-cases (t.said_wont opt)) [
  | inl e ↦ rw e c
  | inr e ↦ rw e (record {
    ours = λ j. both_assigned' t.us_will t.said_wont opt j (c.ours j);
    theirs = c.theirs;
  })
]

send_do-IsConsistent : (opt : ℕ) {t : Telnet} → IsConsistent t → IsConsistent (send_do opt t)
unfolding send_do
send_do-IsConsistent opt {t} c = elim (Bool-cases (t.us_do opt)) [
  | inl e ↦ rw e c
  | inr e ↦
      rw e (record {
        ours = c.ours;
        theirs = λ j. both_assigned t.us_do t.said_dont opt j (c.theirs j);
      })
]

send_dont-IsConsistent : (opt : ℕ) {t : Telnet} → IsConsistent t → IsConsistent (send_dont opt t)
unfolding send_dont
send_dont-IsConsistent opt {t} c = elim (Bool-cases (t.said_dont opt)) [
  | inl e ↦ rw e c
  | inr e ↦ rw e (record {
    ours = c.ours;
    theirs = λ j. both_assigned' t.us_do t.said_dont opt j (c.theirs j);
  })
]

negotiate-IsConsistent :
    (cmd opt : ℕ) {t : Telnet} → IsConsistent t → IsConsistent (negotiate cmd opt t)
unfolding negotiate
negotiate-IsConsistent cmd opt {t} c =
    split (cmd == will) (cmd == do_) (cmd == wont) (cmd == dont) (accept_telnet_opt opt)
  where
    split :
        (w d x y a : Bool)
        → IsConsistent (
            if w
            then (if a then send_do opt t else send_dont opt t)
            else if d
            then (if a then send_will opt t else send_wont opt t)
            else if x
            then send_dont opt t
            else if y
            then send_wont opt t
            else t)
    split true d x y true = send_do-IsConsistent opt c
    split true d x y false = send_dont-IsConsistent opt c
    split false true x y true = send_will-IsConsistent opt c
    split false true x y false = send_wont-IsConsistent opt c
    split false false true y a = send_dont-IsConsistent opt c
    split false false false true a = send_wont-IsConsistent opt c
    split false false false false a = c

assigned : (f : Flags) (k : ℕ) (v : Bool) → assign f k v k ≡ v
assigned f k v = ground arith

send_will_twice : (opt : ℕ) (t : Telnet) → send_will opt (send_will opt t) ≡ send_will opt t
unfolding send_will
send_will_twice opt t = elim (Bool-cases (t.us_will opt)) [
  | inl e ↦ rw e (rw e)
  | inr e ↦ rw e (rw (==_refl opt))
]

send_do_twice : (opt : ℕ) (t : Telnet) → send_do opt (send_do opt t) ≡ send_do opt t
unfolding send_do
send_do_twice opt t = elim (Bool-cases (t.us_do opt)) [
  | inl e ↦ rw e (rw e)
  | inr e ↦ rw e (rw (==_refl opt))
]

send_wont_twice : (opt : ℕ) (t : Telnet) → send_wont opt (send_wont opt t) ≡ send_wont opt t
unfolding send_wont
send_wont_twice opt t = elim (Bool-cases (t.said_wont opt)) [
  | inl e ↦ rw e (rw e)
  | inr e ↦ rw e (rw (==_refl opt))
]

send_dont_twice : (opt : ℕ) (t : Telnet) → send_dont opt (send_dont opt t) ≡ send_dont opt t
unfolding send_dont
send_dont_twice opt t = elim (Bool-cases (t.said_dont opt)) [
  | inl e ↦ rw e (rw e)
  | inr e ↦ rw e (rw (==_refl opt))
]

-- A request that is repeated changes nothing the second time, so no second answer is sent: two
-- peers cannot answer one another forever.
pub negotiate_twice :
    (cmd opt : ℕ) (t : Telnet) → negotiate cmd opt (negotiate cmd opt t) ≡ negotiate cmd opt t
unfolding negotiate
negotiate_twice cmd opt t =
    grind (arith, send_do_twice, send_dont_twice, send_will_twice, send_wont_twice)

abbrev telnet_of : Round → Telnet
telnet_of (again out t inp) = t
telnet_of (stop out failed t inp) = t

-- The flag for carriage returns plays no part in it.
pending-IsConsistent :
    {t : Telnet} (b : Bool) → IsConsistent t → IsConsistent (record t { pending_cr = b })
pending-IsConsistent b c = record { ours = c.ours; theirs = c.theirs }

return_then-keeps : (out : Bytes) (t : Telnet) (inp : Input) → telnet_of (return_then out t inp) ≡ t
unfolding return_then
return_then-keeps out t [] = refl
return_then-keeps out t ((b, last) ∷ inp) = ground arith

data_byte-IsConsistent :
    (out : Bytes) {t : Telnet} (b : ℕ) (last : Bool) (inp : Input)
    → IsConsistent t
    → IsConsistent (telnet_of (data_byte out t b last inp))
unfolding data_byte
data_byte-IsConsistent out {t} b last inp c = split (b == b'\r') last
  where
    split :
        (r l : Bool)
        → IsConsistent (
            telnet_of (
              if r
              then (if l
                  then stop (out ++ b ∷ []) false (record t { pending_cr = true }) inp
                  else return_then (out ++ b ∷ []) (record t { pending_cr = false }) inp)
              else (if l
                  then stop (out ++ b ∷ []) false (record t { pending_cr = false }) inp
                  else again (out ++ b ∷ []) (record t { pending_cr = false }) inp)))
    split true true = pending-IsConsistent true c
    split true false =
        rw (return_then-keeps (out ++ b ∷ []) (record t { pending_cr = false }) inp)
          (pending-IsConsistent false c)
    split false true = pending-IsConsistent false c
    split false false = pending-IsConsistent false c

command-IsConsistent :
    (out : Bytes) {t : Telnet} (inp : Input)
    → IsConsistent t
    → IsConsistent (telnet_of (command out t inp))
command-IsConsistent out [] c = unfold command in c
command-IsConsistent out {t} ((cmd, l) ∷ inp) c = unfold command in split (cmd == iac) (cmd == sb)
  where
    after : (r : Option Input) → IsConsistent (telnet_of (after_sb out t r))
    after none = c
    after (some inp') = c

    option : (i : Input) → IsConsistent (telnet_of (option_byte cmd out t i))
    option [] = c
    option ((opt, l) ∷ inp') = negotiate-IsConsistent cmd opt c

    split :
        (i s : Bool)
        → IsConsistent (
            telnet_of (
              if i
              then again (out ++ iac ∷ []) t inp
              else if s
              then after_sb out t (skip_sb inp)
              else option_byte cmd out t inp))
    split true s = c
    split false true = after (skip_sb inp)
    split false false = option inp

round-IsConsistent :
    (out : Bytes) {t : Telnet} (inp : Input)
    → IsConsistent t
    → IsConsistent (telnet_of (round out t inp))
round-IsConsistent out [] c = unfold round in c
round-IsConsistent out {t} ((b, last) ∷ inp) c =
    unfold round in split (b == iac) (t.pending_cr && (b == b'\n' || b == 0))
  where
    split :
        (i e : Bool)
        → IsConsistent (
            telnet_of (
              if i
              then command out t inp
              else if e
              then again out (record t { pending_cr = false }) inp
              else data_byte out t b last inp))
    split true e = command-IsConsistent out inp c
    split false true = pending-IsConsistent false c
    split false false = data_byte-IsConsistent out b last inp c

-- However the far end behaves, `Read` returns, and the stream's answers stay consistent.
pub read-IsConsistent :
    (room : ℕ) {t : Telnet} (inp : Input)
    → IsConsistent t
    → (g : Got) × (read room t inp ≡ some g) × IsConsistent g.telnet
read-IsConsistent room inp c =
    read_total room (λ _ t _. IsConsistent t) (λ g. IsConsistent g.telnet) (λ out t inp c' h. c')
      (λ out t inp r c' e. rw e at (round-IsConsistent out inp c'))
      (λ out t inp r f c' e. rw e at (round-IsConsistent out inp c')) inp c
