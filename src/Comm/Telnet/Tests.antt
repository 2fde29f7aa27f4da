-- ===== src/Comm/Telnet/Tests.antt =====
-- Telnet streams at work on a few bytes.
use ele_bbs_go.Base.{ℕ, ◌≡◌, ◌≢◌, refl, true, false, ◌==◌, [], ◌∷◌, some, arith}
use ele_bbs_go.Comm.Telnet.{
  Input, iac, will, do_, sb, se, new_telnet, Got, read, send_will, send_do,
}
use ele_bbs_go.Comm.Telnet.Negotiation.{IsConsistent, read-IsConsistent}
use ele_bbs_go.Comm.Telnet.Plain.{bytes_of, normalize, drain, drain-eq-normalize}

-- "a", then a carriage return at the end of one piece and its line feed at the start of the next.
abbrev two_pieces : Input
two_pieces = (b'a', false) ∷ (b'\r', true) ∷ (b'\n', false) ∷ (b'b', true) ∷ []

differs : {a b : ℕ} → (a == b) ≡ false → a ≢ b
differs h e = ground arith

drain-eq-normalize_example :
    drain 5 3 new_telnet two_pieces ≡ some (normalize new_telnet.pending_cr (bytes_of two_pieces))
drain-eq-normalize_example =
    drain-eq-normalize 5 3 new_telnet two_pieces (omega arith)
      (differs refl, (differs refl, (differs refl, (differs refl, tt)))) (omega arith)

normalize-two_pieces : normalize false (bytes_of two_pieces) ≡ b'a' ∷ b'\r' ∷ b'b' ∷ []
unfolding normalize
normalize-two_pieces = refl

start_IsConsistent : IsConsistent new_telnet
unfolding new_telnet send_will send_do
start_IsConsistent = record { ours = λ opt. ground arith; theirs = λ opt. ground arith }

-- IAC WILL 31 (a refusal follows), a subnegotiation, IAC DO 1, and a letter.
abbrev talk : Input
talk =
    (iac, false)
    ∷ (will, false)
    ∷ (31, false)
    ∷ (iac, false)
    ∷ (sb, false)
    ∷ (24, false)
    ∷ (iac, false)
    ∷ (se, false)
    ∷ (iac, false)
    ∷ (do_, false)
    ∷ (1, false)
    ∷ (b'z', true)
    ∷ []

read-IsConsistent_example : (g : Got) × (read 80 new_telnet talk ≡ some g) × IsConsistent g.telnet
read-IsConsistent_example = read-IsConsistent 80 talk start_IsConsistent
