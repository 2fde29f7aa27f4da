-- ===== src/Comm/Telnet/Reading.antt =====
-- What one side writes, the other side reads.
use ele_bbs_go.Base.{is_nil, ◌≡◌, false, [], ◌∷◌, ◌++◌, Bytes}
use ele_bbs_go.Comm.Telnet.{Telnet, Input, Round, again, stop, escape}
use ele_bbs_go.Comm.Telnet.Plain.{normalize}

-- The bytes arrive in one piece.
abbrev one_piece : Bytes → Input
one_piece [] = []
one_piece (b ∷ p) = (b, is_nil p) ∷ one_piece p

-- Before a round: what is delivered, and the reference on what is left, make up the whole.
record Midway (whole : Bytes) (out : Bytes) (t : Telnet) (inp : Input) : Type 0 where
  left : Bytes
  comes : inp ≡ one_piece (escape left)
  settled : t.pending_cr ≡ false
  adds : out ++ normalize false left ≡ whole

abbrev Goes : Bytes → Round → Type 0
Goes whole (again out t inp) = Midway whole out t inp
Goes whole (stop out f t inp) = (out ≡ whole) × (f ≡ false)
