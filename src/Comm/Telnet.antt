-- ===== src/Comm/Telnet.antt =====
-- internal/comm/telnet.go: the telnet stream. The buffered reader over the connection is the list
-- of the bytes still to come, each marked when it is the last one that a fill of the buffer gives:
-- the mark says that `Buffered()` is 0 once the byte is taken. A fill takes what has arrived, up to
-- the size of the buffer: `filled` marks the bytes that arrive together. `Read` takes any marks,
-- those of a buffer of this size among them. The list ends
-- where the connection reports an error, be it the end of the stream or a deadline. What is
-- written to the connection is collected in `sent`.
pub mod Negotiation
pub mod Reading
pub mod Loop
pub mod Plain
mod Tests
use ele_bbs_go.Base.{
  is_nil, ℕ, zero, suc, ◌+◌, ◌-◌, Bool, true, false, ◌&&◌, ◌||◌, List, [], ◌∷◌, ◌++◌, Option, none,
  some, Bytes, leb, ◌==◌, if◌then◌else◌, length,
}

abbrev pub iac : ℕ
iac = 255

abbrev pub dont : ℕ
dont = 254

abbrev pub do_ : ℕ
do_ = 253

abbrev pub wont : ℕ
wont = 252

abbrev pub will : ℕ
will = 251

abbrev pub sb : ℕ
sb = 250

abbrev pub se : ℕ
se = 240

-- An array `[256]bool` is a function of the index.
abbrev pub Flags : Type 0
Flags = ℕ → Bool

abbrev pub assign : Flags → ℕ → Bool → Flags
assign f k v j = if j == k then v else f j

pub record Telnet : Type 0 where
  pub pending_cr : Bool
  pub us_will : Flags
  pub us_do : Flags
  pub said_wont : Flags
  pub said_dont : Flags
  pub sent : Bytes
  pub closed : Bool

-- `acceptTelnetOpt`.
pub accept_telnet_opt : ℕ → Bool
accept_telnet_opt opt = opt == 0 || opt == 1 || opt == 3

abbrev pub send_iac : ℕ → ℕ → Telnet → Telnet
send_iac cmd opt t = record t { sent = t.sent ++ (iac ∷ cmd ∷ opt ∷ []) }

pub send_will : ℕ → Telnet → Telnet
send_will opt t =
    if t.us_will opt
    then t
    else send_iac will opt
        (record t { us_will = assign t.us_will opt true; said_wont = assign t.said_wont opt false })

pub send_do : ℕ → Telnet → Telnet
send_do opt t =
    if t.us_do opt
    then t
    else send_iac do_ opt
        (record t { us_do = assign t.us_do opt true; said_dont = assign t.said_dont opt false })

pub send_wont : ℕ → Telnet → Telnet
send_wont opt t =
    if t.said_wont opt
    then t
    else send_iac wont opt
        (record t { said_wont = assign t.said_wont opt true; us_will = assign t.us_will opt false })

pub send_dont : ℕ → Telnet → Telnet
send_dont opt t =
    if t.said_dont opt
    then t
    else send_iac dont opt
        (record t { said_dont = assign t.said_dont opt true; us_do = assign t.us_do opt false })

-- `NewTelnet`.
unfoldable pub new_telnet : Telnet
unfolding send_will send_do
new_telnet =
    let blank : Telnet = record {
      pending_cr = false;
      us_will = λ _. false;
      us_do = λ _. false;
      said_wont = λ _. false;
      said_dont = λ _. false;
      sent = [];
      closed = false;
    } in
    send_do 0 (send_will 0 (send_will 1 (send_will 3 blank)))

-- The switch on the command at the end of the loop of `Read`.
unfoldable pub negotiate : ℕ → ℕ → Telnet → Telnet
unfolding accept_telnet_opt
negotiate cmd opt t =
    if cmd == will
    then (if accept_telnet_opt opt then send_do opt t else send_dont opt t)
    else if cmd == do_
    then (if accept_telnet_opt opt then send_will opt t else send_wont opt t)
    else if cmd == wont
    then send_dont opt t
    else if cmd == dont
    then send_wont opt t
    else t

-- A byte to come, and whether the buffer is empty behind it.
abbrev pub Input : Type 0
Input = List (ℕ × Bool)

-- The size given to `bufio.NewReaderSize`.
abbrev pub buffer_size : ℕ
buffer_size = 4096

-- Bytes that arrive together, with `room` left in the fill that is taken: it ends where the buffer
-- is full or nothing more is there.
unfoldable pub filled : ℕ → Bytes → Input
filled room [] = []
filled room (b ∷ p) =
    let full = leb room 1 in
    (b, full || is_nil p) ∷ filled (if full then buffer_size else room - 1) p

-- How one round of the loop of `Read` ends: with the bytes delivered so far, the stream and the
-- input left; a `return` also says whether it reports an error.
pub data Round : Type 0 where
  again : Bytes → Telnet → Input → Round
  stop : Bytes → Bool → Telnet → Input → Round

abbrev pub eats : ℕ → Bool
eats b = b == b'\n' || b == 0

-- What a data byte is followed by: where it is the last of the buffer, the end of the read.
abbrev pub deliver : Bool → Bytes → Telnet → Input → Round
deliver last out t inp = if last then stop out false t inp else again out t inp

-- A carriage return with more in the buffer: a line feed or NUL behind it is dropped.
pub return_then : Bytes → Telnet → Input → Round
return_then out t [] = again out t []
return_then out t ((b, last) ∷ inp) =
    if eats b then deliver last out t inp else again out t ((b, last) ∷ inp)

-- A byte that is not IAC, where it is not dropped.
pub data_byte : Bytes → Telnet → ℕ → Bool → Input → Round
unfolding return_then
data_byte out t b last inp =
    if b == b'\r'
    then (if last
        then stop (out ++ b ∷ []) false (record t { pending_cr = true }) inp
        else return_then (out ++ b ∷ []) (record t { pending_cr = false }) inp)
    else deliver last (out ++ b ∷ []) (record t { pending_cr = false }) inp

-- The loop that skips a subnegotiation up to IAC SE.
unfoldable pub skip_sb : Input → Option Input
skip_sb [] = none
skip_sb ((x, _) ∷ []) = none
skip_sb ((x, _) ∷ (y, l) ∷ inp) = elim (x == iac) [
  | true ↦ elim (y == se) [ true ↦ some inp | false ↦ skip_sb inp ]
  | false ↦ skip_sb ((y, l) ∷ inp)
]

abbrev pub after_sb : Bytes → Telnet → Option Input → Round
after_sb out t none = stop out true t []
after_sb out t (some inp) = again out t inp

abbrev pub option_byte : ℕ → Bytes → Telnet → Input → Round
option_byte cmd out t [] = stop out true t []
option_byte cmd out t ((opt, _) ∷ inp) = again out (negotiate cmd opt t) inp

-- Behind an IAC.
unfoldable pub command : Bytes → Telnet → Input → Round
unfolding skip_sb negotiate
command out t [] = stop out true t []
command out t ((cmd, _) ∷ inp) =
    if cmd == iac
    then again (out ++ iac ∷ []) t inp
    else if cmd == sb
    then after_sb out t (skip_sb inp)
    else option_byte cmd out t inp

unfoldable pub round : Bytes → Telnet → Input → Round
unfolding command data_byte
round out t [] = stop out (is_nil out) t []
round out t ((b, last) ∷ inp) =
    if b == iac
    then command out t inp
    else if t.pending_cr && eats b
    then again out (record t { pending_cr = false }) inp
    else data_byte out t b last inp

-- What `Read` returns, with the state and the input it leaves.
pub record Got : Type 0 where
  pub payload : Bytes
  pub failed : Bool
  pub telnet : Telnet
  pub rest : Input

-- `for n < len(p)`; `none` means that the rounds ran out.
unfoldable pub read_loop : ℕ → ℕ → Bytes → Telnet → Input → Option Got
read_loop zero room out t inp = none
read_loop (suc fuel) room out t inp = elim (leb room (length out)) [
  | true ↦ some (record { payload = out; failed = false; telnet = t; rest = inp })
  | false ↦ elim (round out t inp) [
    | again out' t' inp' ↦ read_loop fuel room out' t' inp'
    | stop out' failed t' inp' ↦
        some (record { payload = out'; failed = failed; telnet = t'; rest = inp' })
  ]
]

-- `Read` into a buffer of `room` bytes: one round more than there are bytes to come is enough.
unfoldable pub read : ℕ → Telnet → Input → Option Got
read room t inp = read_loop (length inp + 1) room [] t inp

-- The bytes that `Write` passes on.
unfoldable pub escape : Bytes → Bytes
escape [] = []
escape (b ∷ p) = b ∷ (if b == iac then iac ∷ escape p else escape p)

-- `Write`: nothing is sent for an empty slice.
unfoldable pub write : Bytes → Telnet → Telnet
unfolding escape
write [] t = t
write (b ∷ p) t = record t { sent = t.sent ++ escape (b ∷ p) }

-- `Close`; the second part says whether the connection below is closed by this call.
unfoldable pub close : Telnet → Telnet × Bool
close t = if t.closed then (t, false) else (record t { closed = true }, true)
