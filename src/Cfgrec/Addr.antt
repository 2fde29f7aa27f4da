-- ===== src/Cfgrec/Addr.antt =====
-- internal/cfgrec/types.go: FidoNet addresses as text.
pub mod RoundTrip
use ele_bbs_go.Base.{
  is_nil, ℕ, ◌%◌, Bool, true, false, ◌&&◌, List, [], ◌∷◌, ◌++◌, Bytes, ◌==◌, if◌then◌else◌,
}
use ele_bbs_go.Base.Int.{ℤ, to_u16}
use ele_bbs_go.Base.Decimal.{itoa, atoi, is_digit}

pub record Addr : Type 0 where
  pub zone : ℕ
  pub net : ℕ
  pub node : ℕ
  pub point : ℕ

-- `String`.
unfoldable pub string : Addr → Bytes
string a =
    let s = itoa a.zone ++ b':' ∷ (itoa a.net ++ b'/' ∷ itoa a.node) in
    if a.point == 0 then s else s ++ b'.' ∷ itoa a.point

-- `IsZero`.
unfoldable pub is_zero : Addr → Bool
is_zero a = a.zone == 0 && a.net == 0 && a.node == 0 && a.point == 0

pub data Next : Type 0 where
  n_net : Next
  n_node : Next
  n_point : Next

-- The variables of the loop of `ParseAddr`.
pub record Parse : Type 0 where
  pub addr : Addr
  pub next : Next
  pub num : Bytes

-- `val()`, with the reset of `num` left to its callers.
abbrev pub val : Bytes → ℕ
val num = to_u16 (atoi num)

-- The switch on one byte.
unfoldable pub round : ℕ → Parse → Parse
round c p =
    if is_digit c
    then record p { num = p.num ++ c ∷ [] }
    else if c == b':'
    then (if is_nil p.num
        then record p { addr = record p.addr { point = 0 }; next = n_net }
        else record {
          addr = record p.addr { zone = val p.num; point = 0 };
          next = n_net;
          num = [];
        })
    else if c == b'/'
    then (if is_nil p.num
        then record p { addr = record p.addr { point = 0 }; next = n_node }
        else record {
          addr = record p.addr { net = val p.num; point = 0 };
          next = n_node;
          num = [];
        })
    else if c == b'.'
    then (if is_nil p.num then record p { next = n_point } else record {
      addr = record p.addr { node = val p.num; point = 0 };
      next = n_point;
      num = [];
    })
    else p

unfoldable pub parse_loop : Bytes → Parse → Parse
unfolding round
parse_loop [] p = p
parse_loop (c ∷ s) p = parse_loop s (round c p)

-- The switch behind the loop.
abbrev pub finish : Next → Addr → Bytes → Addr
finish n_net a num = record a { net = val num; point = 0 }
finish n_node a num = record a { node = val num; point = 0 }
finish n_point a num = record a { point = val num }

unfoldable pub parse_addr : Bytes → Addr → Addr
unfolding parse_loop
parse_addr [] def = def
parse_addr (c ∷ s) def =
    let p = parse_loop (c ∷ s) (record { addr = def; next = n_node; num = [] }) in
    finish p.next p.addr p.num
