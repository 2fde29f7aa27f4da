-- ===== src/Cfgrec/Addr/RoundTrip.antt =====
-- An address that is printed is read back.
use ele_bbs_go.Base.{
  ℕ, ◌<◌, ◌≡◌, refl, sym, ap, ◌∙◌, inl, inr, true, [], ◌∷◌, ◌++◌, append_assoc, append-nil, arith,
  Bytes, ◌==◌, ==_iff, Bool-cases,
}
use ele_bbs_go.Base.Decimal.{itoa, is_digit, Digits, itoa-cons, itoa-Digits, atoi-itoa}
use ele_bbs_go.Cfgrec.Addr.{
  Addr, string, Next, n_net, n_node, n_point, Parse, val, round, parse_loop, finish, parse_addr,
}

-- Four 16-bit numbers.
pub record FitsAddr (a : Addr) : Type 0 where
  pub zone : a.zone < 65536
  pub net : a.net < 65536
  pub node : a.node < 65536
  pub point : a.point < 65536

loop-Digits :
    (s t : Bytes) (p : Parse)
    → Digits s
    → parse_loop (s ++ t) p ≡ parse_loop t (record p { num = p.num ++ s })
unfolding parse_loop
loop-Digits [] t p h =
    ap (λ (n : Bytes). parse_loop t (record p { num = n })) (sym (append-nil p.num))
loop-Digits (c ∷ s) t p h =
    ap (parse_loop (s ++ t)) (digit (unfold Digits in h.0))
    ∙ loop-Digits s t (record p { num = p.num ++ c ∷ [] }) (unfold Digits in h.1)
    ∙ ap (λ (n : Bytes). parse_loop t (record p { num = n })) (append_assoc p.num (c ∷ []) s)
  where
    digit : is_digit c ≡ true → round c p ≡ record p { num = p.num ++ c ∷ [] }
    digit e = unfold round in rw e refl

val-itoa : (n : ℕ) → n < 65536 → val (itoa n) ≡ n
val-itoa n h = rw (atoi-itoa n (omega arith)) (omega arith)

-- A number, then a mark.
loop-number :
    (n m : ℕ) (t : Bytes) (a : Addr) (next : Next)
    → parse_loop (itoa n ++ m ∷ t) (record { addr = a; next = next; num = [] })
      ≡ parse_loop t (round m (record { addr = a; next = next; num = itoa n }))
unfolding parse_loop
loop-number n m t a next =
    loop-Digits (itoa n) (m ∷ t) (record { addr = a; next = next; num = [] }) (itoa-Digits n)

loop_last :
    (n : ℕ) (a : Addr) (next : Next)
    → parse_loop (itoa n) (record { addr = a; next = next; num = [] })
      ≡ record { addr = a; next = next; num = itoa n }
unfolding parse_loop
loop_last n a next =
    ap (λ (s : Bytes). parse_loop s (record { addr = a; next = next; num = [] }))
      (sym (append-nil (itoa n)))
    ∙ loop-Digits (itoa n) [] (record { addr = a; next = next; num = [] }) (itoa-Digits n)

round_zone :
    (n : ℕ) (a : Addr) (next : Next)
    → n < 65536
    → round b':' (record { addr = a; next = next; num = itoa n })
      ≡ record { addr = record a { zone = n; point = 0 }; next = n_net; num = [] }
unfolding round
round_zone n a next h = let (c, s, e) = itoa-cons n in rw (val-itoa n h) (rw e refl)

round_net :
    (n : ℕ) (a : Addr) (next : Next)
    → n < 65536
    → round b'/' (record { addr = a; next = next; num = itoa n })
      ≡ record { addr = record a { net = n; point = 0 }; next = n_node; num = [] }
unfolding round
round_net n a next h = let (c, s, e) = itoa-cons n in rw (val-itoa n h) (rw e refl)

round_node :
    (n : ℕ) (a : Addr) (next : Next)
    → n < 65536
    → round b'.' (record { addr = a; next = next; num = itoa n })
      ≡ record { addr = record a { node = n; point = 0 }; next = n_point; num = [] }
unfolding round
round_node n a next h = let (c, s, e) = itoa-cons n in rw (val-itoa n h) (rw e refl)

abbrev outcome : Parse → Addr
outcome p = finish p.next p.addr p.num

parse_addr_number :
    (n : ℕ) (t : Bytes) (def : Addr)
    → parse_addr (itoa n ++ t) def
      ≡ outcome (parse_loop (itoa n ++ t) (record { addr = def; next = n_node; num = [] }))
unfolding parse_addr
parse_addr_number n t def = let (c, s, e) = itoa-cons n in rw e refl

three_numbers :
    (a def : Addr) (t : Bytes)
    → FitsAddr a
    → parse_loop
        (itoa a.zone ++ b':' ∷ (itoa a.net ++ b'/' ∷ (itoa a.node ++ t)))
        (record { addr = def; next = n_node; num = [] })
      ≡ parse_loop (itoa a.node ++ t) (record {
        addr = record { zone = a.zone; net = a.net; node = def.node; point = 0 };
        next = n_node;
        num = [];
      })
three_numbers a def t h =
    let rest = itoa a.net ++ b'/' ∷ (itoa a.node ++ t) in
    loop-number a.zone b':' rest def n_node
    ∙ ap (parse_loop rest) (round_zone a.zone def n_node h.zone)
    ∙ loop-number a.net b'/' (itoa a.node ++ t) (record def { zone = a.zone; point = 0 }) n_net
    ∙ ap (parse_loop (itoa a.node ++ t))
        (round_net a.net (record def { zone = a.zone; point = 0 }) n_net h.net)

-- An address of four 16-bit numbers is read back from its text, whatever address supplies the
-- missing parts: with a point of 0 the text has no point, and reading it clears the point.
pub parse_addr-string : (a def : Addr) → FitsAddr a → parse_addr (string a) def ≡ a
unfolding string
parse_addr-string a def h = elim (Bool-cases (a.point == 0)) [
  | inl e ↦
      let b : Addr = record { zone = a.zone; net = a.net; node = def.node; point = 0 } in
      rw e (
        parse_addr_number a.zone (b':' ∷ (itoa a.net ++ b'/' ∷ itoa a.node)) def
        ∙ ap outcome (
            ap (λ (n : Bytes). parse_loop (itoa a.zone ++ b':' ∷ (itoa a.net ++ b'/' ∷ n)) start)
              (sym (append-nil (itoa a.node)))
            ∙ three_numbers a def [] h
            ∙ ap (λ (n : Bytes). parse_loop n (record { addr = b; next = n_node; num = [] }))
                (append-nil (itoa a.node))
            ∙ loop_last a.node b n_node)
        ∙ rw (val-itoa a.node h.node) (ap (with_point a) (sym ((==_iff a.point 0).0 e))))
  | inr e ↦
      let b : Addr = record { zone = a.zone; net = a.net; node = def.node; point = 0 } in
      let c : Addr = record { zone = a.zone; net = a.net; node = a.node; point = 0 } in
      rw e (
        ap (λ (s : Bytes). parse_addr s def) whole
        ∙ parse_addr_number a.zone _ def
        ∙ ap outcome (
            three_numbers a def (b'.' ∷ itoa a.point) h
            ∙ loop-number a.node b'.' (itoa a.point) b n_node
            ∙ ap (parse_loop (itoa a.point)) (round_node a.node b n_node h.node)
            ∙ loop_last a.point c n_point)
        ∙ rw (val-itoa a.point h.point) refl)
]
  where
    start : Parse
    start = record { addr = def; next = n_node; num = [] }

    with_point : Addr → ℕ → Addr
    with_point x p = record x { point = p }

    whole :
        (itoa a.zone ++ b':' ∷ (itoa a.net ++ b'/' ∷ itoa a.node)) ++ b'.' ∷ itoa a.point
        ≡ itoa a.zone ++ b':' ∷ (itoa a.net ++ b'/' ∷ (itoa a.node ++ b'.' ∷ itoa a.point))
    whole = simp append_assoc
