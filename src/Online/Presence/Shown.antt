-- ===== src/Online/Presence/Shown.antt =====
-- internal/online/useron.go: `Write` and `Kill` as `EmptyNodeNr` sees them.
use ele_bbs_go.Base.{
  ℕ, ◌+◌, ◌*◌, ◌-◌, ◌≤◌, ◌<◌, ◌≡◌, refl, ap, ◌∙◌, inl, inr, Bool, ◌&&◌, none, if◌then◌else◌, true,
  false, [], some, arith, Bytes, ltb, length, take, drop, Bool-cases, le→ltb_false,
}
use ele_bbs_go.Base.Int.{from_u32, to_u32, from_u32-to_u32, ℤ, pos, negsuc, ltb_ℤ, pos_part}
use ele_bbs_go.Pascal.Cp437.{Text}
use ele_bbs_go.Pascal.Text.{trim, trim_right}
use ele_bbs_go.Pascal.Text.ShortString.{FitsString}
use ele_bbs_go.Online.Useron.{Record, decode}
use ele_bbs_go.Online.Useron.RoundTrip.{FitsRecord}
use ele_bbs_go.Online.Useron.Slots.{read_slot, write_slot, read_slot-write_slot}
use ele_bbs_go.Online.EmptyNode.{is_none, is_hole, hole_at}
use ele_bbs_go.Online.Presence.{
  Line, node_of, shown_record, is_blank_name, write, empty_record, kill,
}

-- The test of a slot is the test of the record that is read from it.
read_slot-hole_at :
    (node : ℕ) (b : Bytes) (r : Record)
    → read_slot node b ≡ some r
    → hole_at b (node - 1) ≡ is_hole r
unfolding read_slot hole_at
read_slot-hole_at node b r e = elim (Bool-cases (ltb node 1)) [
  | inl h ↦ absurd (no (rw h at e))
  | inr h ↦ by_end (rw h at e)
]
  where
    no : {x : Record} → none ≡ some x → ⊥
    no q = cc

    inj : {x y : Record} → some x ≡ some y → x ≡ y
    inj q = cc

    by_end :
        (if ltb (length b) ((node - 1) * 214 + 214)
            then none
            else some (decode (take 214 (drop ((node - 1) * 214) b))))
          ≡ some r
        → is_hole (decode (take 214 (drop ((node - 1) * 214) b))) ≡ is_hole r
    by_end q = elim (Bool-cases (ltb (length b) ((node - 1) * 214 + 214))) [
      | inl h ↦ absurd (no (rw h at q))
      | inr h ↦ ap is_hole (inj (rw h at q))
    ]

nothing-FitsString : (n : ℕ) → FitsString n []
unfolding trim_right
nothing-FitsString n = record { short = omega arith; has_bytes = tt; no_nul_end = refl }

empty_record-FitsRecord : FitsRecord empty_record
empty_record-FitsRecord = record {
  name = nothing-FitsString _;
  handle = nothing-FitsString _;
  baud = omega arith;
  city = nothing-FitsString _;
  stat_desc = nothing-FitsString _;
  no_calls = omega arith;
  node_number = omega arith;
  last_update = omega arith;
}

-- A caller who goes leaves a hole in the slot of the node, whatever the file held.
pub kill-hole_at :
    (l : Line) (b : Bytes)
    → 1 ≤ pos_part l.ra_node_nr
    → hole_at (kill (some l) b) (node_of l - 1) ≡ true
unfolding kill is_hole trim
kill-hole_at l b valid = by_sign l.ra_node_nr valid
  where
    by_sign :
        (n : ℤ)
        → 1 ≤ pos_part n
        → hole_at
            (if ltb_ℤ n (pos 1) then b else write_slot (pos_part n) empty_record b)
            ((if ltb_ℤ n (pos 1) then 1 else pos_part n) - 1)
          ≡ true
    by_sign (negsuc n) h = absurd (omega (arith, h))
    by_sign (pos n) h =
        let on : ltb_ℤ (pos n) (pos 1) ≡ false = le→ltb_false _ _ (omega (arith, h)) in
        rw on (
          read_slot-hole_at n (write_slot n empty_record b) empty_record
            (read_slot-write_slot n empty_record b h empty_record-FitsRecord)
          ∙ refl)

-- A caller with a name who comes on line takes the slot of the node: it is no hole afterwards, where
-- the record fits its places and the node's number is a 32-bit one.
pub write-hole_at :
    (now : ℤ) (l : Line) (stat_desc : Text) (status : ℤ) (b : Bytes)
    → is_blank_name l.user.name ≡ false
    → node_of l < 2147483648
    → FitsRecord (shown_record now l stat_desc status)
    → hole_at (write now (some l) stat_desc status b) (node_of l - 1) ≡ false
unfolding write
write-hole_at now l stat_desc status b named small fits = rw named (
    read_slot-hole_at (node_of l) (write_slot (node_of l) (shown_record now l stat_desc status) b)
      (shown_record now l stat_desc status)
      (read_slot-write_slot (node_of l) (shown_record now l stat_desc status) b valid fits)
    ∙ no_hole)
  where
    valid : 1 ≤ node_of l
    valid = ground arith

    no_hole : is_hole (shown_record now l stat_desc status) ≡ false
    no_hole =
        unfold is_hole shown_record in rw (named, numbered (node_of l) valid small) (and_false _)
      where
        and_false : (x : Bool) → x && false ≡ false
        and_false true = refl
        and_false false = refl

        numbered : (n : ℕ) → 1 ≤ n → n < 2147483648 → is_none (from_u32 (to_u32 (pos n))) ≡ false
        numbered n v s = rw (from_u32-to_u32 (pos n) s) (ground arith)
