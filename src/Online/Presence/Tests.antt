-- ===== src/Online/Presence/Tests.antt =====
-- A caller on line at node 2.
use ele_bbs_go.Base.{◌+◌, ◌≡◌, refl, true, false, [], ◌∷◌, some, arith, get_elem?, replicate}
use ele_bbs_go.Base.Int.{pos}
use ele_bbs_go.Pascal.Cp437.{rune_of}
use ele_bbs_go.Pascal.Text.{trim, trim_right}
use ele_bbs_go.Cfgrec.Tests.{caller}
use ele_bbs_go.Online.EmptyNode.{hole_at}
use ele_bbs_go.Online.Useron.RoundTrip.{FitsRecord}
use ele_bbs_go.Online.Useron.Slots.{read_slot}
use ele_bbs_go.Online.Presence.{Line, shown_record, write, kill, read_all}
use ele_bbs_go.Online.Presence.Listing.{get_elem?-read_all}
use ele_bbs_go.Online.Presence.Shown.{write-hole_at, kill-hole_at}

abbrev on_two : Line
on_two = record { user = caller; ra_node_nr = pos 2; baud = 65529 }

on_two-FitsRecord :
    FitsRecord (shown_record (pos 1700000000) on_two (b'A' ∷ b'_' ∷ b'B' ∷ []) (pos 0))
unfolding shown_record trim_right rune_of
on_two-FitsRecord = record {
  name = record {
    short = omega arith;
    has_bytes =
        ((66, omega arith, refl), ((111, omega arith, refl), ((98, omega arith, refl), tt)));
    no_nul_end = refl;
  };
  handle = record { short = omega arith; has_bytes = tt; no_nul_end = refl };
  baud = omega arith;
  city = record { short = omega arith; has_bytes = tt; no_nul_end = refl };
  stat_desc = record {
    short = omega arith;
    has_bytes = ((65, omega arith, refl), ((32, omega arith, refl), ((66, omega arith, refl), tt)));
    no_nul_end = refl;
  };
  no_calls = omega arith;
  node_number = omega arith;
  last_update = omega arith;
}

get_elem?-read_all_example :
    get_elem? (read_all (some (replicate 500 1))) 1 ≡ read_slot (1 + 1) (replicate 500 1)
get_elem?-read_all_example = get_elem?-read_all (replicate 500 1) 1

write-hole_at_example :
    hole_at (write (pos 1700000000) (some on_two) (b'A' ∷ b'_' ∷ b'B' ∷ []) (pos 0) []) 1 ≡ false
unfolding trim
write-hole_at_example =
    write-hole_at (pos 1700000000) on_two (b'A' ∷ b'_' ∷ b'B' ∷ []) (pos 0) [] refl (omega arith)
      on_two-FitsRecord

kill-hole_at_example : hole_at (kill (some on_two) (replicate 500 1)) 1 ≡ true
kill-hole_at_example = kill-hole_at on_two (replicate 500 1) (omega arith)
