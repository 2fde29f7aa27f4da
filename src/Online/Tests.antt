-- ===== src/Online/Tests.antt =====
-- Nodes and their records.
use ele_bbs_go.Base.{ℕ, false, ◌≤◌, ◌≡◌, refl, ◌||◌, [], ◌∷◌, some, arith, ◌==◌, replicate}
use ele_bbs_go.Base.Int.{pos, negsuc}
use ele_bbs_go.Pascal.Text.{trim_right}
use ele_bbs_go.Pascal.Text.ShortString.{FitsString}
use ele_bbs_go.Online.FirstFree.{
  Nodes, first_free, first_node, last_node, IsLowestFree, first_free-IsLowestFree,
}
use ele_bbs_go.Online.Useron.{Record}
use ele_bbs_go.Online.EmptyNode.{start_of, empty_node_nr, IsFreeSlot, empty_node_nr-IsFreeSlot}
use ele_bbs_go.Online.Useron.RoundTrip.{FitsRecord}
use ele_bbs_go.Online.Useron.Slots.{read_slot, write_slot, read_slot-write_slot}

abbrev first_two : Nodes
first_two n = n == 1 || n == 2

first_free-IsLowestFree_example :
    IsLowestFree
      (first_node (pos 0))
      (last_node (pos 0) (pos 3))
      first_two
      (first_free (pos 0) (pos 3) first_two)
    × (last_node (pos 0) (pos 3) ≤ 255)
    × (1 ≤ first_node (pos 0))
first_free-IsLowestFree_example = first_free-IsLowestFree (pos 0) (pos 3) first_two

abbrev caller : Record
caller = record {
  name = [];
  handle = [];
  line = 2;
  baud = 65529;
  city = [];
  status = 1;
  attribute = 0;
  stat_desc = [];
  no_calls = 7;
  node_number = pos 2;
  last_update = negsuc 0;
}

none-FitsString : (n : ℕ) → FitsString n []
unfolding trim_right
none-FitsString n = record { short = omega arith; has_bytes = tt; no_nul_end = refl }

caller-FitsRecord : FitsRecord caller
caller-FitsRecord = record {
  name = none-FitsString _;
  handle = none-FitsString _;
  baud = omega arith;
  city = none-FitsString _;
  stat_desc = none-FitsString _;
  no_calls = omega arith;
  node_number = omega arith;
  last_update = omega arith;
}

read_slot-write_slot_example : read_slot 3 (write_slot 3 caller (5 ∷ [])) ≡ some caller
read_slot-write_slot_example =
    read_slot-write_slot 3 caller (5 ∷ []) (omega arith) caller-FitsRecord

empty_node_nr-IsFreeSlot_example :
    IsFreeSlot (replicate 300 0) (start_of false) (empty_node_nr (some (replicate 300 0)) false)
empty_node_nr-IsFreeSlot_example = empty_node_nr-IsFreeSlot (replicate 300 0) false
