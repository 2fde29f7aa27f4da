-- ===== src/Telsrv/Pool.antt =====
-- internal/telsrv/server.go: the pool of nodes that telnet, telnets, WSS and SSH share. The pool's
-- mutex makes `AcquireNode` and `ReleaseNode` single steps.
pub mod Ownership
use ele_bbs_go.Base.{ℕ, Bool, true, false, leb, ◌==◌, if◌then◌else◌}
use ele_bbs_go.Online.FirstFree.{Nodes, first_free}
use ele_bbs_go.Cfgrec.TelnetCfg.{TelnetCfg}
use ele_bbs_go.Base.Int.{ℤ, pos, ltb_ℤ}

abbrev pub assign : Nodes → ℕ → Bool → Nodes
assign f k v j = if j == k then v else f j

-- The session limit: 10 where none is set.
unfoldable pub sessions : TelnetCfg → ℤ
sessions tn = if ltb_ℤ (pos 0) tn.max_sessions then tn.max_sessions else pos 10

-- `AcquireNode`: the node, 0 for none, and the pool after it.
unfoldable pub acquire_node : TelnetCfg → Nodes → ℕ × Nodes
acquire_node tn in_use =
    let node = first_free tn.start_node_with (sessions tn) in_use in
    (node, if node == 0 then in_use else assign in_use node true)

-- `ReleaseNode`.
unfoldable pub release_node : ℕ → Nodes → Nodes
release_node node in_use = assign in_use node false
