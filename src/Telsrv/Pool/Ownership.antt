-- ===== src/Telsrv/Pool/Ownership.antt =====
-- Callers and their nodes: the pool at work, as the servers' goroutines use it.
use ele_bbs_go.Base.{
  ℕ, ◌+◌, ◌≤◌, ◌≡◌, ◌≢◌, refl, inl, inr, Bool, true, false, List, [], ◌∷◌, ◌++◌, arith, leb, ◌==◌,
  if◌then◌else◌, Bool-cases, leb→le, leb_false→lt,
}
use ele_bbs_go.Online.FirstFree.{Nodes, first_free, first_node, last_node, first_free-IsLowestFree}
use ele_bbs_go.Cfgrec.TelnetCfg.{TelnetCfg}
use ele_bbs_go.Telsrv.Pool.{assign, sessions, acquire_node, release_node}

-- The nodes in use, and the nodes that the connected callers hold.
pub record Servers : Type 0 where
  pub in_use : Nodes
  pub held : List ℕ

-- The body of a connection's goroutine in `listen`: it takes a node or sends BUSY, and gives the
-- node back when the session ends. Connections come and go in any order.
pub data Step : Servers → Servers → Type 0 where
  connect :
      (s : Servers) (tn : TelnetCfg)
      → (acquire_node tn s.in_use).0 ≢ 0
      → Step s (record {
        in_use = (acquire_node tn s.in_use).1;
        held = (acquire_node tn s.in_use).0 ∷ s.held;
      })
  busy :
      (s : Servers) (tn : TelnetCfg)
      → (acquire_node tn s.in_use).0 ≡ 0
      → Step s (record { in_use = (acquire_node tn s.in_use).1; held = s.held })
  leave :
      (in_use : Nodes) (before after : List ℕ) (node : ℕ)
      → Step
          (record { in_use = in_use; held = before ++ (node ∷ after) })
          (record { in_use = release_node node in_use; held = before ++ after })

pub data Reach (s : Servers) : Servers → Type 0 where
  here : Reach s s
  next : {t u : Servers} → Reach s t → Step t u → Reach s u

-- How often a node is held.
pub count : ℕ → List ℕ → ℕ
count n [] = 0
count n (m ∷ l) = (if n == m then 1 else 0) + count n l

count-append : (n : ℕ) (xs ys : List ℕ) → count n (xs ++ ys) ≡ count n xs + count n ys
unfolding count
count-append n [] ys = omega arith
count-append n (x ∷ xs) ys = omega (arith, count-append n xs ys)

-- Each node in use is held by one caller, and no other node is held.
abbrev pub IsOwned : Servers → Type 0
IsOwned s = (n : ℕ) → count n s.held ≡ (if s.in_use n then 1 else 0)

abbrev pub no_callers : Servers
no_callers = record { in_use = λ _. false; held = [] }

acquired_free :
    (tn : TelnetCfg) (in_use : Nodes)
    → (acquire_node tn in_use).0 ≢ 0
    → in_use (acquire_node tn in_use).0 ≡ false
unfolding acquire_node
acquired_free tn in_use h =
    (first_free-IsLowestFree tn.start_node_with (sessions tn) in_use).0.free h

acquired_pool :
    (tn : TelnetCfg) (in_use : Nodes)
    → (acquire_node tn in_use).1 ≡ (
        if (acquire_node tn in_use).0 == 0
        then in_use
        else assign in_use (acquire_node tn in_use).0 true)
unfolding acquire_node
acquired_pool tn in_use = refl

Step-IsOwned : {s t : Servers} → Step s t → IsOwned s → IsOwned t
unfolding count release_node
Step-IsOwned (connect s tn h) o n =
    rw (acquired_pool tn s.in_use) (ground (arith, o n, acquired_free tn s.in_use h))
Step-IsOwned (busy s tn h) o n = rw (acquired_pool tn s.in_use) (ground (arith, o n))
Step-IsOwned (leave in_use before after node) o n = ground (
  arith,
  o n,
  o node,
  count-append n before after,
  count-append n before (node ∷ after),
  count-append node before (node ∷ after),
)

Reach-IsOwned : {s t : Servers} → IsOwned s → Reach s t → IsOwned t
Reach-IsOwned o here = o
Reach-IsOwned o (next r st) = Step-IsOwned st (Reach-IsOwned o r)

start_IsOwned : IsOwned no_callers
unfolding count
start_IsOwned n = refl

-- However callers come and go, from a start with no callers, the nodes in use are the nodes held,
-- and no node is held by two callers.
pub Reach-count-le :
    {t : Servers} (n : ℕ)
    → Reach no_callers t
    → (count n t.held ≡ (if t.in_use n then 1 else 0)) × (count n t.held ≤ 1)
Reach-count-le {t} n r =
    let o : count n t.held ≡ (if t.in_use n then 1 else 0) = Reach-IsOwned start_IsOwned r n in
    (o, ground arith)

-- A released node of the range can be had again: right after a release, no caller is told BUSY.
pub acquire_node-release_node :
    (tn : TelnetCfg) (in_use : Nodes) (node : ℕ)
    → first_node tn.start_node_with ≤ node
    → node ≤ last_node tn.start_node_with (sessions tn)
    → ((acquire_node tn (release_node node in_use)).0 ≢ 0)
      × ((acquire_node tn (release_node node in_use)).0 ≤ node)
unfolding acquire_node
acquire_node-release_node tn in_use node lo hi =
    let freed = release_node node in_use in
    let spec = (first_free-IsLowestFree tn.start_node_with (sessions tn) freed).0 in
    let n = first_free tn.start_node_with (sessions tn) freed in
    let is_free : freed node ≡ false = unfold release_node in assigned in_use node in
    let some_node : n ≢ 0 = λ z. not_both (spec.all_taken z node lo hi) is_free in
    (
      some_node,
      elim (Bool-cases (leb n node)) [
        | inl e ↦ leb→le n node e
        | inr e ↦ absurd (not_both (spec.lowest some_node node lo (leb_false→lt n node e)) is_free)
      ],
    )
  where
    not_both : {b : Bool} → b ≡ true → b ≡ false → ⊥
    not_both p q = cc

    assigned : (f : Nodes) (k : ℕ) → assign f k false k ≡ false
    assigned f k = ground arith
