-- ===== src/Online/FirstFree.antt =====
-- internal/online/useron.go, `FirstFree`: the lowest unused node. The map of the nodes in use is a
-- function; a missing key reads as false. Go's `int` is
-- taken as wide enough for the sum of two `int32`, as it is where it has 64 bits.
use ele_bbs_go.Base.{
  ℕ, zero, suc, ◌+◌, ◌-◌, ◌≤◌, ◌<◌, ◌≡◌, ◌≢◌, refl, inl, inr, Bool, true, false, arith, ltb, ◌==◌,
  if◌then◌else◌, Bool-cases,
}
use ele_bbs_go.Base.Int.{ℤ, pos, pos_part, ltb_ℤ}

abbrev pub Nodes : Type 0
Nodes = ℕ → Bool

-- The loop from `n` on, for a number of rounds.
unfoldable pub search_from : ℕ → ℕ → Nodes → ℕ
search_from zero n in_use = 0
search_from (suc rounds) n in_use = if in_use n then search_from rounds (n + 1) in_use else n

-- The first and the last node that the loop tries.
unfoldable pub first_node : ℤ → ℕ
first_node start = if ltb_ℤ start (pos 1) then 1 else pos_part start

unfoldable pub last_node : ℤ → ℤ → ℕ
last_node start max_sessions =
    let end =
      first_node start + (if ltb_ℤ max_sessions (pos 1) then 1 else pos_part max_sessions) - 1 in
    if ltb 255 end then 255 else end

unfoldable pub first_free : ℤ → ℤ → Nodes → ℕ
unfolding search_from
first_free start max_sessions in_use =
    search_from (last_node start max_sessions + 1 - first_node start) (first_node start) in_use

-- What `FirstFree` promises over the nodes `lo` to `hi`.
pub record IsLowestFree (lo hi : ℕ) (in_use : Nodes) (n : ℕ) : Type 0 where
  pub inside : n ≢ 0 → (lo ≤ n) × (n ≤ hi)
  pub free : n ≢ 0 → in_use n ≡ false
  pub lowest : n ≢ 0 → (k : ℕ) → lo ≤ k → k < n → in_use k ≡ true
  pub all_taken : n ≡ 0 → (k : ℕ) → lo ≤ k → k ≤ hi → in_use k ≡ true

search_from-IsLowestFree :
    (rounds lo hi : ℕ) (in_use : Nodes)
    → 0 < lo
    → rounds ≡ hi + 1 - lo
    → IsLowestFree lo hi in_use (search_from rounds lo in_use)
unfolding search_from
search_from-IsLowestFree zero lo hi in_use lo_pos r = record {
  inside = λ h. absurd (h refl);
  free = λ h. absurd (h refl);
  lowest = λ h. absurd (h refl);
  all_taken = λ h k a b. absurd (omega arith);
}
search_from-IsLowestFree (suc rounds) lo hi in_use lo_pos r = elim (Bool-cases (in_use lo)) [
  | inr e ↦ rw e (record {
    inside = λ h. (omega arith, omega arith);
    free = λ h. e;
    lowest = λ h k a b. absurd (omega arith);
    all_taken = λ h k a b. absurd (omega arith);
  })
  | inl e ↦
      let ih = search_from-IsLowestFree rounds (lo + 1) hi in_use (omega arith) (omega arith) in
      rw e (record {
        inside = λ h. (omega (arith, (ih.inside h).0), (ih.inside h).1);
        free = ih.free;
        lowest = λ h k a b. below k e (λ c. ih.lowest h k c b) a;
        all_taken = λ h k a b. below k e (λ c. ih.all_taken h k c b) a;
      })
]
  where
    below : (k : ℕ) → in_use lo ≡ true → (lo + 1 ≤ k → in_use k ≡ true) → lo ≤ k → in_use k ≡ true
    below k e later a = elim (Bool-cases (k == lo)) [
      | inl y ↦ ground arith
      | inr n ↦ later (ground arith)
    ]

-- `FirstFree` gives the lowest node of the range that is not in use, and 0 exactly where the whole
-- range is in use; the range never goes past node 255.
pub first_free-IsLowestFree :
    (start max_sessions : ℤ) (in_use : Nodes)
    → IsLowestFree
        (first_node start)
        (last_node start max_sessions)
        in_use
        (first_free start max_sessions in_use)
      × (last_node start max_sessions ≤ 255)
      × (1 ≤ first_node start)
unfolding first_free
first_free-IsLowestFree start max_sessions in_use = (
  search_from-IsLowestFree _ (first_node start) (last_node start max_sessions) in_use
      (unfold first_node in ground arith) refl,
  unfold last_node in ground arith,
  unfold first_node in ground arith,
)
