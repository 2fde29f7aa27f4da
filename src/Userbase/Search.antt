-- ===== src/Userbase/Search.antt =====
-- internal/userbase/users.go: whom `Search` finds.
use ele_bbs_go.Base.{
  is_nil, ℕ, zero, suc, ◌+◌, ◌*◌, ◌/◌, ◌≤◌, ◌<◌, ◌≡◌, refl, sym, ap, ◌∙◌, true, false, inl, inr,
  ◌⊎◌, Option, none, some, arith, Bytes, ltb, leb, length, take, drop, Bool-cases, Option-cases,
  leb→le, ltb→lt, ltb_false→le,
}
use ele_bbs_go.Base.Int.{ℤ, pos}
use ele_bbs_go.Pascal.Cp437.{Text}
use ele_bbs_go.Cfgrec.User.{User, parse_user}
use ele_bbs_go.Userbase.{
  UserFiles, fold_name, name_matches, is_wanted, read, wanted_of, or_user, idx_has, index_loop,
  scan_loop, search_index, search,
}

-- A record of the file, as its number says.
abbrev pub user_at : Bytes → ℕ → User
user_at raw k = parse_user (take 1016 (drop (k * 1016) raw)) (pos k)

-- A whole record of the file that `Search` may give.
pub record IsUserOf (raw : Bytes) (query : Text) (u : User) : Type 0 where
  pub number : ℕ
  pub whole : number * 1016 + 1016 ≤ length raw
  pub is_record : user_at raw number ≡ u
  pub wanted : is_wanted query u ≡ true

no_wanted : false ≡ true → ⊥
no_wanted q = cc

no_user : {u : User} → none ≡ some u → ⊥
no_user q = cc

some_user : {x y : User} → some x ≡ some y → x ≡ y
some_user q = cc

or_user-some : (a b : Option User) (u : User) → or_user a b ≡ some u → (a ≡ some u) ⊎ (b ≡ some u)
or_user-some none b u e = inr e
or_user-some (some x) b u e = inl e

or_user-none : (a b : Option User) → or_user a b ≡ none → (a ≡ none) × (b ≡ none)
or_user-none none b e = (refl, e)
or_user-none (some x) b e = absurd (no_user (sym e))

module _ (raw : Bytes) (query : Text) where
  wanted_of-some :
      (v u : User) → wanted_of query (some v) ≡ some u → (v ≡ u) × (is_wanted query u ≡ true)
  wanted_of-some v u e = elim (Bool-cases (is_wanted query v)) [
    | inl w ↦
        let same : v ≡ u = some_user (rw w at e) in (same, ap (is_wanted query) (sym same) ∙ w)
    | inr w ↦ absurd (no_user (rw w at e))
  ]

  not_wanted : (v : User) → wanted_of query (some v) ≡ none → is_wanted query v ≡ false
  not_wanted v e = elim (Bool-cases (is_wanted query v)) [
    | inl w ↦ absurd (no_user (sym (rw w at e)))
    | inr w ↦ w
  ]

  -- A name that folds to nothing finds nobody.
  some_query : (u : User) → is_wanted query u ≡ true → is_nil query ≡ false
  unfolding is_wanted name_matches
  some_query u w = ground arith

  read-IsUserOf :
      (n : ℕ) (u : User) → wanted_of query (read (some raw) n) ≡ some u → IsUserOf raw query u
  unfolding read
  read-IsUserOf n u e = elim (Bool-cases (leb (n * 1016 + 1016) (length raw))) [
    | inl p ↦
        let (same, w) = wanted_of-some (user_at raw n) u (rw p at e) in
        record {
          number = n;
          whole = leb→le (n * 1016 + 1016) (length raw) p;
          is_record = same;
          wanted = w;
        }
    | inr p ↦ absurd (no_user (rw p at e))
  ]

  index_loop-IsUserOf :
      (b : Bytes) (crc : ℤ) (n i : ℕ) (u : User)
      → index_loop (some raw) b crc query n i ≡ some u
      → IsUserOf raw query u
  unfolding index_loop
  index_loop-IsUserOf b crc zero i u e = absurd (no_user e)
  index_loop-IsUserOf b crc (suc n) i u e = elim (Bool-cases (idx_has crc i b)) [
    | inl t ↦ elim (or_user-some (wanted_of query (read (some raw) i)) _ u (rw t at e)) [
      | inl q ↦ read-IsUserOf i u q
      | inr q ↦ index_loop-IsUserOf b crc n (suc i) u q
    ]
    | inr t ↦ index_loop-IsUserOf b crc n (suc i) u (rw t at e)
  ]

  scan_loop-IsUserOf :
      (n i : ℕ) (u : User)
      → (i + n) * 1016 ≤ length raw
      → scan_loop raw query n i ≡ some u
      → IsUserOf raw query u
  unfolding scan_loop
  scan_loop-IsUserOf zero i u h e = absurd (no_user e)
  scan_loop-IsUserOf (suc n) i u h e =
      elim (or_user-some (wanted_of query (some (user_at raw i))) _ u e) [
        | inl q ↦
            let (same, w) = wanted_of-some (user_at raw i) u q in
            record { number = i; whole = omega (arith, h); is_record = same; wanted = w }
        | inr q ↦ scan_loop-IsUserOf n (suc i) u (omega (arith, h)) q
      ]

  -- What no round finds is not wanted.
  scan_loop-none :
      (n i k : ℕ)
      → scan_loop raw query n i ≡ none
      → i ≤ k
      → k < i + n
      → is_wanted query (user_at raw k) ≡ false
  unfolding scan_loop
  scan_loop-none zero i k e l r = absurd (omega (arith, l, r))
  scan_loop-none (suc n) i k e l r =
      let (here, there) = or_user-none (wanted_of query (some (user_at raw i))) _ e in
      elim (Bool-cases (ltb i k)) [
        | inl t ↦ scan_loop-none n (suc i) k there (ltb→lt i k t) (omega (arith, r))
        | inr t ↦
            let same : i ≡ k = omega (arith, l, ltb_false→le i k t) in
            ap (λ (j : ℕ). is_wanted query (user_at raw j)) (sym same)
            ∙ not_wanted (user_at raw i) here
      ]

  search_index-IsUserOf :
      (index : Option Bytes) (crc : ℤ) (u : User)
      → search_index (some raw) index crc query ≡ some u
      → IsUserOf raw query u
  search_index-IsUserOf none crc u e = absurd (no_user e)
  search_index-IsUserOf (some b) crc u e = elim (Bool-cases (leb 8 (length b))) [
    | inl t ↦ index_loop-IsUserOf b crc (length b / 8) 0 u (rw t at e)
    | inr t ↦ absurd (no_user (rw t at e))
  ]

abbrev pub over : Bytes → Option Bytes → UserFiles
over raw index = record { users = some raw; index = index }

-- Whom `Search` finds is a user of the file who is not deleted and has the name or the handle.
pub search-IsUserOf :
    (raw : Bytes) (index : Option Bytes) (name : Text) (u : User)
    → search (over raw index) name ≡ some u
    → IsUserOf raw (fold_name name) u
unfolding search
search-IsUserOf raw index name u e = elim (Bool-cases (is_nil (fold_name name))) [
  | inl t ↦ absurd (no_user (rw t at e))
  | inr t ↦ elim (or_user-some (search_index (some raw) index _ (fold_name name)) _ u (rw t at e)) [
    | inl q ↦ search_index-IsUserOf raw (fold_name name) index _ u q
    | inr q ↦ scan_loop-IsUserOf raw (fold_name name) (length raw / 1016) 0 u (omega arith) q
  ]
]

-- If a user of the file is not deleted and has the name or the handle, `Search` finds one, whatever
-- the index says.
pub search-total :
    (raw : Bytes) (index : Option Bytes) (name : Text) (u : User)
    → IsUserOf raw (fold_name name) u
    → (v : User) × (search (over raw index) name ≡ some v)
unfolding search
search-total raw index name u m = elim (Option-cases (search (over raw index) name)) [
  | inr found ↦ found
  | inl e ↦
      let none_scanned =
        (or_user-none (search_index (some raw) index _ (fold_name name)) _
          (rw (some_query raw (fold_name name) u m.wanted) at e)).1 in
      let unwanted =
        scan_loop-none raw (fold_name name) (length raw / 1016) 0 m.number none_scanned
          (omega arith) (omega (arith, m.whole)) in
      absurd (no_wanted (sym unwanted ∙ ap (is_wanted (fold_name name)) m.is_record ∙ m.wanted))
]
