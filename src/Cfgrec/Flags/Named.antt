-- ===== src/Cfgrec/Flags/Named.antt =====
-- The named flags and what a set of flags gives access to.
use ele_bbs_go.Base.Xor.{xor_comm, xor_assoc, xor_undo}
use Prim.Native.Nat.{bit_xor}
use ele_bbs_go.Base.{
  ℕ, zero, suc, ◌^◌, ◌<◌, ◌≡◌, refl, sym, ap, ◌∙◌, ◌↔◌, inl, inr, Bool, true, false, not, ◌&&◌,
  ◌||◌, [], ◌∷◌, Option, none, some, arith, Bytes, ◌==◌, ==_iff, ==_refl, if◌then◌else◌, length,
  get_or, set, all_below, all_below_sound, all_below_complete, All, IsByte, Bool-cases, length-set,
  get_or-set_same, get_or-set_other, set-set_other, set-get_or, All-set, All-get_or,
}
use ele_bbs_go.Cfgrec.Flags.{
  Flag, has_bit, set_bit, bit_access, flag_access, flag_col_row, set_pair, set_named, has_pair,
  has_named, toggle_pair, toggle_named,
}
use ele_bbs_go.Cfgrec.Flags.Bits.{has_bit-set_bit_on, set_bit-lt}

-- What `FlagAccess` checks at one bit.
abbrev pub Grants : Flag → Flag → Flag → ℕ → ℕ → Type 0
Grants user on off col row =
    (has_bit (get_or on col 0) row ≡ true → has_bit (get_or user col 0) row ≡ true)
    × (has_bit (get_or off col 0) row ≡ true → has_bit (get_or user col 0) row ≡ false)

bit_access-Grants :
    (user on off : Flag) (col row : ℕ)
    → (bit_access user on off col row ≡ true) ↔ Grants user on off col row
unfolding bit_access
bit_access-Grants user on off col row =
    table (has_bit (get_or user col 0) row) (has_bit (get_or on col 0) row)
      (has_bit (get_or off col 0) row)
  where
    table :
        (u a b : Bool)
        → ((if a && not u then false else if b && u then false else true) ≡ true)
          ↔ ((a ≡ true → u ≡ true) × (b ≡ true → u ≡ false))
    table true true true = (λ e. cc, λ g. sym (g.1 refl))
    table true true false = (λ e. (λ x. refl, λ x. cc), λ g. refl)
    table true false true = (λ e. cc, λ g. sym (g.1 refl))
    table true false false = (λ e. (λ x. refl, λ x. cc), λ g. refl)
    table false true true = (λ e. cc, λ g. g.0 refl)
    table false true false = (λ e. cc, λ g. g.0 refl)
    table false false true = (λ e. (λ x. cc, λ x. refl), λ g. refl)
    table false false false = (λ e. (λ x. cc, λ x. refl), λ g. refl)

-- Access is granted exactly where the user has every flag that must be on and none that must be
-- off, at each of the 32 bits.
pub flag_access_iff :
    (user on off : Flag)
    → (flag_access user on off ≡ true)
      ↔ ((col row : ℕ) → col < 4 → row < 8 → Grants user on off col row)
unfolding flag_access
flag_access_iff user on off = (
  λ e col row hc hr. (bit_access-Grants user on off col row).0 (
      all_below_sound 8 (bit_access user on off col) row
        (all_below_sound 4 (λ c. all_below 8 (bit_access user on off c)) col e hc) hr),
  λ g. all_below_complete 4 _ (λ col hc.
      all_below_complete 8 _
        (λ row hr. (bit_access-Grants user on off col row).1 (g col row hc hr))),
)

-- Four bytes.
pub record IsFlag (f : Flag) : Type 0 where
  pub four : length f ≡ 4
  pub bytes : All IsByte f

flag_byte : (f : Flag) (col : ℕ) → IsFlag f → get_or f col 0 < 256
flag_byte f col h = All-get_or IsByte f col 0 h.bytes (omega arith)

abbrev Bit : Option (ℕ × ℕ) → Type 0
Bit none = Unit
Bit (some (col, row)) = (col < 4) × (row < 8)

flag_col_row-Bit : (l d : ℕ) → Bit (flag_col_row l d)
unfolding flag_col_row
flag_col_row-Bit l d = ground arith

set_pair-IsFlag :
    (f : Flag) (p : Option (ℕ × ℕ)) (on : Bool) → Bit p → IsFlag f → IsFlag (set_pair f p on)
unfolding set_pair
set_pair-IsFlag f none on b h = h
set_pair-IsFlag f (some (col, row)) on b h = record {
  four = length-set f col _ ∙ h.four;
  bytes =
      All-set IsByte f col _ h.bytes (set_bit-lt (get_or f col 0) row on (flag_byte f col h) b.1);
}

-- A flag that is on stays on where another is set.
set_pair-keeps :
    (f : Flag) (p q : Option (ℕ × ℕ))
    → Bit p
    → Bit q
    → IsFlag f
    → has_pair f q ≡ true
    → has_pair (set_pair f p true) q ≡ true
unfolding set_pair has_pair
set_pair-keeps f none q bp bq h e = e
set_pair-keeps f (some p) none bp bq h e = refl
set_pair-keeps f (some (c, r)) (some (c', r')) bp bq h e = elim (Bool-cases (c == c')) [
  | inl y ↦
      let same : c ≡ c' = (==_iff c c').0 y in
      rw
        (
          ← same,
          get_or-set_same f c (set_bit (get_or f c 0) r true) 0 (omega (arith, h.four)),
          has_bit-set_bit_on (get_or f c 0) r r' (flag_byte f c h) bp.1 bq.1,
        )
        (or_true (r == r') (rw (← same) at e))
  | inr n ↦ rw (get_or-set_other f c c' (set_bit (get_or f c 0) r true) 0 (λ x. differ x n)) e
]
  where
    or_true : (a : Bool) {b : Bool} → b ≡ true → (a || b) ≡ true
    or_true true e = refl
    or_true false e = e

    differ : {a b : ℕ} → a ≡ b → (a == b) ≡ false → ⊥
    differ x n = ground arith

set_pair-has_pair :
    (f : Flag) (p : Option (ℕ × ℕ)) → Bit p → IsFlag f → has_pair (set_pair f p true) p ≡ true
unfolding set_pair has_pair
set_pair-has_pair f none b h = refl
set_pair-has_pair f (some (c, r)) b h =
    rw
      (
        get_or-set_same f c (set_bit (get_or f c 0) r true) 0 (omega (arith, h.four)),
        has_bit-set_bit_on (get_or f c 0) r r (flag_byte f c h) b.1 b.1,
      )
      (rw (==_refl r) refl)

set_named-keeps :
    (f : Flag) (which : Bytes) (q : Option (ℕ × ℕ))
    → Bit q
    → IsFlag f
    → has_pair f q ≡ true
    → has_pair (set_named f which true) q ≡ true
unfolding set_named
set_named-keeps f [] q b h e = e
set_named-keeps f (l ∷ []) q b h e = e
set_named-keeps f (l ∷ d ∷ which) q b h e =
    let p = flag_col_row l d in
    set_named-keeps (set_pair f p true) which q b
      (set_pair-IsFlag f p true (flag_col_row-Bit l d) h)
      (set_pair-keeps f p q (flag_col_row-Bit l d) b h e)

-- After `SetNamed` turns the named flags on, `HasNamed` finds them all on, whatever the flags were
-- and whatever else the names hold.
pub has_named-set_named :
    (f : Flag) (which : Bytes) → IsFlag f → has_named (set_named f which true) which ≡ true
unfolding has_named set_named
has_named-set_named f [] h = refl
has_named-set_named f (l ∷ []) h = refl
has_named-set_named f (l ∷ d ∷ which) h =
    let p = flag_col_row l d in
    let g = set_pair f p true in
    let b = flag_col_row-Bit l d in
    let gf : IsFlag g = set_pair-IsFlag f p true b h in
    rw (set_named-keeps g which p b gf (set_pair-has_pair f p b h)) (has_named-set_named g which gf)

toggled_twice :
    (f : Flag) (c x y : ℕ)
    → set
        (set f c (bit_xor (get_or f c 0) x))
        c
        (bit_xor (get_or (set f c (bit_xor (get_or f c 0) x)) c 0) y)
      ≡ set f c (bit_xor (bit_xor (get_or f c 0) x) y)
toggled_twice [] c x y = refl
toggled_twice (b ∷ f) zero x y = refl
toggled_twice (b ∷ f) (suc c) x y = ap (◌∷◌ b) (toggled_twice f c x y)

toggle_pair_comm :
    (f : Flag) (p q : Option (ℕ × ℕ))
    → toggle_pair (toggle_pair f p) q ≡ toggle_pair (toggle_pair f q) p
unfolding toggle_pair
toggle_pair_comm f none q = refl
toggle_pair_comm f (some p) none = refl
toggle_pair_comm f (some (c, r)) (some (c', r')) = elim (Bool-cases (c == c')) [
  | inl y ↦ rw (← (==_iff c c').0 y) (same_byte c)
  | inr n ↦
      rw
        (
          get_or-set_other f c c' (bit_xor (get_or f c 0) (2 ^ r)) 0 (λ x. differ x n),
          get_or-set_other f c' c (bit_xor (get_or f c' 0) (2 ^ r')) 0 (λ x. differ (sym x) n),
        )
        (set-set_other f c c' _ _ (λ x. differ x n))
]
  where
    differ : {a b : ℕ} → a ≡ b → (a == b) ≡ false → ⊥
    differ x n = ground arith

    same_byte :
        (c : ℕ)
        → toggle_pair (toggle_pair f (some (c, r))) (some (c, r'))
          ≡ toggle_pair (toggle_pair f (some (c, r'))) (some (c, r))
    same_byte c =
        let b = get_or f c 0 in
        toggled_twice f c (2 ^ r) (2 ^ r')
        ∙ ap (set f c) (
            xor_assoc b (2 ^ r) (2 ^ r')
            ∙ ap (bit_xor b) (xor_comm (2 ^ r) (2 ^ r'))
            ∙ sym (xor_assoc b (2 ^ r') (2 ^ r)))
        ∙ sym (toggled_twice f c (2 ^ r') (2 ^ r))

toggle_pair_undo : (f : Flag) (p : Option (ℕ × ℕ)) → toggle_pair (toggle_pair f p) p ≡ f
unfolding toggle_pair
toggle_pair_undo f none = refl
toggle_pair_undo f (some (c, r)) =
    toggled_twice f c (2 ^ r) (2 ^ r)
    ∙ ap (set f c) (xor_undo (get_or f c 0) (2 ^ r))
    ∙ set-get_or f c 0

toggle_named-toggle_pair :
    (f : Flag) (p : Option (ℕ × ℕ)) (which : Bytes)
    → toggle_named (toggle_pair f p) which ≡ toggle_pair (toggle_named f which) p
unfolding toggle_named
toggle_named-toggle_pair f p [] = refl
toggle_named-toggle_pair f p (l ∷ []) = refl
toggle_named-toggle_pair f p (l ∷ d ∷ which) =
    let q = flag_col_row l d in
    ap (λ g. toggle_named g which) (toggle_pair_comm f p q)
    ∙ toggle_named-toggle_pair (toggle_pair f q) p which

-- Toggling the same names a second time gives back the flags, also where a name stands in the list
-- more than once.
pub toggle_named_undo : (f : Flag) (which : Bytes) → toggle_named (toggle_named f which) which ≡ f
unfolding toggle_named
toggle_named_undo f [] = refl
toggle_named_undo f (l ∷ []) = refl
toggle_named_undo f (l ∷ d ∷ which) =
    let p = flag_col_row l d in
    let g = toggle_pair f p in
    ap (λ h. toggle_named h which) (sym (toggle_named-toggle_pair g p which))
    ∙ ap (λ h. toggle_named (toggle_named h which) which) (toggle_pair_undo f p)
    ∙ toggle_named_undo f which
