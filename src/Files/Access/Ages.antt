-- ===== src/Files/Access/Ages.antt =====
-- The age of a user, as `userAge` finds it, against the calendar.
use ele_bbs_go.Base.{
  ℕ, ◌+◌, ◌-◌, ◌≤◌, ◌<◌, ◌≡◌, refl, ◌↔◌, true, false, not, ◌&&◌, ◌||◌, inl, inr, ◌⊎◌, arith, ltb,
  leb, leb→le, leb_false→lt, ltb→lt, ltb_false→le, if◌then◌else◌, length, take, drop, Bool-cases,
}
use ele_bbs_go.Base.Int.{ℤ, pos, negsuc, pos_part, neg_part, sub_ℕ, ◌+ℤ◌, ◌-ℤ◌, ◌≤ℤ◌, ltb_ℤ}
use ele_bbs_go.Base.Decimal.{atoi}
use ele_bbs_go.Base.Utf8.{utf8}
use ele_bbs_go.Pascal.Text.{trim}
use ele_bbs_go.Cfgrec.User.{User}
use ele_bbs_go.Files.Access.{Date, age_on, user_age}

infix 50 ◌<ℤ◌
◌<ℤ◌ : ℤ → ℤ → Type 0
a <ℤ b = pos_part a + neg_part b < pos_part b + neg_part a

-- The birthday in the year is not after today.
IsReached : Date → ℤ → ℤ → ℤ → Type 0
unfolding ◌<ℤ◌
IsReached today year month day =
    (year <ℤ today.year)
    ⊎ ((year ≤ℤ today.year)
        × ((month <ℤ today.month) ⊎ ((month ≤ℤ today.month) × (day ≤ℤ today.day))))

-- Two digits stand for a year from 1911 to 2010.
century : ℤ → ℤ
century year = if ltb_ℤ (pos 10) year then year +ℤ pos 1900 else year +ℤ pos 2000

-- The user has turned `n`: a birth date is given, month, day and year, and the birthday of `n` years
-- later is not after today.
unfoldable pub HasTurned : Date → User → ℕ → Type 0
unfolding IsReached century
HasTurned today u n =
    let bd = utf8 (trim u.birth_date) in
    (8 ≤ length bd)
    × IsReached today (century (atoi (take 2 (drop 6 bd))) +ℤ pos n) (atoi (take 2 bd))
        (atoi (take 2 (drop 3 bd)))

sub_parts : (a b : ℕ) → (pos_part (sub_ℕ a b) ≡ a - b) × (neg_part (sub_ℕ a b) ≡ b - a)
sub_parts a b = elim (Bool-cases (leb b a)) [
  | inl y ↦ rw y (refl, omega (arith, leb→le b a y))
  | inr n ↦ rw n (omega (arith, leb_false→lt b a n), omega (arith, leb_false→lt b a n))
]

clamped :
    (z : ℤ) (n : ℕ)
    → 1 ≤ n
    → n < 256
    → (n ≤ (if ltb_ℤ z (pos 0) then 0 else if ltb_ℤ (pos 255) z then 255 else pos_part z))
      ↔ (n + neg_part z ≤ pos_part z)
clamped (pos k) n h b = (λ e. ground arith, λ e. ground arith)
clamped (negsuc k) n h b = (λ e. ground arith, λ e. ground arith)

-- The test of `userAge` on month and day, on the numbers that it compares.
not_before :
    (p q r s : ℕ)
    → ltb p q || (not (ltb q p) && not (ltb p q)) && ltb r s ≡ false
    → (q < p) ⊎ ((q ≤ p) × (s ≤ r))
not_before p q r s e = elim (Bool-cases (ltb q p)) [
  | inl y ↦ inl (ltb→lt q p y)
  | inr n ↦ inr (ground arith, ground arith)
]

before :
    (p q r s : ℕ)
    → ltb p q || (not (ltb q p) && not (ltb p q)) && ltb r s ≡ true
    → (q < p) ⊎ ((q ≤ p) × (s ≤ r))
    → ⊥
before p q r s e (inl h) = ground arith
before p q r s e (inr (h, k)) = ground arith

reached :
    (today : Date) (y m d : ℤ) (n : ℕ)
    → 1 ≤ n
    → n < 256
    → (n ≤ age_on today m d y) ↔ IsReached today (century y +ℤ pos n) m d
unfolding age_on IsReached century ◌<ℤ◌ ◌+ℤ◌ ◌-ℤ◌
reached today y m d n low high =
    let p = pos_part today.month + neg_part m in
    let q = pos_part m + neg_part today.month in
    let r = pos_part today.day + neg_part d in
    let s = pos_part d + neg_part today.day in
    let years = today.year -ℤ century y in
    let age =
      sub_parts (pos_part today.year + neg_part (century y))
        (neg_part today.year + pos_part (century y)) in
    let later = sub_parts (pos_part (century y) + n) (neg_part (century y) + 0) in
    elim (Bool-cases (ltb p q || (not (ltb q p) && not (ltb p q)) && ltb r s)) [
      | inl t ↦
          let less = sub_parts (pos_part years + 0) (neg_part years + 1) in
          let c = clamped (years -ℤ pos 1) n low high in
          rw t (
            λ h. inl (omega (arith, c.0 h, age, later, less)),
            λ h. c.1 (elim h [
              | inl k ↦ omega (arith, k, age, later, less)
              | inr (k, k') ↦ absurd (before p q r s t k')
            ]),
          )
      | inr t ↦
          let c = clamped years n low high in
          rw t (
            λ h.
                elim (Bool-cases (
                  ltb (pos_part (century y +ℤ pos n) + neg_part today.year)
                    (pos_part today.year + neg_part (century y +ℤ pos n)))) [
                      | inl k ↦ inl (ltb→lt _ _ k)
                      | inr k ↦ inr (omega (arith, c.0 h, age, later), not_before p q r s t)
                    ],
            λ h. c.1 (elim h [
              | inl k ↦ omega (arith, k, age, later)
              | inr (k, k') ↦ omega (arith, k, age, later)
            ]),
          )
    ]

-- `userAge` is at least an age from 1 to 255 exactly where the user has turned it.
pub user_age-HasTurned :
    (today : Date) (u : User) (n : ℕ)
    → 1 ≤ n
    → n < 256
    → (n ≤ user_age today u) ↔ HasTurned today u n
unfolding user_age HasTurned
user_age-HasTurned today u n low high =
    let bd = utf8 (trim u.birth_date) in
    elim (Bool-cases (ltb (length bd) 8)) [
      | inl t ↦ rw t (
        λ h. absurd (omega (arith, h, low)),
        λ h. absurd (omega (arith, h.0, ltb→lt (length bd) 8 t)),
      )
      | inr t ↦
          let k =
            reached today (atoi (take 2 (drop 6 bd))) (atoi (take 2 bd)) (atoi (take 2 (drop 3 bd)))
              n low high in
          rw t (λ h. (ltb_false→le (length bd) 8 t, k.0 h), λ h. k.1 h.1)
    ]
