-- ===== src/Files/Access/Allowed.antt =====
-- internal/files/groups.go: what access to a file area takes.
use ele_bbs_go.Base.{
  ℕ, ◌≤◌, ◌<◌, ◌≡◌, ◌≢◌, refl, ap, ◌↔◌, Bool, true, false, not, ◌&&◌, ◌||◌, inl, inr, ◌⊎◌, arith,
  Bytes, ltb, ltb_false→le, le→ltb_false, ◌==◌, ==_iff, if◌then◌else◌, Bool-cases,
}
use ele_bbs_go.Cfgrec.Flags.Named.{Grants, flag_access_iff}
use ele_bbs_go.Cfgrec.User.{User}
use ele_bbs_go.Cfgrec.Areas.{FilesArea}
use ele_bbs_go.Files.Access.{
  Date, is_blank, area_in_group, user_age, denies, check_file_area_access,
}
use ele_bbs_go.Files.Access.Named.{HasInk, is_blank-HasInk, InGroup, area_in_group-InGroup}
use ele_bbs_go.Files.Access.Ages.{HasTurned, user_age-HasTurned}

-- Enough security, every flag that must be on, and none that must be off.
pub record Passes (u : User) (level : ℕ) (on off : Bytes) : Type 0 where
  pub security : level ≤ u.security
  pub flags : (col row : ℕ) → col < 4 → row < 8 → Grants u.flags on off col row

pub record Allowed (today : Date) (a : FilesArea) (u : User) (d g p l : Bool) (group_nr : ℕ)
    : Type 0 where
  pub download : d ≡ true → Passes u a.security a.flags a.not_flags
  pub upload : p ≡ true → Passes u a.upload_security a.upload_flags a.upload_not_flags
  pub list_ : l ≡ true → Passes u a.list_security a.list_flags a.list_not_flags
  pub exists : HasInk a.name × HasInk a.file_path × (a.area_num ≢ 0)
  pub age : (a.age ≡ 0) ⊎ HasTurned today u a.age
  pub group : g ≡ true → InGroup a group_nr

denies-Passes :
    (u : User) (security : ℕ) (on off : Bytes)
    → (denies u security on off ≡ false) ↔ Passes u security on off
unfolding denies
denies-Passes u security on off = (
  λ e. record {
    security = ground arith;
    flags = (flag_access_iff u.flags on off).0 (ground arith);
  },
  λ p.
      rw (le→ltb_false u.security security p.security, (flag_access_iff u.flags on off).1 p.flags)
        refl,
)

guard : (b : Bool) {x : Bool} → (if b then false else x) ≡ true → (b ≡ false) × (x ≡ true)
guard true e = absurd cc
guard false e = (refl, e)

unless : {b c : Bool} → (b && c) ≡ false → b ≡ true → c ≡ false
unless {b = true} h e = h
unless {b = false} h e = absurd cc

and_false : (b : Bool) {c : Bool} → (b ≡ true → c ≡ false) → (b && c) ≡ false
and_false true h = h refl
and_false false h = refl

not-false : {b : Bool} → not b ≡ false → b ≡ true
not-false {b = true} e = refl
not-false {b = false} e = cc

exists_iff :
    (a : FilesArea)
    → (is_blank a.name || is_blank a.file_path || a.area_num == 0 ≡ false)
      ↔ (HasInk a.name × HasInk a.file_path × (a.area_num ≢ 0))
exists_iff a = (
  λ e. (
    (is_blank-HasInk a.name).0 (ground arith),
    (is_blank-HasInk a.file_path).0 (ground arith),
    λ z. ground arith,
  ),
  λ (n, p, z).
      rw ((is_blank-HasInk a.name).1 n, (is_blank-HasInk a.file_path).1 p) (ground (arith, z)),
)

age_iff :
    (today : Date) (a : FilesArea) (u : User)
    → a.age < 256
    → (a.age ≤ user_age today u) ↔ ((a.age ≡ 0) ⊎ HasTurned today u a.age)
age_iff today a u byte = elim (Bool-cases (a.age == 0)) [
  | inl z ↦ (λ h. inl ((==_iff a.age 0).0 z), λ h. omega (arith, (==_iff a.age 0).0 z))
  | inr n ↦
      let k = user_age-HasTurned today u a.age (ground (arith, n)) byte in
      (λ h. inr (k.0 h), λ h. elim h [ inl z ↦ omega (arith, z) | inr t ↦ k.1 t ])
]

pub check_file_area_access_iff :
    (today : Date) (a : FilesArea) (u : User) (download group upload list_ : Bool) (group_nr : ℕ)
    → a.age < 256
    → a.attrib2 < 256
    → (check_file_area_access today a u download group upload list_ group_nr ≡ true)
      ↔ Allowed today a u download group upload list_ group_nr
unfolding check_file_area_access
check_file_area_access_iff today a u download group upload list_ group_nr young byte = (
  λ e.
      let (d, e1) = guard (download && denies u a.security a.flags a.not_flags) e in
      let (p, e2) =
        guard (upload && denies u a.upload_security a.upload_flags a.upload_not_flags) e1 in
      let (l, e3) = guard (list_ && denies u a.list_security a.list_flags a.list_not_flags) e2 in
      let (x, e4) = guard (is_blank a.name || is_blank a.file_path || a.area_num == 0) e3 in
      let (y, e5) = guard (ltb (user_age today u) a.age) e4 in
      let (g, e6) = guard (group && not (area_in_group a group_nr)) e5 in
      record {
        download = λ h. (denies-Passes u a.security a.flags a.not_flags).0 (unless d h);
        upload = λ h.
            (denies-Passes u a.upload_security a.upload_flags a.upload_not_flags).0 (unless p h);
        list_ = λ h. (denies-Passes u a.list_security a.list_flags a.list_not_flags).0 (unless l h);
        exists = (exists_iff a).0 x;
        age = (age_iff today a u young).0 (ltb_false→le (user_age today u) a.age y);
        group = λ h. (area_in_group-InGroup a group_nr byte).0 (not-false (unless g h));
      },
  λ k.
      rw
        (
          and_false download
              (λ h. (denies-Passes u a.security a.flags a.not_flags).1 (k.download h)),
          and_false upload (λ h.
              (denies-Passes u a.upload_security a.upload_flags a.upload_not_flags).1 (k.upload h)),
          and_false list_
              (λ h. (denies-Passes u a.list_security a.list_flags a.list_not_flags).1 (k.list_ h)),
          (exists_iff a).1 k.exists,
          le→ltb_false (user_age today u) a.age ((age_iff today a u young).1 k.age),
          and_false group {c = not (area_in_group a group_nr)}
              (λ h. ap not ((area_in_group-InGroup a group_nr byte).1 (k.group h))),
        )
        refl,
)

Passes-mono :
    (u : User) (level : ℕ) {s : ℕ} {on off : Bytes}
    → u.security ≤ level
    → Passes u s on off
    → Passes (record u { security = level }) s on off
Passes-mono u level h p = record { security = omega (arith, p.security, h); flags = p.flags }

-- Raising a user's security level never takes an access away.
pub check_file_area_access_mono :
    (today : Date) (a : FilesArea) (u : User) (download group upload list_ : Bool)
    (group_nr level : ℕ)
    → u.security ≤ level
    → a.age < 256
    → a.attrib2 < 256
    → check_file_area_access today a u download group upload list_ group_nr ≡ true
    → check_file_area_access today a
        (record u { security = level })
        download
        group
        upload
        list_
        group_nr
      ≡ true
check_file_area_access_mono today a u download group upload list_ group_nr level h young byte e =
    let k =
      (check_file_area_access_iff today a u download group upload list_ group_nr young byte).0 e in
    (check_file_area_access_iff today a (record u { security = level }) download group upload list_
        group_nr young byte).1
      (record {
        download = λ x. Passes-mono u level h (k.download x);
        upload = λ x. Passes-mono u level h (k.upload x);
        list_ = λ x. Passes-mono u level h (k.list_ x);
        exists = k.exists;
        age = unfold HasTurned in k.age;
        group = k.group;
      })
