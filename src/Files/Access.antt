-- ===== src/Files/Access.antt =====
-- internal/files/groups.go: who may list, download from and upload to a file area. The date of
-- `time.Now` is a parameter.
pub mod Named
pub mod Ages
pub mod Allowed
use ele_bbs_go.Base.{
  is_nil, ℕ, ◌-◌, Bool, true, false, not, ◌&&◌, ◌||◌, List, [], ◌∷◌, ◌++◌, map, Option, none, some,
  Bytes, ltb, leb, ◌==◌, if◌then◌else◌, length, take, drop, bytes_eq,
}
use Prim.Native.Nat.{bit_and}
use ele_bbs_go.Base.Int.{ℤ, pos, pos_part, ◌+ℤ◌, ◌-ℤ◌, ltb_ℤ}
use ele_bbs_go.Base.Decimal.{atoi}
use ele_bbs_go.Base.Utf8.{utf8}
use ele_bbs_go.Pascal.Cp437.{Text}
use ele_bbs_go.Pascal.Text.{trim, up_case}
use ele_bbs_go.Cfgrec.Flags.{flag_access}
use ele_bbs_go.Cfgrec.User.{User}
use ele_bbs_go.Cfgrec.Areas.{FilesArea, Group}

pub record Date : Type 0 where
  pub year : ℤ
  pub month : ℤ
  pub day : ℤ

-- `strings.TrimSpace(s) == ""`.
unfoldable pub is_blank : Text → Bool
unfolding trim
is_blank s = is_nil (trim s)

unfoldable pub find_group : List Group → ℕ → Option Group
find_group [] num = none
find_group (g ∷ groups) num = if g.area_num == num then some g else find_group groups num

-- The loop over `AltGroup`.
unfoldable pub in_groups : List ℕ → ℕ → Bool
in_groups [] group = false
in_groups (g ∷ gs) group = if g == group then true else in_groups gs group

unfoldable pub area_in_group : FilesArea → ℕ → Bool
unfolding in_groups
area_in_group a group =
    if group == 0 || not (bit_and a.attrib2 1 == 0)
    then true
    else if a.group == group
    then true
    else in_groups a.alt_group group

unfoldable pub group_access : Group → User → Bool
unfolding is_blank
group_access gr u =
    if is_blank gr.name || gr.area_num == 0
    then false
    else if not (flag_access u.flags gr.flags gr.not_flags)
    then false
    else leb gr.security u.security

abbrev same : ℤ → ℤ → Bool
same a b = not (ltb_ℤ a b) && not (ltb_ℤ b a)

-- The age from the parts of a birth date.
unfoldable pub age_on : Date → ℤ → ℤ → ℤ → ℕ
age_on today month day year =
    let year' = if ltb_ℤ (pos 10) year then year +ℤ pos 1900 else year +ℤ pos 2000 in
    let age = today.year -ℤ year' in
    let age' =
      if ltb_ℤ today.month month || same month today.month && ltb_ℤ today.day day
      then age -ℤ pos 1
      else age in
    if ltb_ℤ age' (pos 0) then 0 else if ltb_ℤ (pos 255) age' then 255 else pos_part age'

-- `userAge`.
unfoldable pub user_age : Date → User → ℕ
unfolding age_on trim
user_age today u =
    let bd = utf8 (trim u.birth_date) in
    if ltb (length bd) 8
    then 0
    else age_on today (atoi (take 2 bd)) (atoi (take 2 (drop 3 bd))) (atoi (take 2 (drop 6 bd)))

-- The two tests on security and flags that `CheckFileAreaAccess` makes three times.
unfoldable pub denies : User → ℕ → Bytes → Bytes → Bool
denies u security on off =
    if ltb u.security security then true else not (flag_access u.flags on off)

unfoldable pub check_file_area_access :
    Date → FilesArea → User → Bool → Bool → Bool → Bool → ℕ → Bool
unfolding denies is_blank user_age area_in_group
check_file_area_access today a u download group upload list_ group_nr =
    if download && denies u a.security a.flags a.not_flags
    then false
    else if upload && denies u a.upload_security a.upload_flags a.upload_not_flags
    then false
    else if list_ && denies u a.list_security a.list_flags a.list_not_flags
    then false
    else if is_blank a.name || is_blank a.file_path || a.area_num == 0
    then false
    else if ltb (user_age today u) a.age
    then false
    else if group && not (area_in_group a group_nr)
    then false
    else true

unfoldable pub list_access : Date → FilesArea → User → Bool
unfolding check_file_area_access
list_access today a u = check_file_area_access today a u false false false true 0

unfoldable pub download_access : Date → FilesArea → User → Bool
unfolding check_file_area_access
download_access today a u = check_file_area_access today a u true false false false 0

unfoldable pub upload_access : Date → FilesArea → User → Bool
unfolding check_file_area_access
upload_access today a u = check_file_area_access today a u false false true false 0

-- `unicode.IsControl`.
abbrev is_control : ℕ → Bool
is_control r = ltb r 32 || leb 0x7f r && leb r 0x9f

-- One round of `ConvDirName`.
unfoldable pub dir_rune : ℕ → ℕ
dir_rune r =
    if r == b' '
      || r == b'/'
      || r == b'\\'
      || r == b':'
      || r == b'*'
      || r == b'?'
      || r == b'"'
      || r == b'<'
      || r == b'>'
      || r == b'|'
    then b'_'
    else if is_control r
    then b'_'
    else r

unfoldable pub conv_dir_name : Text → Text
unfolding dir_rune
conv_dir_name name = map dir_rune name

-- `FindAreaDir`.
unfoldable pub find_area_dir : List FilesArea → Text → Option FilesArea
unfolding conv_dir_name up_case bytes_eq
find_area_dir [] dir = none
find_area_dir (a ∷ areas) dir =
    let rest = find_area_dir areas dir in
    if bytes_eq (up_case (conv_dir_name a.name)) (up_case (conv_dir_name dir)) then some a else rest
