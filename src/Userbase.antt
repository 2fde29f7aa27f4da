-- ===== src/Userbase.antt =====
-- internal/userbase/users.go: the users of the board, a file of records and an index of name
-- checksums.
pub mod Search
pub mod Writing
pub mod Password
pub mod Adding
pub mod SamePerson
pub mod Failing
mod Tests
use Prim.Native.Nat.{bit_and}
use ele_bbs_go.Base.{
  is_nil, ℕ, zero, suc, ◌+◌, ◌-◌, ◌*◌, ◌/◌, Bool, true, false, not, ◌&&◌, ◌||◌, List, [], ◌∷◌, ◌++◌,
  Option, none, some, Bytes, ltb, leb, ◌==◌, if◌then◌else◌, length, take, drop, bytes_eq,
}
use ele_bbs_go.Base.Files.{u32_of, word_at, read_at, write_at}
use ele_bbs_go.Base.Int.{ℤ_eq, ℤ, pos, negsuc, from_u32, to_u32}
use ele_bbs_go.Pascal.Cp437.{Text}
use ele_bbs_go.Pascal.Text.{trim_right, trim, up_case, no_double_space}
use ele_bbs_go.Pascal.Buf.Codec.{u32_bytes}
use ele_bbs_go.Crc.{ra}
use ele_bbs_go.Cfgrec.User.{User, parse_user, encode_user}

-- USERS.BBS and its index, each there or not.
pub record UserFiles : Type 0 where
  pub users : Option Bytes
  pub index : Option Bytes

abbrev pub deleted : User → Bool
deleted u = not (bit_and u.attribute 1 == 0)

-- `foldName` and `nameMatches`.
unfoldable pub fold_name : Text → Text
fold_name s = no_double_space (up_case (trim s))

unfoldable pub name_matches : Text → Text → Bool
name_matches stored want = bytes_eq (fold_name stored) want && not (is_nil want)

-- The test that `Search` makes of a record.
unfoldable pub is_wanted : Text → User → Bool
is_wanted query u = not (deleted u) && (name_matches u.name query || name_matches u.handle query)

-- `Read`.
abbrev pub parsed : ℕ → Option Bytes → Option User
parsed n none = none
parsed n (some b) = some (parse_user b (pos n))

unfoldable pub read : Option Bytes → ℕ → Option User
read none n = none
read (some f) n = parsed n (read_at 1016 (n * 1016) f)

abbrev pub wanted_of : Text → Option User → Option User
wanted_of query none = none
wanted_of query (some u) = if is_wanted query u then some u else none

abbrev pub or_user : Option User → Option User → Option User
or_user none b = b
or_user (some u) b = some u

-- Whether a record of the index, `ParseUsersIdx`, has the checksum.
unfoldable pub idx_has : ℤ → ℕ → Bytes → Bool
idx_has crc i b =
    ℤ_eq (from_u32 (word_at (i * 8) b)) crc || ℤ_eq (from_u32 (word_at (i * 8 + 4) b)) crc

-- The loops of `Search`, for `n` records from the `i`th on: over the index, and over the users.
unfoldable pub index_loop : Option Bytes → Bytes → ℤ → Text → ℕ → ℕ → Option User
index_loop users b crc query zero i = none
index_loop users b crc query (suc n) i =
    let rest = index_loop users b crc query n (suc i) in
    if idx_has crc i b then or_user (wanted_of query (read users i)) rest else rest

unfoldable pub scan_loop : Bytes → Text → ℕ → ℕ → Option User
scan_loop raw query zero i = none
scan_loop raw query (suc n) i =
    or_user (wanted_of query (some (parse_user (take 1016 (drop (i * 1016) raw)) (pos i))))
      (scan_loop raw query n (suc i))

abbrev pub search_index : Option Bytes → Option Bytes → ℤ → Text → Option User
search_index users none crc query = none
search_index users (some b) crc query =
    if leb 8 (length b) then index_loop users b crc query (length b / 8) 0 else none

abbrev pub scan : Option Bytes → Text → Option User
scan none query = none
scan (some raw) query = scan_loop raw query (length raw / 1016) 0

-- `Search`.
unfoldable pub search : UserFiles → Text → Option User
search files name =
    let query = fold_name name in
    if is_nil query
    then none
    else or_user (search_index files.users files.index (ra query true) query)
        (scan files.users query)

-- `samePerson`.
unfoldable pub same_person : User → User → Bool
same_person on_disk neu =
    let qn = fold_name neu.name in
    let qh = fold_name neu.handle in
    not (is_nil qn) && (name_matches on_disk.name qn || name_matches on_disk.handle qn)
    || not (is_nil qh) && (name_matches on_disk.name qh || name_matches on_disk.handle qh)

-- The errors of the writes; `done` is nil.
pub data Outcome : Type 0 where
  done : Outcome
  no_file : Outcome
  past_end : ℕ → Outcome
  refused : Text → Text → Outcome
  read_error : Outcome
  clobbered : Outcome
  write_error : Outcome

-- `WriteAt`: with a fault `some m` it reports an error when `m` bytes are written.
abbrev pub written : Option ℕ → Bytes → ℕ → Bytes → Bytes × Outcome
written none p off f = (write_at p off f, done)
written (some m) p off f = (write_at (take m p) off f, write_error)

-- `writeUser` at a record number that is not negative; its offset does not overflow.
abbrev pub write_onto : Option ℕ → User → Bool → Bytes → ℕ → User → Bytes × Outcome
write_onto fault u force f off existing =
    if not force && not (is_nil existing.name) && not (same_person existing u)
    then (f, refused existing.name u.name)
    else written fault (encode_user u) off f

abbrev pub write_over : Option ℕ → User → Bool → Bytes → ℕ → Option Bytes → Bytes × Outcome
write_over fault u force f off none = (f, read_error)
write_over fault u force f off (some buf) = write_onto fault u force f off (parse_user buf u.rec)

unfoldable pub write_at_record : Option ℕ → User → Bool → Bytes → ℕ → Bytes × Outcome
write_at_record fault u force f n =
    let off = n * 1016 in
    if ltb (length f) (off + 1016)
    then (f, past_end n)
    else write_over fault u force f off (read_at 1016 off f)

abbrev pub with_users : UserFiles → Bytes × Outcome → UserFiles × Outcome
with_users files (f, o) = (record files { users = some f }, o)

abbrev pub write_open : Option ℕ → UserFiles → User → Bool → ℕ → Option Bytes → UserFiles × Outcome
write_open fault files u force n none = (files, no_file)
write_open fault files u force n (some f) = with_users files (write_at_record fault u force f n)

-- `writeUser` by the record number; `Write` does not force.
abbrev pub write_rec : Option ℕ → UserFiles → User → Bool → ℤ → UserFiles × Outcome
write_rec fault files u force (negsuc n) = (files, done)
write_rec fault files u force (pos n) = write_open fault files u force n files.users

unfoldable pub write_user : Option ℕ → UserFiles → User → Bool → UserFiles × Outcome
write_user fault files u force = write_rec fault files u force u.rec

unfoldable pub write : Option ℕ → UserFiles → User → UserFiles × Outcome
write fault files u = write_user fault files u false

-- `List`, for `n` records from the `i`th on; a file that is not there has none.
unfoldable pub list_loop : Bytes → ℕ → ℕ → List User
list_loop raw zero i = []
list_loop raw (suc n) i =
    parse_user (take 1016 (drop (i * 1016) raw)) (pos i) ∷ list_loop raw n (suc i)

unfoldable pub list : Option Bytes → List User
list none = []
list (some raw) = list_loop raw (length raw / 1016) 0

-- `Count`.
unfoldable pub count : Option Bytes → ℕ
count users = length (list users)

-- `RebuildIndex`.
unfoldable pub idx_entry : User → Bytes
idx_entry u =
    u32_bytes (to_u32 (ra (trim u.name) true)) ++ u32_bytes (to_u32 (ra (trim u.handle) true))

abbrev pub idx_entries : List User → Bytes
idx_entries [] = []
idx_entries (u ∷ us) = idx_entry u ++ idx_entries us

unfoldable pub rebuild_index : UserFiles → UserFiles
rebuild_index files = record files { index = some (idx_entries (list files.users)) }

-- `Append`: the first record is read before and after, and put back if it changed.
abbrev pub or_no_bytes : Option Bytes → Bytes
or_no_bytes none = []
or_no_bytes (some f) = f

abbrev pub first_of : Bytes → Option Bytes
first_of f = if leb 1016 (length f) then read_at 1016 0 f else none

abbrev pub checked_against : Option Bytes → Option Bytes → UserFiles → Bytes → UserFiles × Outcome
checked_against (some first) (some got) files f =
    if bytes_eq first got
    then (rebuild_index (record files { users = some f }), done)
    else (record files { users = some (write_at first 0 f) }, clobbered)
checked_against _ _ files f = (rebuild_index (record files { users = some f }), done)

abbrev pub add_to : UserFiles → User → Bytes → UserFiles × Outcome
add_to files u f =
    let f' = f ++ encode_user u in checked_against (first_of f) (read_at 1016 0 f') files f'

unfoldable pub append : UserFiles → User → (UserFiles × Outcome) × User
append files u =
    let f = or_no_bytes files.users in
    let u' = record u { rec = pos (length f / 1016) } in (add_to files u' f, u')

-- `WriteAndIndex`.
abbrev pub then_index : UserFiles × Outcome → UserFiles × Outcome
then_index (files, done) = (rebuild_index files, done)
then_index (files, o) = (files, o)

unfoldable pub write_and_index : Option ℕ → UserFiles → User → UserFiles × Outcome
write_and_index fault files u = then_index (write_user fault files u true)

-- `CheckPassword` and `SetPassword`.
abbrev pub is_line_end : ℕ → Bool
is_line_end c = c == 13 || c == 10

unfoldable pub check_password : User → Text → Bool → Bool
check_password u pw strict =
    let pw' = trim_right is_line_end pw in
    if strict
    then not (is_nil u.password) && bytes_eq u.password (trim pw')
      || ℤ_eq (ra pw' false) u.password_crc
    else if not (is_nil u.password) && bytes_eq (up_case u.password) (up_case pw')
    then true
    else if ℤ_eq (ra pw' true) u.password_crc
    then true
    else ℤ_eq (ra pw' false) u.password_crc

unfoldable pub set_password : User → Text → Bool → User
set_password u pw strict =
    if strict
    then record u { password = trim pw; password_crc = ra pw false }
    else record u { password = up_case (trim pw); password_crc = ra pw true }
