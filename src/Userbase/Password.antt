-- ===== src/Userbase/Password.antt =====
-- internal/userbase/users.go: a password that is set is accepted.
use ele_bbs_go.Base.{◌≡◌, Bool, true, false, arith}
use ele_bbs_go.Base.Int.{ℤ_eq_refl}
use ele_bbs_go.Pascal.Cp437.{Text}
use ele_bbs_go.Pascal.Text.{trim_right}
use ele_bbs_go.Crc.{ra}
use ele_bbs_go.Cfgrec.User.{User}
use ele_bbs_go.Userbase.{is_line_end, check_password, set_password}

-- The password that SetPassword stores is accepted, with line ends behind it or not, under the same
-- setting of strictness.
pub check_password-set_password :
    (u : User) (pw typed : Text) (strict : Bool)
    → trim_right is_line_end typed ≡ pw
    → check_password (set_password u pw strict) typed strict ≡ true
unfolding check_password set_password
check_password-set_password u pw typed true e = rw (e, ℤ_eq_refl (ra pw false)) (ground arith)
check_password-set_password u pw typed false e = rw (e, ℤ_eq_refl (ra pw true)) (ground arith)
