-- ===== src/Accounts/Manager.antt =====
-- internal/auth/manager.go, and internal/auth/totp.go, internal/auth/token.go and
-- internal/auth/password.go as far as it uses them. bcrypt, HMAC and the check of a one-time code are
-- parameters. The random bytes of a token are an argument.
use protean.Prelude.{
  ℕ, ◌+◌, ◌*◌, List, [], ◌∷◌, Bool, true, false, not, length, ◌&&◌, ◌||◌, Option, none, some, ltb,
  if◌then◌else◌,
}
use protean.Prelude.Effects.{Except, ok, failed, pure, raise, require, ◌>>=◌, ◌>>◌, from_option}
use protean.Strings.{Text, same, is_empty, member}
use protean.Password.{Classes, Verdict, accepted, rejected, validate_password}
use protean.Accounts.{
  Role, admin, user, Source, local, ldap, oidc, User, Session, GroupRule, Db, State, Auth,
  AuthError, not_found, invalid_credentials, account_disabled, portal_access_denied,
  internal_auth_disabled, no_group_match, hash_failed, random_failed, invalid_code, policy_rejected,
  is_user, same_role, same_source,
}
use protean.Accounts.Store.{
  ask, try_ask, get_account, get_user, update_user, create_account, upsert_external, insert_session,
  get_session, delete_session,
}

-- HashPassword, by the number of the query before it in place of the salt, CheckPassword,
-- ValidateTOTP at a time, and `tokenHasher.hash`
pub record Crypto : Type 0 where
  pub hash_password : ℕ → Text → Option Text
  pub check_password : Text → Text → Bool
  pub validate_totp : Text → Text → ℕ → Bool
  pub hash_token : Text → Text

abbrev pub hour : ℕ
hour = 3_600_000_000_000

abbrev pub default_session_ttl : ℕ
default_session_ttl = 30 * 24 * hour

-- what Login returns
pub data LoginResult : Type 0 where
  session : Text → ℕ → LoginResult
  need_totp : LoginResult

-- checkAccountLoginAllowed
unfoldable pub check_account_login_allowed : User → Auth (Unit {0})
unfolding is_user
check_account_login_allowed u =
    if not u.enabled
    then raise account_disabled
    else if is_user u.role && not u.portal_access_enabled
    then raise portal_access_denied
    else pure tt

-- the loop over the rules for one role
unfoldable pub lists_role : Role → List GroupRule → List Text → Bool
unfolding same_role member
lists_role role [] groups = false
lists_role role (r ∷ rs) groups =
    (same_role r.role role && member r.group_value groups) || lists_role role rs groups

-- resolveRoleFromRules
unfoldable pub resolve_role_from_rules : List GroupRule → List Text → Option Role
unfolding lists_role
resolve_role_from_rules rules groups =
    if lists_role admin rules groups
    then some admin
    else if lists_role user rules groups
    then some user
    else none

-- `WHERE method = $1`
unfoldable pub rules_of : Source → List GroupRule → List GroupRule
unfolding same_source
rules_of method [] = []
rules_of method (r ∷ rs) =
    let rest = rules_of method rs in if same_source r.method method then r ∷ rest else rest

-- the setting that turns the method off
unfoldable pub method_enabled : Source → Db → Bool
method_enabled local db = db.internal_enabled
method_enabled ldap db = db.ldap_enabled
method_enabled oidc db = db.oidc_enabled

abbrev pub session_ttl : Option ℕ → ℕ
session_ttl none = default_session_ttl
session_ttl (some hours) = if ltb 0 hours then hours * hour else default_session_ttl

abbrev pub set_password : Text → ℕ → User → User
set_password hash now u = record u { password_hash = hash; password_changed_at = now }

-- the account of the settings for the emergency
unfoldable pub is_emergency : Text → Text → Bool
is_emergency emergency username = not (is_empty emergency) && same username emergency

abbrev pub is_local : Source → Bool
is_local local = true
is_local ldap = false
is_local oidc = false

unfoldable pub hidden : AuthError → AuthError
hidden not_found = invalid_credentials
hidden e = e

-- the error of the query, but that a missing row reads as a wrong password
unfoldable pub hide_missing : {A : Type 0} → Except AuthError A × State → Except AuthError A × State
unfolding hidden
hide_missing (ok a, s) = (ok a, s)
hide_missing (failed e, s) = (failed (hidden e), s)

-- any error of the query reads as a wrong password
unfoldable pub hide_error : {A : Type 0} → Except AuthError A × State → Except AuthError A × State
hide_error (ok a, s) = (ok a, s)
hide_error (failed e, s) = (failed invalid_credentials, s)

module _ (fails : ℕ → Bool) (classes : Classes) (crypto : Crypto) (emergency : Text) where
  open crypto use {hash_password, check_password, validate_totp, hash_token}

  abbrev pub policy_of : Verdict → Auth (Unit {0})
  policy_of accepted = pure tt
  policy_of (rejected e) = raise (policy_rejected e)

  -- ValidatePassword under the policy of the settings
  unfoldable pub check_policy : Text → Auth (Unit {0})
  unfolding ask validate_password
  check_policy password = do
    policy ← ask fails λ db. db.policy
    policy_of (validate_password classes policy password)

  unfoldable pub hashed : Text → Auth Text
  hashed password s = from_option (hash_password s.calls password) hash_failed s

  -- createSession; `raw` is the token that the random source gives
  unfoldable pub create_session : Option Text → ℕ → ℕ → Auth (Text × ℕ)
  unfolding try_ask insert_session
  create_session raw user_id now = do
    token ← from_option raw random_failed
    hours ← try_ask fails λ db. db.session_ttl_hours
    insert_session fails user_id (hash_token token) (now + session_ttl hours)
    pure (token, now + session_ttl hours)

  unfoldable pub issue : Option Text → User → ℕ → Auth LoginResult
  unfolding create_session
  issue raw u now = do got ← create_session raw u.id now; pure (session got.0 got.1)

  -- Login
  unfoldable pub login : Option Text → Text → Text → ℕ → Auth LoginResult
  unfolding ask hide_missing is_emergency get_account check_account_login_allowed issue
  login raw username password now = do
    internal ← ask fails λ db. db.internal_enabled
    require (internal || is_emergency emergency username) internal_auth_disabled
    u ← λ s. hide_missing (get_account fails username local s)
    require (check_password u.password_hash password) invalid_credentials
    check_account_login_allowed u
    if u.totp_enabled then pure need_totp else issue raw u now

  -- CompleteTOTPLogin
  unfoldable pub complete_totp_login : Option Text → Text → Text → ℕ → Auth LoginResult
  unfolding hide_error get_account check_account_login_allowed issue
  complete_totp_login raw username code now = do
    u ← λ s. hide_error (get_account fails username local s)
    require (u.totp_enabled && validate_totp u.totp_secret code now) invalid_credentials
    check_account_login_allowed u
    issue raw u now

  -- the branches of Authenticate on the login method
  unfoldable pub check_method : Session → Auth (Unit {0})
  unfolding ask method_enabled is_emergency
  check_method x =
      if is_local x.auth_source && is_emergency emergency x.username
      then pure tt
      else do require (← ask fails (method_enabled x.auth_source)) invalid_credentials

  -- Authenticate
  unfoldable pub authenticate : Text → ℕ → Auth Session
  unfolding get_session hide_missing check_method
  authenticate raw now = do
    x ← λ s. hide_missing (get_session fails (hash_token raw) now s)
    check_method x
    pure x

  -- Logout
  unfoldable pub logout : Text → Auth (Unit {0})
  unfolding delete_session
  logout raw = delete_session fails (hash_token raw)

  -- CreateUser
  unfoldable pub create_user : Text → Text → Role → ℕ → Auth (Unit {0})
  unfolding check_policy hashed create_account
  create_user username password role now = do
    check_policy password
    create_account fails username (← hashed password) role now

  -- AdminSetPassword
  unfoldable pub admin_set_password : Text → Text → ℕ → Auth (Unit {0})
  unfolding check_policy hashed get_account update_user
  admin_set_password username new_password now = do
    check_policy new_password
    u ← get_account fails username local
    hash ← hashed new_password
    update_user fails u.id (set_password hash now)

  -- ChangePassword
  unfoldable pub change_password : ℕ → Text → Text → ℕ → Auth (Unit {0})
  unfolding check_policy hashed get_user update_user
  change_password id current_password new_password now = do
    check_policy new_password
    u ← get_user fails id
    require (check_password u.password_hash current_password) invalid_credentials
    hash ← hashed new_password
    update_user fails id (set_password hash now)

  -- EnableTOTP
  unfoldable pub enable_totp : ℕ → Text → Text → ℕ → Auth (Unit {0})
  unfolding update_user
  enable_totp id secret code now = do
    require (validate_totp secret code now) invalid_code
    update_user fails id (λ u. record u { totp_secret = secret; totp_enabled = true })

  -- DisableTOTP
  unfoldable pub disable_totp : ℕ → Text → Auth (Unit {0})
  unfolding get_user update_user
  disable_totp id password = do
    u ← get_user fails id
    require (check_password u.password_hash password) invalid_credentials
    update_user fails id (λ u. record u { totp_secret = []; totp_enabled = false })

  -- the branch of SeedEmergencyAdmin on what the lookup gave
  unfoldable pub reset_emergency :
      Text → Text → ℕ → Except AuthError User × State → Except AuthError (Unit {0}) × State
  unfolding create_account update_user
  reset_emergency username hash now (failed not_found, s) =
      create_account fails username hash admin now s
  reset_emergency username hash now (failed e, s) = (failed e, s)
  reset_emergency username hash now (ok u, s) =
      (do
        update_user fails u.id (set_password hash now)
        update_user fails u.id (λ u. record u { role = admin })
        update_user fails u.id (λ u. record u { enabled = true }))
        s

  -- SeedEmergencyAdmin
  unfoldable pub seed_emergency_admin : Text → Text → ℕ → Auth (Unit {0})
  unfolding hashed reset_emergency get_account
  seed_emergency_admin username password now = do
    hash ← hashed password
    λ s. reset_emergency username hash now (get_account fails username local s)

  -- SeedAdmin
  unfoldable pub seed_admin : Text → Text → ℕ → Auth (Unit {0})
  unfolding ask hashed create_account
  seed_admin username password now = do
    count ← ask fails λ db. length db.users
    if ltb 0 count
        then pure tt
        else (do create_account fails username (← hashed password) admin now)

  -- FinishExternalLogin; `resolveRole` is its first three lines
  unfoldable pub finish_external_login :
      Option Text → Source → Text → List Text → ℕ → Auth LoginResult
  unfolding ask rules_of resolve_role_from_rules upsert_external check_account_login_allowed issue
  finish_external_login raw method username groups now = do
    rules ← ask fails λ db. rules_of method db.group_rules
    role ← from_option (resolve_role_from_rules rules groups) no_group_match
    u ← upsert_external fails username method role now
    check_account_login_allowed u
    issue raw u now
