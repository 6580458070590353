-- ===== src/Accounts.antt =====
-- internal/store/users.go, internal/store/sessions.go and the settings that internal/auth/manager.go
-- reads: the tables as lists, and the queries as actions on them. Whether a query fails is a function
-- of the number of queries made before it, and one that fails has changed nothing. A time is a number
-- of nanoseconds of one clock.
pub mod Store
pub mod Manager
pub mod Queries
pub mod Sessions
pub mod Logins
pub mod Accepted
pub mod Roles
pub mod Handlers
pub mod Admins
pub mod Requests
pub mod Stays
pub mod Remains
use protean.Prelude.{
  ℕ, suc, ◌+◌, List, [], ◌∷◌, ◌++◌, Bool, true, false, not, ◌&&◌, ◌||◌, Option, none, some, is_some,
  ltb, ◌==◌, if◌then◌else◌,
}
use protean.Prelude.Effects.{Except, ok, failed, Action, pure, after, ◌>>=◌, ◌>>◌, from_option}
use protean.Strings.{Text, same}
use protean.Password.{Policy, PolicyError}

-- the values that the schema allows for a role and for a login method
pub data Role : Type 0 where
  admin user : Role

pub data Source : Type 0 where
  local ldap oidc : Source

-- store.User, but for the language and the date of creation
pub record User : Type 0 where
  pub id : ℕ
  pub username : Text
  pub password_hash : Text
  pub role : Role
  pub auth_source : Source
  pub totp_secret : Text
  pub totp_enabled : Bool
  pub password_changed_at : ℕ
  pub enabled : Bool
  pub portal_access_enabled : Bool

-- a row of `sessions`
pub record SessionRow : Type 0 where
  pub user_id : ℕ
  pub token_hash : Text
  pub expires_at : ℕ

-- store.Session
pub record Session : Type 0 where
  pub user_id : ℕ
  pub username : Text
  pub role : Role
  pub auth_source : Source
  pub expires_at : ℕ
  pub password_changed_at : ℕ

-- store.AuthGroupRule
pub record GroupRule : Type 0 where
  pub method : Source
  pub role : Role
  pub group_value : Text

-- a row of `peer_owner`
pub record Owner : Type 0 where
  pub user_id : ℕ
  pub provider : Text
  pub peer_key : Text

pub data Status : Type 0 where
  pending approved granted denied : Status

-- a row of `access_requests`
pub record Request : Type 0 where
  pub request_id : ℕ
  pub user_id : ℕ
  pub status : Status

pub record Db : Type 0 where
  pub users : List User
  pub sessions : List SessionRow
  pub next_id : ℕ
  pub policy : Policy
  pub session_ttl_hours : ℕ
  pub internal_enabled : Bool
  pub ldap_enabled : Bool
  pub oidc_enabled : Bool
  pub group_rules : List GroupRule
  pub owners : List Owner
  pub requests : List Request

-- the database, the number of queries made, and the peers that the hosts run, by provider and key
pub record State : Type 0 where
  pub db : Db
  pub calls : ℕ
  pub peers : List (Text × Text)

pub data AuthError : Type 0 where
  store_failed not_found duplicate : AuthError
  invalid_credentials account_disabled portal_access_denied : AuthError
  internal_auth_disabled no_group_match : AuthError
  hash_failed random_failed invalid_code : AuthError
  policy_rejected : PolicyError → AuthError

abbrev pub Auth : Type 0 → Type 0
Auth A = Action State AuthError A

unfoldable pub is_user : Role → Bool
is_user admin = false
is_user user = true

unfoldable pub same_role : Role → Role → Bool
same_role admin admin = true
same_role user user = true
same_role admin user = false
same_role user admin = false

unfoldable pub same_source : Source → Source → Bool
same_source local local = true
same_source ldap ldap = true
same_source oidc oidc = true
same_source local ldap = false
same_source local oidc = false
same_source ldap local = false
same_source ldap oidc = false
same_source oidc local = false
same_source oidc ldap = false

-- `WHERE username = $1 AND auth_source = $2`
unfoldable pub find_account : Text → Source → List User → Option User
find_account username source [] = none
find_account username source (u ∷ us) =
    if same u.username username && same_source u.auth_source source
    then some u
    else find_account username source us

-- `WHERE id = $1`
unfoldable pub find_id : ℕ → List User → Option User
find_id id [] = none
find_id id (u ∷ us) = if u.id == id then some u else find_id id us

-- `UPDATE ... WHERE id = $1`
unfoldable pub set_user : ℕ → (User → User) → List User → List User
set_user id f [] = []
set_user id f (u ∷ us) = (if u.id == id then f u else u) ∷ set_user id f us

-- `DELETE FROM users WHERE id = $1`, and the rows that refer to the user
unfoldable pub without_user : ℕ → List User → List User
without_user id [] = []
without_user id (u ∷ us) = let rest = without_user id us in if u.id == id then rest else u ∷ rest

unfoldable pub without_sessions : ℕ → List SessionRow → List SessionRow
without_sessions id [] = []
without_sessions id (s ∷ ss) =
    let rest = without_sessions id ss in if s.user_id == id then rest else s ∷ rest

unfoldable pub without_owners : ℕ → List Owner → List Owner
without_owners id [] = []
without_owners id (o ∷ os) =
    let rest = without_owners id os in if o.user_id == id then rest else o ∷ rest

unfoldable pub without_requests : ℕ → List Request → List Request
without_requests id [] = []
without_requests id (r ∷ rs) =
    let rest = without_requests id rs in if r.user_id == id then rest else r ∷ rest

unfoldable pub find_session : Text → List SessionRow → Option SessionRow
find_session hash [] = none
find_session hash (s ∷ ss) = if same s.token_hash hash then some s else find_session hash ss

-- `DELETE FROM sessions WHERE token_hash = $1`
unfoldable pub drop_session : Text → List SessionRow → List SessionRow
drop_session hash [] = []
drop_session hash (s ∷ ss) =
    let rest = drop_session hash ss in if same s.token_hash hash then rest else s ∷ rest

-- the two conditions of GetSession on the account
unfoldable pub may_log_in : User → Bool
unfolding is_user
may_log_in u = u.enabled && (not (is_user u.role) || u.portal_access_enabled)

unfoldable pub session_of : SessionRow → Option User → Option Session
unfolding may_log_in
session_of s none = none
session_of s (some u) =
    if may_log_in u
    then some (record {
      user_id = s.user_id;
      username = u.username;
      role = u.role;
      auth_source = u.auth_source;
      expires_at = s.expires_at;
      password_changed_at = u.password_changed_at;
    })
    else none

unfoldable pub live_session : ℕ → Option SessionRow → List User → Option Session
unfolding session_of find_id
live_session now none users = none
live_session now (some s) users =
    if ltb now s.expires_at then session_of s (find_id s.user_id users) else none
