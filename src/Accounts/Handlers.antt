-- ===== src/Accounts/Handlers.antt =====
-- internal/api/api_users.go: the requests of an admin about the accounts. An account's peers are
-- removed from their hosts, and its requests denied, as far as the queries and the hosts answer; the
-- audit log and the status cache are left out. The registry of providers, the decoding of a peer's key
-- and whether a host removes a peer are parameters.
use protean.Prelude.{
  ℕ, suc, ◌+◌, List, [], ◌∷◌, Bool, true, false, not, ◌&&◌, ◌||◌, Option, none, some, leb, ◌==◌,
  if◌then◌else◌,
}
use protean.Prelude.Effects.{
  Except, ok, failed, Action, pure, require, from_option, ◌>>=◌, ◌>>◌, each,
}
use protean.Strings.{Text, codes, same, is_empty, trim_space}
use protean.Password.{Classes}
use protean.Accounts.{
  Role, admin, user, local, User, Owner, Request, Status, pending, approved, granted, denied, Db,
  State, AuthError, same_role,
}
use protean.Accounts.Store.{ask, get_user, get_account, update_user, delete_user}
use protean.Accounts.Manager.{Crypto, create_user, admin_set_password}

-- the answers with an error
pub data ApiError : Type 0 where
  no_such_user internal_error last_admin own_account username_required bad_role rejected_password :
      ApiError

abbrev pub Api : Type 0 → Type 0
Api A = Action State ApiError A

-- the answer where a step of the account manager or the store failed
unfoldable pub reply :
    {A : Type 0} → ApiError → Except AuthError A × State → Except ApiError A × State
reply e (ok a, s) = (ok a, s)
reply e (failed _, s) = (failed e, s)

-- ListOwnedPeerKeys
unfoldable pub owned_by : ℕ → List Owner → List Owner
owned_by id [] = []
owned_by id (o ∷ os) = let rest = owned_by id os in if o.user_id == id then o ∷ rest else rest

-- ClearPeerOwner
unfoldable pub without_owner : Text → Text → List Owner → List Owner
without_owner provider key [] = []
without_owner provider key (o ∷ os) =
    let rest = without_owner provider key os in
    if same o.provider provider && same o.peer_key key then rest else o ∷ rest

-- the peers of a host without one
unfoldable pub without_peer : Text → Text → List (Text × Text) → List (Text × Text)
without_peer provider key [] = []
without_peer provider key ((p, k) ∷ ps) =
    let rest = without_peer provider key ps in
    if same p provider && same k key then rest else (p, k) ∷ rest

-- ListRequestsForUser
unfoldable pub requests_of : ℕ → List Request → List Request
requests_of id [] = []
requests_of id (r ∷ rs) = let rest = requests_of id rs in if r.user_id == id then r ∷ rest else rest

-- SetRequestStatus
unfoldable pub set_status : ℕ → Status → List Request → List Request
set_status id st [] = []
set_status id st (r ∷ rs) =
    (if r.request_id == id then record r { status = st } else r) ∷ set_status id st rs

unfoldable pub is_denied : Status → Bool
is_denied denied = true
is_denied pending = false
is_denied approved = false
is_denied granted = false

unfoldable pub count_role : Role → List User → ℕ
unfolding same_role
count_role role [] = 0
count_role role (u ∷ us) = (if same_role u.role role then 1 else 0) + count_role role us

unfoldable pub count_enabled_admins : List User → ℕ
unfolding same_role
count_enabled_admins [] = 0
count_enabled_admins (u ∷ us) =
    (if same_role u.role admin && u.enabled then 1 else 0) + count_enabled_admins us

module _ (fails : ℕ → Bool) where
  -- a statement whose error is only logged
  unfoldable pub try_change : (Db → Db) → Api (Unit {0})
  try_change f s =
      let s' = record s { calls = suc s.calls } in
      (ok tt, if fails s.calls then s' else record s' { db = f s.db })

  -- a query whose error ends the loop, and is only logged
  unfoldable pub try_rows : {A : Type 0} → (Db → List A) → Api (List A)
  try_rows f s =
      let s' = record s { calls = suc s.calls } in (ok (if fails s.calls then [] else f s.db), s')

  -- the body of the loop of denyUserRequests
  unfoldable pub deny_request : Request → Api (Unit {0})
  unfolding try_change set_status is_denied
  deny_request r =
      if is_denied r.status
      then pure tt
      else try_change (λ db. record db { requests = set_status r.request_id denied db.requests })

  -- denyUserRequests
  unfoldable pub deny_user_requests : ℕ → Api (Unit {0})
  unfolding try_rows deny_request requests_of
  deny_user_requests id = do
    rows ← try_rows λ db. requests_of id db.requests
    each deny_request rows

  -- the guard of the last admin in apiUsersDelete
  unfoldable pub check_last_admin : User → Api (Unit {0})
  unfolding reply ask count_role same_role
  check_last_admin target =
      if same_role target.role admin
      then (do
        n ← λ s. reply internal_error (ask fails (λ db. count_role admin db.users) s)
        require (not (leb n 1)) last_admin)
      else pure tt

  -- the guards of apiUsersSetEnabled
  unfoldable pub check_disable : ℕ → User → Api (Unit {0})
  unfolding reply ask count_enabled_admins same_role
  check_disable caller target = do
    require (not (target.id == caller)) own_account
    if same_role target.role admin
        then (do
          n ← λ s. reply internal_error (ask fails (λ db. count_enabled_admins db.users) s)
          require (not (leb n 1)) last_admin)
        else pure tt

  -- apiUsersSetPortalAccess
  unfoldable pub users_set_portal_access : ℕ → Bool → Api (Unit {0})
  unfolding reply get_user update_user
  users_set_portal_access id enabled = do
    target ← λ s. reply no_such_user (get_user fails id s)
    λ s.
        reply internal_error
          (update_user fails id (λ u. record u { portal_access_enabled = enabled }) s)

  module _ (known : Text → Bool) (decode : Text → Option Text) (removes : Text → Text → Bool) where
    unfoldable pub remove_decoded : Text → Option Text → State → State
    unfolding without_peer
    remove_decoded provider none s = s
    remove_decoded provider (some key) s =
        if removes provider key then record s { peers = without_peer provider key s.peers } else s

    -- the body of the loop of removeUserPeers
    unfoldable pub remove_owned : Owner → Api (Unit {0})
    unfolding remove_decoded try_change without_owner
    remove_owned o s =
        try_change (λ db. record db { owners = without_owner o.provider o.peer_key db.owners })
          (if known o.provider then remove_decoded o.provider (decode o.peer_key) s else s)

    -- removeUserPeers
    unfoldable pub remove_user_peers : ℕ → Api (Unit {0})
    unfolding try_rows remove_owned owned_by
    remove_user_peers id = do owned ← try_rows λ db. owned_by id db.owners; each remove_owned owned

    -- apiUsersDelete
    unfoldable pub users_delete : ℕ → ℕ → Api (Unit {0})
    unfolding reply get_user check_last_admin remove_user_peers delete_user
    users_delete caller id = do
      target ← λ s. reply no_such_user (get_user fails id s)
      check_last_admin target
      require (not (target.id == caller)) own_account
      remove_user_peers id
      λ s. reply internal_error (delete_user fails id s)

    unfoldable pub withdraw : ℕ → Api (Unit {0})
    unfolding remove_user_peers deny_user_requests
    withdraw id = do remove_user_peers id; deny_user_requests id

    -- apiUsersSetEnabled
    unfoldable pub users_set_enabled : ℕ → ℕ → Bool → Api (Unit {0})
    unfolding reply get_user check_disable update_user withdraw
    users_set_enabled caller id enabled = do
      target ← λ s. reply no_such_user (get_user fails id s)
      if enabled then pure tt else check_disable caller target
      λ s. reply internal_error (update_user fails id (λ u. record u { enabled = enabled }) s)
      if enabled then pure tt else withdraw id

  module _ (classes : Classes) (crypto : Crypto) where
    -- `req.Role`: `user` where it is empty, and `none` where it is no role
    abbrev pub read_role : Text → Option Role
    read_role role =
        if is_empty role || same role (codes "user")
        then some user
        else if same role (codes "admin")
        then some admin
        else none

    -- apiUsersCreate
    unfoldable pub users_create : Text → Text → Text → ℕ → Api User
    unfolding reply create_user get_account
    users_create username password req_role now = do
      require (not (is_empty (trim_space username))) username_required
      role ← from_option (read_role req_role) bad_role
      λ s.
          reply rejected_password
            (create_user fails classes crypto [] (trim_space username) password role now s)
      λ s. reply internal_error (get_account fails (trim_space username) local s)

    -- apiUsersResetPassword
    unfoldable pub users_reset_password : ℕ → Text → ℕ → Api (Unit {0})
    unfolding reply get_user admin_set_password
    users_reset_password id new_password now = do
      target ← λ s. reply no_such_user (get_user fails id s)
      λ s.
          reply rejected_password
            (admin_set_password fails classes crypto [] target.username new_password now s)
