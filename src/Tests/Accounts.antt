-- ===== src/Tests/Accounts.antt =====
-- Logins and sessions at concrete inputs.
use protean.Prelude.{ℕ, List, [], ◌∷◌, ◌++◌, Bool, true, false, ◌≡◌, refl, Option, some, arith}
use protean.Prelude.Effects.{ok, Does, Runs}
use protean.Strings.{Text, codes, same}
use protean.Password.{Classes, Policy}
use protean.Accounts.{User, Db, State, GroupRule, admin, user, local, ldap, find_id, same_source}
use protean.Accounts.Manager.{Crypto, session, login, logout, authenticate, resolve_role_from_rules}
use protean.Accounts.Sessions.{IsLive, IsAdmitted, authenticate-IsLive, authenticate-logout}
use protean.Accounts.Logins.{IsProven, login-IsProven}
use protean.Accounts.Accepted.{AreDistinct, IsAccepted, authenticate-login}
use protean.Accounts.Remains.{Asked, deleting, enabling, HasAdmin, serve_all, serve_all-HasAdmin}
use protean.Accounts.Roles.{Resolves, resolve_role_from_rules-Resolves}

abbrev ascii : Classes
ascii = record { upper = λ c. false; lower = λ c. true; digit = λ c. false; symbol = λ c. false }

-- a toy hash, and codes that are always wrong
abbrev toy : Crypto
toy = record {
  hash_password = λ n p. some (codes "#" ++ p);
  check_password = λ h p. same h (codes "#" ++ p);
  validate_totp = λ secret code now. false;
  hash_token = λ t. codes "%" ++ t;
}

abbrev ann : User
ann = record {
  id = 1;
  username = codes "ann";
  password_hash = codes "#secret";
  role = user;
  auth_source = local;
  totp_secret = [];
  totp_enabled = false;
  password_changed_at = 0;
  enabled = true;
  portal_access_enabled = true;
}

abbrev bob : User
bob = record ann { id = 2; username = codes "bob"; role = admin }

abbrev lax : Policy
lax = record {
  min_length = 4;
  require_upper = false;
  require_lower = false;
  require_digit = false;
  require_symbol = false;
}

abbrev db : Db
db = record {
  users = ann ∷ bob ∷ [];
  sessions = [];
  next_id = 3;
  policy = lax;
  session_ttl_hours = 1;
  internal_enabled = true;
  ldap_enabled = false;
  oidc_enabled = false;
  group_rules = [];
  owners = [];
  requests = [];
}

abbrev start : State
start = record { db = db; calls = 0; peers = [] }

abbrev never : ℕ → Bool
never n = false

abbrev tok : Text
tok = codes "tok"

abbrev entered : State
entered = (login never ascii toy [] (some tok) (codes "ann") (codes "secret") 5 start).1

abbrev left : State
left = (logout never ascii toy [] tok entered).1

enters :
    login never ascii toy [] (some tok) (codes "ann") (codes "secret") 5 start
    ≡ (ok (session tok 3_600_000_000_005), entered)
unfolding login same same_source
enters = refl

leaves : logout never ascii toy [] tok entered ≡ (ok tt, left)
unfolding logout login same same_source
leaves = refl

distinct : AreDistinct db.users
unfolding find_id
distinct = (refl, (refl, tt))

login_example :
    Does
      (λ _ s'. s'.db ≡ start.db)
      (λ r s'.
        IsProven never ascii toy [] (some tok) (codes "ann") (codes "secret") 5 start.db r s'.db)
      (login never ascii toy [] (some tok) (codes "ann") (codes "secret") 5 start)
login_example = login-IsProven never ascii toy [] (some tok) (codes "ann") (codes "secret") 5 start

authentication_example :
    Runs
      (λ _ _. Unit)
      (λ x s'.
        IsLive entered.db (codes "%tok") 6 x
        × IsAdmitted never ascii toy [] entered.db x
        × (s'.db ≡ entered.db))
      (authenticate never ascii toy [] tok 6 entered)
authentication_example = authenticate-IsLive never ascii toy [] tok 6 entered

logout_example : Runs (λ _ _. Unit) (λ _ _. ⊥) (authenticate never ascii toy [] tok 7 left)
logout_example = authenticate-logout never ascii toy [] tok 7 entered left leaves

session_example :
    IsAccepted (codes "ann") entered.db (authenticate never ascii toy [] tok 6 entered)
session_example =
    authenticate-login never ascii toy [] (some tok) (codes "ann") (codes "secret") tok 5
      3_600_000_000_005 6 start entered (λ n. refl) distinct enters (omega arith)

abbrev rules : List GroupRule
rules =
    record { method = ldap; role = user; group_value = codes "staff" }
    ∷ record { method = ldap; role = admin; group_value = codes "ops" }
    ∷ []

roles_example :
    Resolves rules (codes "staff" ∷ []) (resolve_role_from_rules rules (codes "staff" ∷ []))
roles_example = resolve_role_from_rules-Resolves rules (codes "staff" ∷ [])

abbrev all_known : Text → Bool
all_known provider = true

abbrev plain : Text → Option Text
plain key = some key

abbrev removes : Text → Text → Bool
removes provider key = true

abbrev asked : List (ℕ × Asked)
asked = (2, deleting 2) ∷ (1, deleting 2) ∷ (2, enabling 1 false) ∷ []

has_admin : HasAdmin never ascii toy all_known plain removes start
unfolding find_id
has_admin = (2, (refl, refl))

requests_example :
    HasAdmin never ascii toy all_known plain removes
      (serve_all never ascii toy all_known plain removes asked start)
requests_example = serve_all-HasAdmin never ascii toy all_known plain removes asked start has_admin
