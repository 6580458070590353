-- ===== src/Guard.antt =====
-- internal/auth/bruteforce.go, and the queries of internal/store/login_security.go that it makes.
-- Times are nanoseconds of one clock. The database is modelled as answering every query; a table is
-- a list, or a function from its key. Go's float64 arithmetic is a parameter.
pub mod Rules
pub mod Bans
use protean.Prelude.{
  ℕ, ◌+◌, ◌-◌, ◌*◌, ◌≤◌, List, [], ◌∷◌, Bool, true, false, not, ◌&&◌, ◌||◌, ◌≡◌, Option, none, some,
  ltb, leb, ◌==◌, if◌then◌else◌,
}
use protean.Strings.{Text, codes, same, is_empty}
use protean.Net.{Ip, IpNet, contains}
use protean.Net.Parse.{parse_ip, parse_cidr}

-- float64, as the guard uses it; `to_duration` is `time.Duration(x * float64(time.Minute))`
pub record Floats : Type 1 where
  pub Float : Type 0
  pub of_int : ℕ → Float
  pub times : Float → Float → Float
  pub pow : Float → Float → Float
  pub exceeds : Float → Float → Bool
  pub to_duration : Float → ℕ

abbrev pub second : ℕ
second = 1_000_000_000

abbrev pub minute : ℕ
minute = 60_000_000_000

-- the key types "ip" and "username"
pub data KeyType : Type 0 where
  by_ip by_username : KeyType

pub data RuleKind : Type 0 where
  deny allow : RuleKind

-- store.LoginIPRule
pub record Rule : Type 0 where
  pub kind : RuleKind
  pub ip_or_cidr : Text

-- a row of `login_attempts`
pub record Attempt : Type 0 where
  pub username : Text
  pub ip : Text
  pub success : Bool
  pub ts : ℕ

-- a row of `login_ban_state`
pub record BanState : Type 0 where
  pub banned_until : ℕ
  pub level : ℕ

-- CheckResult
pub data CheckResult : Type 0 where
  allowed : CheckResult
  ip_denied : CheckResult
  banned : KeyType → ℕ → CheckResult

-- whether a rule is about the address: the same text, or a network that contains it
unfoldable pub in_network : Option Ip → Option (Ip × IpNet) → Bool
in_network none net = false
in_network (some ip) none = false
in_network (some ip) (some (base, net)) = contains net ip

unfoldable pub rule_matches : Text → Rule → Bool
unfolding in_network
rule_matches ip r = same r.ip_or_cidr ip || in_network (parse_ip ip) (parse_cidr r.ip_or_cidr)

unfoldable pub is_deny : RuleKind → Bool
is_deny deny = true
is_deny allow = false

-- matchIPRules; `matched` is the variable of that name, where `none` is ""
unfoldable pub match_ip_rules : List Rule → Text → Option RuleKind → Option RuleKind
unfolding is_deny
match_ip_rules [] ip matched = matched
match_ip_rules (r ∷ rs) ip matched =
    let rest = match_ip_rules rs ip (if rule_matches ip r then some allow else matched) in
    if rule_matches ip r && is_deny r.kind then some deny else rest

module _ (floats : Floats) where
  open floats use {Float, of_int, times, pow, exceeds, to_duration}

  -- store.LoginSecuritySettings
  pub record Settings : Type 0 where
    pub enabled : Bool
    pub track_by_username : Bool
    pub track_by_ip : Bool
    pub fail_threshold : ℕ
    pub count_window_minutes : ℕ
    pub ban_base_minutes : ℕ
    pub escalation_factor : Float
    pub escalation_reset_minutes : ℕ
    pub max_ban_minutes : ℕ

  pub record Db : Type 0 where
    pub settings : Settings
    pub rules : List Rule
    pub attempts : List Attempt
    pub bans : KeyType → Text → Option BanState

  abbrev pub key_of : KeyType → Attempt → Text
  key_of by_ip a = a.ip
  key_of by_username a = a.username

  -- CountRecentFailures: `ts > now - window`
  unfoldable pub count_recent_failures : KeyType → Text → ℕ → ℕ → List Attempt → ℕ
  count_recent_failures kt key now window [] = 0
  count_recent_failures kt key now window (a ∷ as') =
      (if same (key_of kt a) key && not a.success && ltb now (a.ts + window) then 1 else 0)
      + count_recent_failures kt key now window as'

  -- RecordLoginAttempt
  unfoldable pub record_attempt : Text → Text → Bool → ℕ → Db → Db
  record_attempt username ip success now db = record db {
    attempts = record { username = username; ip = ip; success = success; ts = now } ∷ db.attempts;
  }

  abbrev pub same_key : KeyType → KeyType → Bool
  same_key by_ip by_ip = true
  same_key by_username by_username = true
  same_key _ _ = false

  -- UpsertLoginBanState
  unfoldable pub upsert_ban : KeyType → Text → ℕ → ℕ → Db → Db
  upsert_ban kt key until level db = record db {
    bans = λ k t.
        if same_key kt k && same key t
        then some (record { banned_until = until; level = level })
        else db.bans k t;
  }

  unfoldable pub ban_left : KeyType → ℕ → Option BanState → Option CheckResult
  ban_left kt now none = none
  ban_left kt now (some b) =
      if leb b.banned_until now then none else some (banned kt (b.banned_until - now))

  -- checkBan: the rejection, where there is one
  unfoldable pub check_ban : KeyType → Text → ℕ → Db → Option CheckResult
  unfolding ban_left
  check_ban kt key now db = ban_left kt now (db.bans kt key)

  -- the answer of a ban check, where it has one, or that of the next
  unfoldable pub first_ban : Option CheckResult → CheckResult → CheckResult
  first_ban none next = next
  first_ban (some r) next = r

  -- the two ban checks of `CheckLogin`
  unfoldable pub check_username : Text → ℕ → Db → CheckResult
  unfolding check_ban
  check_username username now db =
      if db.settings.track_by_username && not (is_empty username)
      then first_ban (check_ban by_username username now db) allowed
      else allowed

  unfoldable pub check_bans : Text → Text → ℕ → Db → CheckResult
  unfolding check_username
  check_bans ip username now db =
      if db.settings.track_by_ip
      then first_ban (check_ban by_ip ip now db) (check_username username now db)
      else check_username username now db

  unfoldable pub by_rule : Option RuleKind → CheckResult → CheckResult
  by_rule (some deny) rest = ip_denied
  by_rule (some allow) rest = allowed
  by_rule none rest = rest

  -- CheckLogin
  unfoldable pub check_login : Text → Text → ℕ → Db → CheckResult
  unfolding by_rule check_bans
  check_login ip username now db =
      if not db.settings.enabled
      then allowed
      else by_rule (match_ip_rules db.rules ip none) (check_bans ip username now db)

  -- LogRejected
  unfoldable pub log_rejected : Text → Text → ℕ → Db → Db
  unfolding record_attempt
  log_rejected ip username now db = record_attempt username ip false now db

  -- the level of the next ban: one more than that of a ban that ended recently enough
  unfoldable pub next_level : Settings → ℕ → Option BanState → ℕ
  next_level s now none = 0
  next_level s now (some prev) =
      if leb now (prev.banned_until + s.escalation_reset_minutes * minute)
      then prev.level + 1
      else 0

  -- the duration of a ban at a level
  unfoldable pub ban_duration : Settings → ℕ → ℕ
  ban_duration s level =
      let minutes = times (of_int s.ban_base_minutes) (pow s.escalation_factor (of_int level)) in
      to_duration
        (if exceeds minutes (of_int s.max_ban_minutes) then of_int s.max_ban_minutes else minutes)

  -- maybeEscalate
  unfoldable pub maybe_escalate : KeyType → Text → ℕ → Db → Db
  unfolding next_level
  maybe_escalate kt key now db =
      let s = db.settings in
      if ltb (count_recent_failures kt key now (s.count_window_minutes * minute) db.attempts)
        s.fail_threshold
      then db
      else let level = next_level s now (db.bans kt key) in
        upsert_ban kt key (now + ban_duration s level) level db

  -- `f` for each key that is tracked, the address first
  unfoldable pub for_keys : (KeyType → Text → Db → Db) → Text → Text → Db → Db
  for_keys f ip username db =
      let db' = if db.settings.track_by_ip then f by_ip ip db else db in
      if db.settings.track_by_username && not (is_empty username)
      then f by_username username db'
      else db'

  -- RecordResult
  unfoldable pub record_result : Text → Text → Bool → ℕ → Db → Db
  unfolding record_attempt for_keys
  record_result ip username success now db =
      let db' = record_attempt username ip success now db in
      if not db'.settings.enabled
      then db'
      else if success
      then for_keys (λ kt key. upsert_ban kt key (now - second) 0) ip username db'
      else for_keys (λ kt key. maybe_escalate kt key now) ip username db'
