-- ===== src/Tests/Logins.antt =====
-- The login guard, at concrete inputs. The floats stand in as whole numbers.
use protean.Prelude.{
  ℕ, ◌*◌, ◌^◌, List, [], ◌∷◌, true, false, not, ◌≡◌, refl, arith, none, some, ltb, if◌then◌else◌,
}
use protean.Strings.{Text, codes}
use protean.Guard.{
  Floats, minute, by_ip, allowed, banned, deny, allow, Rule, rule_matches, match_ip_rules, Settings,
  Db, count_recent_failures, by_rule, check_login, next_level, ban_duration, record_result,
}
use protean.Guard.Rules.{some_rule, denies, match_ip_rules_lem}
use protean.Guard.Bans.{record_result-unlocks, record_result-bans}

abbrev floats : Floats
floats = record {
  Float = ℕ;
  of_int = λ n. n;
  times = λ x y. x * y;
  pow = λ x y. x ^ y;
  exceeds = λ x y. ltb y x;
  to_duration = λ x. x * minute;
}

abbrev settings : Settings floats
settings = record {
  enabled = true;
  track_by_username = true;
  track_by_ip = true;
  fail_threshold = 1;
  count_window_minutes = 10;
  ban_base_minutes = 15;
  escalation_factor = 2;
  escalation_reset_minutes = 60;
  max_ban_minutes = 1440;
}

abbrev db : Db floats
db = record { settings = settings; rules = []; attempts = []; bans = λ k t. none }

abbrev ip : Text
ip = codes "203.0.113.9"

abbrev ann : Text
ann = codes "ann"

unlocks_example : check_login floats ip ann 1_000 (record_result floats ip ann true 900 db) ≡ (
    if not db.settings.enabled
    then allowed
    else by_rule floats (match_ip_rules db.rules ip none) allowed)
unlocks_example = record_result-unlocks floats ip ann 900 1_000 db (omega arith)

bans_example :
    check_login floats ip ann 1_000 (record_result floats ip ann false 1_000 db)
    ≡ banned by_ip
        (ban_duration floats db.settings (next_level floats db.settings 1_000 (db.bans by_ip ip)))
unfolding ban_duration next_level match_ip_rules count_recent_failures
bans_example =
    record_result-bans floats ip ann 1_000 db refl refl refl (omega arith) (omega arith)
      (omega arith)

abbrev rules : List Rule
rules =
    record { kind = allow; ip_or_cidr = codes "203.0.113.0/24" }
    ∷ record { kind = deny; ip_or_cidr = ip }
    ∷ []

rules_example : match_ip_rules rules ip none ≡ (
    if some_rule (denies ip) rules
    then some deny
    else if some_rule (rule_matches ip) rules
    then some allow
    else none)
rules_example = match_ip_rules_lem rules ip
