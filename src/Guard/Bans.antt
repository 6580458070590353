-- ===== src/Guard/Bans.antt =====
-- Bans: what clears them, what issues them, and how long they are.
use protean.Prelude.{
  ℕ, ◌+◌, ◌-◌, ◌*◌, ◌≤◌, ◌<◌, true, false, not, ◌≡◌, arith, none, some, if◌then◌else◌,
}
use protean.Strings.{Text}
use protean.Strings.Laws.{same_refl}
use protean.Guard.{
  Floats, minute, second, KeyType, by_ip, by_username, allowed, banned, match_ip_rules, Db,
  count_recent_failures, record_attempt, upsert_ban, ban_left, check_ban, first_ban, check_username,
  check_bans, by_rule, check_login, log_rejected, next_level, ban_duration, maybe_escalate,
  for_keys, record_result,
}

module _ (floats : Floats) where
  open floats use {of_int, exceeds, times, pow}

  -- A ban that has ended does not stop a login.
  ended :
      (kt : KeyType) (now t : ℕ) (level : ℕ)
      → t ≤ now
      → ban_left floats kt now (some (record { banned_until = t - second; level = level })) ≡ none
  unfolding ban_left
  ended kt now t level h = ground arith

  -- The bans that a success clears are those that a login looks at.
  cleared :
      (ip username : Text) (now t : ℕ) (db : Db floats)
      → t ≤ now
      → check_bans floats ip username now
          (for_keys floats (λ kt key. upsert_ban floats kt key (t - second) 0) ip username db)
        ≡ allowed
  unfolding check_bans check_username check_ban ban_left first_ban for_keys upsert_ban
  cleared ip username now t db h = ground (arith, same_refl ip, same_refl username)

  -- An attempt that the guard turned away counts as a failure of its address and its user name.
  log_rejected-counts :
      (ip username : Text) (t now window : ℕ) (db : Db floats)
      → now < t + window
      → (count_recent_failures floats by_ip ip now window
            (log_rejected floats ip username t db).attempts
          ≡ count_recent_failures floats by_ip ip now window db.attempts + 1)
        × (count_recent_failures floats by_username username now window
              (log_rejected floats ip username t db).attempts
            ≡ count_recent_failures floats by_username username now window db.attempts + 1)
  unfolding log_rejected count_recent_failures
  log_rejected-counts ip username t now window db h =
      (ground (arith, same_refl ip), ground (arith, same_refl username))

  -- After a login that succeeds, no ban stops the same address and user name: only a rule can, and
  -- with the guard switched off nothing does.
  pub record_result-unlocks :
      (ip username : Text) (t now : ℕ) (db : Db floats)
      → t ≤ now
      → check_login floats ip username now (record_result floats ip username true t db) ≡ (
          if not db.settings.enabled
          then allowed
          else by_rule floats (match_ip_rules db.rules ip none) allowed)
  unfolding record_result check_login record_attempt for_keys upsert_ban check_bans check_username
      check_ban ban_left first_ban
  record_result-unlocks ip username t now db h = ground (arith, same_refl ip, same_refl username)

  -- A failed login that is the one too many for its address gets the address banned at once, for
  -- the duration of the level that the address has reached.
  pub record_result-bans :
      (ip username : Text) (t : ℕ) (db : Db floats)
      → db.settings.enabled ≡ true
      → db.settings.track_by_ip ≡ true
      → match_ip_rules db.rules ip none ≡ none
      → 0 < db.settings.count_window_minutes
      → db.settings.fail_threshold
        ≤ count_recent_failures floats by_ip ip t
            (db.settings.count_window_minutes * minute)
            db.attempts
          + 1
      → 0 < ban_duration floats db.settings (next_level floats db.settings t (db.bans by_ip ip))
      → check_login floats ip username t (record_result floats ip username false t db)
        ≡ banned by_ip
            (ban_duration floats db.settings (next_level floats db.settings t (db.bans by_ip ip)))
  unfolding record_result check_login record_attempt for_keys maybe_escalate upsert_ban check_bans
      check_ban ban_left first_ban by_rule count_recent_failures
  record_result-bans ip username t db on by norule window reached positive =
      ground (arith, same_refl ip, same_refl username)
