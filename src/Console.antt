-- ===== src/Console.antt =====
-- internal/console/hub.go: tickets for the web console, and the caps on its sessions.
-- Times are numbers of one clock. A map is the function that looks a key up; a missing count is 0.
-- The functions are the critical sections of the mutex: `Mint` has two, with the random token drawn
-- between them.
pub mod Caps
pub mod Tickets
use protean.Prelude.{
  ℕ, ◌+◌, ◌-◌, List, [], ◌∷◌, Bool, true, false, not, ◌&&◌, ◌||◌, Option, none, some, ltb, leb,
  ◌==◌, if◌then◌else◌,
}
use protean.Strings.{Text, same}

-- Config, the parts that the hub reads
pub record Config : Type 0 where
  pub max_per_user : ℕ
  pub max_total : ℕ
  pub ticket_ttl : ℕ

-- ticket
pub record Ticket : Type 0 where
  pub username : Text
  pub target : Text
  pub expires : ℕ
  pub used : Bool

-- Hub
pub record Hub : Type 0 where
  pub cfg : Config
  pub tickets : Text → Option Ticket
  pub by_user : Text → ℕ
  pub total : ℕ

abbrev pub update {ℓ} : {A : Type ℓ} → (Text → A) → Text → A → Text → A
update f key a k = if same key k then a else f k

-- NewHub; the default for the tickets' life is 30 s, here in seconds
unfoldable pub new_hub : Config → Hub
new_hub cfg = record {
  cfg = if cfg.ticket_ttl == 0 then record cfg { ticket_ttl = 30 } else cfg;
  tickets = λ k. none;
  by_user = λ u. 0;
  total = 0;
}

unfoldable pub live_ticket : ℕ → Option Ticket → Option Ticket
live_ticket now none = none
live_ticket now (some t) = if ltb t.expires now then none else some t

-- sweepLocked
unfoldable pub sweep : ℕ → Hub → Hub
unfolding live_ticket
sweep now h = record h { tickets = λ k. live_ticket now (h.tickets k) }

-- checkCapacityLocked: `false` is ErrTooManySessions
unfoldable pub has_capacity : Hub → Text → Bool
has_capacity h username =
    not (ltb 0 h.cfg.max_per_user && leb h.cfg.max_per_user (h.by_user username))
    && not (ltb 0 h.cfg.max_total && leb h.cfg.max_total h.total)

-- the first critical section of `Mint`
unfoldable pub mint_check : Text → ℕ → Hub → Hub × Bool
unfolding has_capacity sweep
mint_check username now h = if has_capacity h username then (sweep now h, true) else (h, false)

-- the second critical section of `Mint`, with the token that was drawn
unfoldable pub mint_store : Text → Text → Text → ℕ → Hub → Hub
mint_store tok username target now h = record h {
  tickets = update h.tickets tok (
      some (record {
        username = username;
        target = target;
        expires = now + h.cfg.ticket_ttl;
        used = false;
      }));
}

unfoldable pub redeem : Text → ℕ → Hub → Option Ticket → Hub × Option (Text × Text)
redeem tok now h none = (h, none)
redeem tok now h (some t) =
    if t.used || ltb t.expires now
    then (h, none)
    else (record h { tickets = update h.tickets tok none }, some (t.username, t.target))

-- Consume: `none` is ErrTicketInvalid
unfoldable pub consume : Text → ℕ → Hub → Hub × Option (Text × Text)
unfolding redeem sweep
consume tok now h = let h' = sweep now h in redeem tok now h' (h'.tickets tok)

-- what `Acquire` returns: the release function of a session, with its `sync.Once`
pub record Lease : Type 0 where
  pub user : Text
  pub released : Bool

unfoldable pub grant : Bool → Text → Hub → Hub × Option Lease
grant true username h = (
  record h { by_user = update h.by_user username (h.by_user username + 1); total = h.total + 1 },
  some (record { user = username; released = false }),
)
grant false username h = (h, none)

-- Acquire
unfoldable pub acquire : Text → Hub → Hub × Option Lease
unfolding grant
acquire username h = grant (has_capacity h username) username h

-- the release function; a count of 0 is a deleted entry
unfoldable pub release : Lease → Hub → Lease × Hub
release l h = if l.released then (l, h) else (
  record l { released = true },
  record h { by_user = update h.by_user l.user (h.by_user l.user - 1); total = h.total - 1 },
)
