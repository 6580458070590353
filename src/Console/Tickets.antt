-- ===== src/Console/Tickets.antt =====
-- Tickets are single-use and expire.
use protean.Prelude.{
  ℕ, ◌+◌, List, [], ◌∷◌, Bool, true, false, ◌≡◌, ◌≢◌, refl, arith, Option, none, some, ltb,
  if◌then◌else◌, All,
}
use protean.Strings.{Text}
use protean.Strings.Laws.{same_refl, same_ne}
use protean.Console.{
  Ticket, Hub, live_ticket, sweep, mint_check, mint_store, redeem, consume, Lease, grant,
  has_capacity, acquire, release,
}

-- what happens at the hub, critical section by critical section, in the order of the mutex
pub data Event : Type 0 where
  minting : Text → ℕ → Event
  minted : Text → Text → Text → ℕ → Event
  consuming : Text → ℕ → Event
  acquiring : Text → Event
  releasing : Lease → Event

unfoldable pub step : Hub → Event → Hub
step h (minting user now) = (mint_check user now h).0
step h (minted tok user target now) = mint_store tok user target now h
step h (consuming tok now) = (consume tok now h).0
step h (acquiring user) = (acquire user h).0
step h (releasing l) = (release l h).1

unfoldable pub run : Hub → List Event → Hub
unfolding step
run h [] = h
run h (e ∷ es) = run (step h e) es

-- The event does not store the token.
abbrev pub IsOther : Text → Event → Type 0
IsOther tok (minted tok' user target now) = tok' ≢ tok
IsOther tok _ = Unit

module _ (tok : Text) where
  absent_sweep : (now : ℕ) (h : Hub) → h.tickets tok ≡ none → (sweep now h).tickets tok ≡ none
  unfolding sweep live_ticket
  absent_sweep now h e = rw e

  absent_redeem :
      (tok' : Text) (now : ℕ) (h : Hub) (o : Option Ticket)
      → h.tickets tok ≡ none
      → (redeem tok' now h o).0.tickets tok ≡ none
  unfolding redeem
  absent_redeem tok' now h none e = e
  absent_redeem tok' now h (some t) e = ground arith

  absent_grant :
      (b : Bool) (user : Text) (h : Hub)
      → h.tickets tok ≡ none
      → (grant b user h).0.tickets tok ≡ none
  unfolding grant
  absent_grant true user h e = e
  absent_grant false user h e = e

  absent_step :
      (h : Hub) (ev : Event)
      → IsOther tok ev
      → h.tickets tok ≡ none
      → (step h ev).tickets tok ≡ none
  unfolding step
  absent_step h (minting user now) o e = unfold mint_check in ground (arith, absent_sweep now h e)
  absent_step h (minted tok' user target now) o e = unfold mint_store in rw (same_ne tok' tok o) e
  absent_step h (consuming tok' now) o e =
      unfold consume in
      absent_redeem tok' now (sweep now h) ((sweep now h).tickets tok') (absent_sweep now h e)
  absent_step h (acquiring user) o e = unfold acquire in absent_grant (has_capacity h user) user h e
  absent_step h (releasing l) o e = unfold release in ground arith

  absent_run :
      (h : Hub) (es : List Event)
      → All (IsOther tok) es
      → h.tickets tok ≡ none
      → (run h es).tickets tok ≡ none
  unfolding run
  absent_run h [] o e = e
  absent_run h (ev ∷ es) o e = absent_run (step h ev) es o.1 (absent_step h ev o.0 e)

  absent_refused : (now : ℕ) (h : Hub) → h.tickets tok ≡ none → (consume tok now h).1 ≡ none
  unfolding consume
  absent_refused now h e = rw (absent_sweep now h e) (unfold redeem in refl)

  redeemed_gone :
      (now : ℕ) (h : Hub) (o : Option Ticket) (who : Text × Text)
      → (redeem tok now h o).1 ≡ some who
      → (redeem tok now h o).0.tickets tok ≡ none
  unfolding redeem
  redeemed_gone now h none who e = cc
  redeemed_gone now h (some t) who e = ground (arith, same_refl tok)

  -- A ticket that was redeemed is refused from then on, at any time and after whatever else happens
  -- at the hub, as long as its token is not stored again.
  pub consume_once :
      (h : Hub) (now later : ℕ) (who : Text × Text) (es : List Event)
      → (consume tok now h).1 ≡ some who
      → All (IsOther tok) es
      → (consume tok later (run (consume tok now h).0 es)).1 ≡ none
  consume_once h now later who es e o = absent_refused later (run (consume tok now h).0 es) (
      absent_run (consume tok now h).0 es o
        (unfold consume in redeemed_gone now (sweep now h) ((sweep now h).tickets tok) who e))

-- A ticket just minted for a user and a target is good for both until its time to live has passed,
-- and is refused after that.
consume-mint_store :
    (tok user target : Text) (now later : ℕ) (h : Hub)
    → (consume tok later (mint_store tok user target now h)).1
      ≡ (if ltb (now + h.cfg.ticket_ttl) later then none else some (user, target))
unfolding consume mint_store
consume-mint_store tok user target now later h =
    rw (same_refl tok) (pick (ltb (now + h.cfg.ticket_ttl) later) refl)
  where
    t : Ticket
    t = record { username = user; target = target; expires = now + h.cfg.ticket_ttl; used = false }

    pick :
        (b : Bool)
        → ltb (now + h.cfg.ticket_ttl) later ≡ b
        → (redeem tok later
            (sweep later (mint_store tok user target now h))
            (if b then none else some t)).1
          ≡ (if b then none else some (user, target))
    pick true e = unfold redeem in refl
    pick false e = unfold redeem in rw e refl
