-- ===== src/Tests/Sessions.antt =====
-- The console hub, at concrete inputs.
use protean.Prelude.{List, [], ◌∷◌, ◌≡◌, refl, ap, arith, length, none, some, All}
use protean.Strings.{Text, codes, same}
use protean.Console.{Config, Hub, new_hub, consume, mint_store}
use protean.Console.Tickets.{Event, minting, consuming, minted, IsOther, run, consume_once}
use protean.Console.Caps.{Act, opening, closing, IsWithin, perform, hub-IsWithin}

abbrev cfg : Config
cfg = record { max_per_user = 1; max_total = 2; ticket_ttl = 30 }

abbrev ann : Text
ann = codes "ann"

abbrev tok : Text
tok = codes "f00d"

abbrev hub : Hub
hub = mint_store tok ann (codes "host") 5 (new_hub cfg)

abbrev later_events : List Event
later_events = minting ann 8 ∷ minted (codes "beefe") ann (codes "host") 8 ∷ consuming tok 9 ∷ []

redeemed : (consume tok 7 hub).1 ≡ some (ann, codes "host")
unfolding consume mint_store new_hub same
redeemed = refl

others : All (IsOther tok) later_events
others = (tt, ((λ e. omega (arith, ap length e)), (tt, tt)))

once_example : (consume tok 9 (run (consume tok 7 hub).0 later_events)).1 ≡ none
once_example = consume_once tok hub 7 9 (ann, codes "host") later_events redeemed others

abbrev acts : List Act
acts = opening ann ∷ opening ann ∷ closing 0 ∷ closing 0 ∷ opening ann ∷ []

caps_example :
    IsWithin
      (perform (record { hub = new_hub cfg; leases = [] }) acts).hub
      (perform (record { hub = new_hub cfg; leases = [] }) acts).leases
caps_example = hub-IsWithin cfg acts
