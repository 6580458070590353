-- ===== src/Tests/Sweeps.antt =====
-- A sweep over a host where one peer cannot be removed, and one is due later.
use protean.Prelude.{
  ℕ, List, [], ◌∷◌, Bool, true, false, ◌||◌, ◌≡◌, refl, some, if◌then◌else◌, map, arith,
}
use protean.Strings.{Text, codes, same}
use protean.Expiry.{Peer, Providers, State, sweep_expired}
use protean.Expiry.Sweep.{Removes, has_row, sweep_expired-has_row}

abbrev stuck : Text
stuck = codes "stuck"

-- the keys that run
unfoldable running_key : Text → List Text → Bool
running_key key [] = false
running_key key (k ∷ ks) = same k key || running_key key ks

unfoldable stop_key : Text → List Text → List Text
stop_key key [] = []
stop_key key (k ∷ ks) = let rest = stop_key key ks in if same k key then rest else k ∷ rest

abbrev listed : Text → Peer
listed key = record { public_key = key; name = codes "n"; allowed_ips = []; keepalive = 25 }

unfoldable remove_key : Text → List Text → Bool × List Text
unfolding stop_key
remove_key key ks = if same key stuck then (false, ks) else (true, stop_key key ks)

abbrev one_provider : Providers (List Text)
one_provider = record {
  known = same (codes "wg0");
  cert_based = λ _. false;
  list_peers = λ _ ks. some (map listed ks);
  remove_peer = λ _ key ks. remove_key key ks;
}

stop_key-running_key : (key : Text) (ks : List Text) → running_key key (stop_key key ks) ≡ false
unfolding running_key stop_key
stop_key-running_key key [] = refl
stop_key-running_key key (k ∷ ks) = ground (arith, stop_key-running_key key ks)

stop_key-keeps_off :
    (key k : Text) (ks : List Text)
    → running_key k ks ≡ false
    → running_key k (stop_key key ks) ≡ false
unfolding running_key stop_key
stop_key-keeps_off key k [] h = refl
stop_key-keeps_off key k (x ∷ xs) h = ground (arith, stop_key-keeps_off key k xs)

stops_key :
    (key : Text) (h : List Text)
    → (remove_key key h).0 ≡ true
    → running_key key (remove_key key h).1 ≡ false
unfolding remove_key
stops_key key h done = ground (arith, stop_key-running_key key h)

starts_no_key :
    (key k : Text) (h : List Text)
    → running_key k h ≡ false
    → running_key k (remove_key key h).1 ≡ false
unfolding remove_key
starts_no_key key k h off = ground (arith, stop_key-keeps_off key k h)

abbrev one_provider_removes : Removes one_provider
one_provider_removes = record {
  running = λ _ k ks. running_key k ks;
  stops = λ _ key h. stops_key key h;
  starts_none = λ _ key _ k h. starts_no_key key k h;
}

abbrev before : State (List Text)
before = record {
  expiries =
      record { provider = codes "wg0"; peer_id = codes "gone"; expires_at = 5 }
      ∷ record { provider = codes "wg0"; peer_id = stuck; expires_at = 7 }
      ∷ record { provider = codes "wg0"; peer_id = codes "late"; expires_at = 90 }
      ∷ [];
  disabled = [];
  calls = 0;
  host = codes "gone" ∷ stuck ∷ codes "late" ∷ [];
}

abbrev never : ℕ → Bool
never _ = false

sweep_result : (sweep_expired never one_provider 10 before).host ≡ stuck ∷ codes "late" ∷ []
unfolding sweep_expired remove_key same
sweep_result = refl

stuck_row : has_row (codes "wg0") stuck before.expiries ≡ true
unfolding has_row same
stuck_row = refl

stuck_runs : running_key stuck (sweep_expired never one_provider 10 before).host ≡ true
unfolding sweep_expired remove_key running_key same
stuck_runs = refl

sweep_expired_example :
    has_row (codes "wg0") stuck (sweep_expired never one_provider 10 before).expiries ≡ true
sweep_expired_example =
    sweep_expired-has_row never one_provider_removes (codes "wg0") stuck 10 before stuck_row
      stuck_runs
