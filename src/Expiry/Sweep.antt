-- ===== src/Expiry/Sweep.antt =====
-- A row of the expiry table is cleared only when its peer is gone.
use protean.Prelude.{
  ℕ, suc, List, [], ◌∷◌, Bool, true, false, not, ◌&&◌, ◌||◌, ◌≡◌, refl, sym, ap, ◌∙◌, inl, inr,
  Option, none, some, if◌then◌else◌, Bool-cases, arith, ◌⊎◌, ap₂, both,
}
use protean.Prelude.Effects.{Action, Except, ok, failed, from_option, Does, Does-after}
use protean.Strings.{Text, same}
use protean.Strings.Laws.{same_iff}
use protean.Expiry.{
  Providers, Peer, PeerExpiry, DisabledPeer, SweepError, peer_not_found, State, find_key,
  drop_expiry, drop_disabled, due_at, disabled_of, change, removal, remove, find_among, find_peer,
  save_disabled, take_back, disable_peer, clear_row, sweep_each, sweep_expired,
}

-- The interface's promises about the peers that a host runs: a removal that succeeds stops its peer,
-- and no removal starts one.
pub record Removes {Host : Type 0} (providers : Providers Host) : Type 0 where
  pub running : Text → Text → Host → Bool
  pub stops :
      (provider key : Text) (h : Host)
      → (providers.remove_peer provider key h).0 ≡ true
      → running provider key (providers.remove_peer provider key h).1 ≡ false
  pub starts_none :
      (provider key p k : Text) (h : Host)
      → running p k h ≡ false
      → running p k (providers.remove_peer provider key h).1 ≡ false

-- whether the table has a row of the peer
unfoldable pub has_row : Text → Text → List PeerExpiry → Bool
has_row provider id [] = false
has_row provider id (e ∷ es) =
    (same e.provider provider && same e.peer_id id) || has_row provider id es

has_row-drop_expiry :
    (provider id p i : Text) (es : List PeerExpiry)
    → same provider p && same id i ≡ false
    → has_row p i (drop_expiry provider id es) ≡ has_row p i es
unfolding has_row drop_expiry
has_row-drop_expiry provider id p i [] h = refl
has_row-drop_expiry provider id p i (e ∷ es) h = ground (
  arith,
  has_row-drop_expiry provider id p i es h,
  (same_iff e.provider provider).0,
  (same_iff e.peer_id id).0,
)

if-elim : {A : Type 0} {x y : A} (b : Bool) (P : A → Type 0) → P x → P y → P (if b then x else y)
if-elim true P h k = h
if-elim false P h k = k

module _ {Host : Type 0} (fails : ℕ → Bool) {providers : Providers Host}
    (removes : Removes providers) (p i : Text) where
  open removes use {running, stops, starts_none}

  -- What a step does to the peer: it does not start it, and leaves the table.
  pub record Calm (s s' : State Host) : Type 0 where
    pub same_rows : s'.expiries ≡ s.expiries
    pub stays_off : running p i s.host ≡ false → running p i s'.host ≡ false

  -- The same where rows may go, but the peer's only when it is off.
  pub record Sound (s s' : State Host) : Type 0 where
    pub keeps_row :
        has_row p i s.expiries ≡ true
        → (has_row p i s'.expiries ≡ true) ⊎ (running p i s'.host ≡ false)
    pub stays_off : running p i s.host ≡ false → running p i s'.host ≡ false

  Calm-trans : {s t u : State Host} → Calm s t → Calm t u → Calm s u
  Calm-trans c d = record {
    same_rows = d.same_rows ∙ c.same_rows;
    stays_off = λ h. d.stays_off (c.stays_off h);
  }

  Sound-trans : {s t u : State Host} → Sound s t → Sound t u → Sound s u
  Sound-trans c d = record {
    keeps_row =
        λ h. elim (c.keeps_row h) [ inl r ↦ d.keeps_row r | inr off ↦ inr (d.stays_off off) ];
    stays_off = λ h. d.stays_off (c.stays_off h);
  }

  Calm-Sound : {s t : State Host} → Calm s t → Sound s t
  Calm-Sound c = record {
    keeps_row = λ h. inl (ap (has_row p i) c.same_rows ∙ h);
    stays_off = c.stays_off;
  }

  -- a statement on the other table
  change-Calm :
      (f : State Host → State Host) (s : State Host)
      → ((t : State Host) → Calm t (f t))
      → Calm s (change fails providers f s).1
  unfolding change
  change-Calm f s h =
      if-elim {A = Except SweepError (Unit {0}) × State Host} (fails s.calls) (λ r. Calm s r.1)
        (record { same_rows = refl; stays_off = λ o. o })
        (Calm-trans (record { same_rows = refl; stays_off = λ o. o })
          (h (record s { calls = suc s.calls })))

  -- The peer, where it is the one at hand, is off.
  abbrev Gone : Text → Text → State Host → Type 0
  Gone provider key t = provider ≡ p → key ≡ i → running p i t.host ≡ false

  removal-Does :
      (provider key : Text) (r : Bool × Host) (s : State Host)
      → (running p i s.host ≡ false → running p i r.1 ≡ false)
      → (r.0 ≡ true → provider ≡ p → key ≡ i → running p i r.1 ≡ false)
      → Does (λ _ t. Calm s t) (λ _ t. Calm s t × Gone provider key t) (removal fails providers r s)
  unfolding removal
  removal-Does provider key (true, h) s stays off = record {
    runs = (record { same_rows = refl; stays_off = stays }, off refl);
  }
  removal-Does provider key (false, h) s stays off = record {
    runs = record { same_rows = refl; stays_off = stays };
  }

  remove-Does :
      (provider key : Text) (s : State Host)
      → Does
          (λ _ t. Calm s t)
          (λ _ t. Calm s t × Gone provider key t)
          (remove fails providers provider key s)
  unfolding remove
  remove-Does provider key s =
      removal-Does provider key (providers.remove_peer provider key s.host) s
        (starts_none provider key p i s.host)
        (λ done ep ei.
          sym (ap₂ (λ a b. running a b (providers.remove_peer provider key s.host).1) ep ei)
          ∙ stops provider key s.host done)

  Gone-none :
      (provider key : Text) (r : Except SweepError (Unit {0}) × State Host) (s : State Host)
      → Does (λ _ t. Calm s t) (λ _ t. Calm s t × Gone provider key t) r
      → Does
          (λ _ t. Calm s t)
          (λ _ t. Calm s t × Gone provider key t)
          (take_back fails providers provider key r)
  unfolding take_back
  Gone-none provider key (ok x, t) s h = record { runs = h.runs }
  Gone-none provider key (failed e, t) s h = record {
    runs = Calm-trans h.runs (
        change-Calm (λ z. record z { disabled = drop_disabled provider key z.disabled }) t
          (λ z. record { same_rows = refl; stays_off = λ o. o }));
  }

  from_option-Calm :
      {A : Type 0} (o : Option A) (e : SweepError) (s : State Host)
      → Does (λ _ t. Calm s t) (λ _ t. Calm s t) (from_option o e s)
  from_option-Calm none e s = record { runs = record { same_rows = refl; stays_off = λ o. o } }
  from_option-Calm (some a) e s = record { runs = record { same_rows = refl; stays_off = λ o. o } }

  find_among-Does :
      (key : Text) (found : Option (List Peer)) (s : State Host)
      → Does (λ _ t. Calm s t) (λ _ t. Calm s t) (find_among fails providers key found s)
  unfolding find_among
  find_among-Does key none s = record { runs = record { same_rows = refl; stays_off = λ o. o } }
  find_among-Does key (some peers) s = from_option-Calm (find_key key peers) peer_not_found s

  save_disabled-Does :
      (d : DisabledPeer) (s t : State Host)
      → Calm s t
      → Does (λ _ u. Calm s u) (λ _ u. Calm s u) (save_disabled fails providers d t)
  unfolding save_disabled change
  save_disabled-Does d s t c =
      if-elim {A = Except SweepError (Unit {0}) × State Host} (fails t.calls)
        (λ r. Does (λ _ u. Calm s u) (λ _ u. Calm s u) r)
        (record { runs = record { same_rows = c.same_rows; stays_off = c.stays_off } })
        (record { runs = record { same_rows = c.same_rows; stays_off = c.stays_off } })

  Does-from :
      (provider key : Text) (s t : State Host) (r : Except SweepError (Unit {0}) × State Host)
      → Calm s t
      → Does (λ _ u. Calm t u) (λ _ u. Calm t u × Gone provider key u) r
      → Does (λ _ u. Calm s u) (λ _ u. Calm s u × Gone provider key u) r
  Does-from provider key s t (ok x, u) c h = record { runs = (Calm-trans c h.runs.0, h.runs.1) }
  Does-from provider key s t (failed e, u) c h = record { runs = Calm-trans c h.runs }

  disable_peer-Does :
      (provider key : Text) (s : State Host)
      → Does
          (λ _ t. Calm s t)
          (λ _ t. Calm s t × Gone provider key t)
          (disable_peer fails providers provider key s)
  unfolding disable_peer find_peer
  disable_peer-Does provider key s =
      if-elim {A = Action (State Host) SweepError (Unit {0})} (not (providers.known provider))
        (Good) (record { runs = record { same_rows = refl; stays_off = λ o. o } })
        (if-elim {A = Action (State Host) SweepError (Unit {0})} (providers.cert_based provider)
          Good (remove-Does provider key s)
          (Does-after (find_among-Does key (providers.list_peers provider s.host) s) λ target t c.
            Does-after (save_disabled-Does (disabled_of provider key target) s t c) λ _ u d.
              Does-from provider key s u
                (take_back fails providers provider key (remove fails providers provider key u)) d
                (Gone-none provider key (remove fails providers provider key u) u
                  (remove-Does provider key u))))
    where
      Good : Action (State Host) SweepError (Unit {0}) → Type 0
      Good m = Does (λ _ t. Calm s t) (λ _ t. Calm s t × Gone provider key t) (m s)

  clear_row-Sound :
      (e : PeerExpiry) (r : Except SweepError (Unit {0}) × State Host) (s : State Host)
      → Does (λ _ t. Calm s t) (λ _ t. Calm s t × Gone e.provider e.peer_id t) r
      → Sound s (clear_row fails providers e r)
  unfolding clear_row
  clear_row-Sound e (failed x, t) s h = Calm-Sound h.runs
  clear_row-Sound e (ok x, t) s h =
      if-elim {A = Except SweepError (Unit {0}) × State Host} (fails t.calls) (λ r. Sound s r.1)
        (Sound-trans (Calm-Sound h.runs.0)
          (Calm-Sound (record { same_rows = refl; stays_off = λ o. o })))
        (Sound-trans (Calm-Sound h.runs.0) (record { keeps_row = keeps; stays_off = λ o. o }))
    where
      keeps :
          has_row p i t.expiries ≡ true
          → (has_row p i (drop_expiry e.provider e.peer_id t.expiries) ≡ true)
            ⊎ (running p i t.host ≡ false)
      keeps on = elim (Bool-cases (same e.provider p && same e.peer_id i)) [
        | inl it ↦ inr (
            h.runs.1 ((same_iff e.provider p).0 (both it).0) ((same_iff e.peer_id i).0 (both it).1))
        | inr other ↦ inl (has_row-drop_expiry e.provider e.peer_id p i t.expiries other ∙ on)
      ]

  sweep_each-Sound :
      (es : List PeerExpiry) (s : State Host) → Sound s (sweep_each fails providers es s)
  unfolding sweep_each
  sweep_each-Sound [] s = record { keeps_row = λ h. inl h; stays_off = λ h. h }
  sweep_each-Sound (e ∷ es) s =
      Sound-trans
        (clear_row-Sound e (disable_peer fails providers e.provider e.peer_id s) s
          (disable_peer-Does e.provider e.peer_id s))
        (sweep_each-Sound es
          (clear_row fails providers e (disable_peer fails providers e.provider e.peer_id s)))

  sweep_expired-Sound : (now : ℕ) (s : State Host) → Sound s (sweep_expired fails providers now s)
  unfolding sweep_expired
  sweep_expired-Sound now s =
      if-elim {A = State Host} (fails s.calls) (Sound s) (Calm-Sound called) (
        Sound-trans (Calm-Sound called)
          (sweep_each-Sound (due_at now s.expiries) (record s { calls = suc s.calls })))
    where
      called : Calm s (record s { calls = suc s.calls })
      called = record { same_rows = refl; stays_off = λ o. o }

  -- A sweep clears the row of a peer only when the peer is off, where a removal that succeeds stops the
  -- peer that it names and no removal starts one: of a peer that still runs after a sweep, at any time
  -- and whichever queries and removals fail, a row that was there is there still.
  pub sweep_expired-has_row :
      (now : ℕ) (s : State Host)
      → has_row p i s.expiries ≡ true
      → running p i (sweep_expired fails providers now s).host ≡ true
      → has_row p i (sweep_expired fails providers now s).expiries ≡ true
  sweep_expired-has_row now s row on = elim ((sweep_expired-Sound now s).keeps_row row) [
    | inl r ↦ r
    | inr off ↦ cc
  ]
