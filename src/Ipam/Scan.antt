-- ===== src/Ipam/Scan.antt =====
-- What the scan finds, and what it has passed over, by the position in the sequence of addresses.
use protean.Prelude.{
  ℕ, zero, suc, ◌<◌, ◌≡◌, ◌⊎◌, inl, inr, refl, arith, Bool, true, false, Option, Bool-cases,
}
use protean.Net.{Ip, IpNet, contains, equal}
use protean.Ipam.{inc_ip, past_end, Search, found, exhausted, out_of_fuel, search_free}

-- the address that the loop holds after `k` rounds
abbrev pub nth_ip : ℕ → Ip → Ip
nth_ip zero start = start
nth_ip (suc k) start = nth_ip k (inc_ip start)

module _ (net : IpNet) (end : Option Ip) (used : Ip → Bool) where
  -- an address that may not be handed out: the network's own, or one in use
  abbrev pub IsTaken : Ip → Type 0
  IsTaken ip = (equal ip net.ip ≡ true) ⊎ (used ip ≡ true)

  -- the first address, `k` steps on from `start`, that is in range and not taken
  pub record IsFirst (start : Ip) (k : ℕ) (ip : Ip) : Type 0 where
    pub place : ip ≡ nth_ip k start
    pub inside : contains net ip ≡ true
    pub in_range : past_end end ip ≡ false
    pub not_network : equal ip net.ip ≡ false
    pub unused : used ip ≡ false
    pub before : (j : ℕ) → j < k → IsTaken (nth_ip j start)

  -- the range ends `k` steps on from `start`, and every address before that is taken
  pub record IsFull (start : Ip) (k : ℕ) : Type 0 where
    pub stop : (contains net (nth_ip k start) ≡ false) ⊎ (past_end end (nth_ip k start) ≡ true)
    pub before : (j : ℕ) → j < k → IsTaken (nth_ip j start)

  -- one more address in front that is taken
  before_suc :
      (start : Ip) (k : ℕ)
      → IsTaken start
      → ((j : ℕ) → j < k → IsTaken (nth_ip j (inc_ip start)))
      → (j : ℕ) → j < suc k
      → IsTaken (nth_ip j start)
  before_suc start k t h zero lt = t
  before_suc start k t h (suc j) lt = h j (omega arith)

  -- What a result of the scan means.
  abbrev pub Means : Ip → Search → Type 0
  Means start (found ip) = (k : ℕ) × IsFirst start k ip
  Means start exhausted = (k : ℕ) × IsFull start k
  Means start out_of_fuel = Unit

  Means-suc : (start : Ip) (r : Search) → IsTaken start → Means (inc_ip start) r → Means start r
  Means-suc start (found ip) t (k, f) = (
    suc k,
    record {
      place = f.place;
      inside = f.inside;
      in_range = f.in_range;
      not_network = f.not_network;
      unused = f.unused;
      before = before_suc start k t f.before;
    },
  )
  Means-suc start exhausted t (k, f) =
      (suc k, record { stop = f.stop; before = before_suc start k t f.before })
  Means-suc start out_of_fuel t m = tt

  pub search_free-Means :
      (fuel : ℕ) (start : Ip) → Means start (search_free fuel net end used start)
  unfolding search_free
  search_free-Means zero start = tt
  search_free-Means (suc fuel) start = elim (Bool-cases (contains net start)) [
    | inr c ↦ rw c (0, record { stop = inl c; before = λ j lt. absurd (omega arith) })
    | inl c ↦ elim (Bool-cases (past_end end start)) [
      | inl p ↦ rw (c, p) (0, record { stop = inr p; before = λ j lt. absurd (omega arith) })
      | inr p ↦ elim (Bool-cases (equal start net.ip)) [
        | inl e ↦ rw (c, p, e) (Means-suc start _ (inl e) (search_free-Means fuel (inc_ip start)))
        | inr e ↦ elim (Bool-cases (used start)) [
          | inl u ↦
              rw (c, p, e, u) (Means-suc start _ (inr u) (search_free-Means fuel (inc_ip start)))
          | inr u ↦
              rw (c, p, e, u)
                (
                  0,
                  record {
                    place = refl;
                    inside = c;
                    in_range = p;
                    not_network = e;
                    unused = u;
                    before = λ j lt. absurd (omega arith);
                  },
                )
        ]
      ]
    ]
  ]
