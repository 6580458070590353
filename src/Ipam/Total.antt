-- ===== src/Ipam/Total.antt =====
-- The scan ends: in a network that is not the whole address space it makes at most as many rounds
-- as the network has addresses.
use native.Mathlib.Nat.{div-add-mod', mod-lt}
use protean.Prelude.{
  ℕ, zero, suc, ◌+◌, ◌*◌, ◌/◌, ◌%◌, ◌^◌, ◌≤◌, ◌<◌, ◌≡◌, ◌≢◌, inl, inr, ap, sym, ◌∙◌, arith, Bool,
  true, false, Option, Bool-cases, length, not, if◌then◌else◌,
}
use protean.Net.{Ip, IpNet, value, short, block, contains, equal}
use protean.Net.Forms.{IsIp}
use protean.Ipam.{inc_ip, past_end, Search, found, exhausted, out_of_fuel, search_free}
use protean.Ipam.Step.{inc_ip-IsIp, contains-lem, block_pos, value-short-inc_ip}

-- with the quotient unchanged, one more is a remainder that is one greater
mod_step : (v w b : ℕ) → w ≡ v + 1 → w / b ≡ v / b → w % b ≡ v % b + 1
mod_step v w b e q = omega (arith, div-add-mod' v b, div-add-mod' w b, ap (λ z. z * b) q)

module _ (net : IpNet) (end : Option Ip) (used : Ip → Bool)
    (hb : block net < 256 ^ length (short net.ip)) where
  -- a round inside the network, where the rest of the loop ends
  round_ends :
      (fuel : ℕ) (ip : Ip)
      → search_free fuel net end used (inc_ip ip) ≢ out_of_fuel
      → search_free (suc fuel) net end used ip ≢ out_of_fuel
  round_ends fuel ip h =
      let rest = search_free fuel net end used (inc_ip ip) in unfold search_free in branch rest h
    where
      branch :
          (rest : Search)
          → rest ≢ out_of_fuel
          → (if not (contains net ip)
              then exhausted
              else if past_end end ip
              then exhausted
              else if equal ip net.ip
              then rest
              else if used ip
              then rest
              else found ip)
            ≢ out_of_fuel
      branch rest h = ground arith

  outside :
      (fuel : ℕ) (ip : Ip)
      → contains net ip ≡ false
      → search_free (suc fuel) net end used ip ≢ out_of_fuel
  unfolding search_free
  outside fuel ip c = ground arith

  grows :
      (ip : Ip)
      → IsIp ip
      → contains net ip ≡ true
      → contains net (inc_ip ip) ≡ true
      → value (short (inc_ip ip)) % block net ≡ value (short ip) % block net + 1
  grows ip h c c' =
      mod_step (value (short ip)) (value (short (inc_ip ip))) (block net)
        (value-short-inc_ip net ip h hb c c')
        ((contains-lem net (inc_ip ip) c').1 ∙ sym ((contains-lem net ip c).1))

  pub search_free-ne-out_of_fuel :
      (fuel : ℕ) (ip : Ip)
      → IsIp ip
      → (contains net ip ≡ true → block net ≤ fuel + value (short ip) % block net)
      → search_free (suc fuel) net end used ip ≢ out_of_fuel
  search_free-ne-out_of_fuel zero ip h m = elim (Bool-cases (contains net ip)) [
    | inr c ↦ outside zero ip c
    | inl c ↦
        let small : value (short ip) % block net < block net =
          mod-lt (value (short ip)) (block_pos net) in
        absurd (omega (arith, m c, small))
  ]
  search_free-ne-out_of_fuel (suc fuel) ip h m = elim (Bool-cases (contains net ip)) [
    | inr c ↦ outside (suc fuel) ip c
    | inl c ↦ round_ends (suc fuel) ip (
        search_free-ne-out_of_fuel fuel (inc_ip ip) (inc_ip-IsIp ip h)
          (λ c'. omega (arith, m c, grows ip h c c')))
  ]
