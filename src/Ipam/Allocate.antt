-- ===== src/Ipam/Allocate.antt =====
-- What `NextFreeIPInRange` and `NextFreeIP` return.
use protean.Prelude.{
  ℕ, suc, ◌^◌, ◌<◌, ◌≡◌, ◌≢◌, refl, sym, ap, arith, Bool, Option, none, some, length, ◌++◌, ◌∷◌, [],
}
use protean.Strings.{Text}
use protean.Strings.Decimal.{itoa}
use protean.Net.{Ip, IpNet, block, short}
use protean.Net.Forms.{IsIp}
use protean.Net.Parse.{parse_cidr}
use protean.Net.Print.{ip_string}
use protean.Ipam.{
  Search, found, exhausted, out_of_fuel, search_free, Allocation, address, failed, no_free_address,
  bounds, range_bounds, answer, allocate, next_free_ip, next_free_ip_in_range, mask_bits,
}
use protean.Ipam.Scan.{IsFirst, IsFull, Means, search_free-Means}
use protean.Ipam.Total.{search_free-ne-out_of_fuel}

abbrev pub in_use : (Text → Bool) → Ip → Bool
in_use used ip = used (ip_string ip)

-- The two outcomes of a scan from `start`: the first address that may be handed out, in print, or
-- the error that there is none.
pub data Allocates (net : IpNet) (end : Option Ip) (used : Text → Bool) (start : Ip)
    (a : Allocation) : Type 0 where
  gives :
      (k : ℕ) (ip : Ip)
      → IsFirst net end (in_use used) start k ip
      → a ≡ address (ip_string ip ++ (b'/' ∷ itoa (mask_bits net.ip)))
      → Allocates net end used start a
  none_left :
      (k : ℕ)
      → IsFull net end (in_use used) start k
      → a ≡ failed no_free_address
      → Allocates net end used start a

module _ (net : IpNet) (end : Option Ip) (used : Text → Bool) (start : Ip) where
  outcome :
      (r : Search)
      → r ≢ out_of_fuel
      → Means net end (in_use used) start r
      → Allocates net end used start (answer (mask_bits net.ip) r)
  unfolding answer
  outcome (found ip) h (k, f) = gives k ip f refl
  outcome exhausted h (k, f) = none_left k f refl
  outcome out_of_fuel h m = absurd (h refl)

  -- `allocate` from a start and an end that the checks accepted.
  pub allocate-Allocates :
      block net < 256 ^ length (short net.ip)
      → IsIp start
      → Allocates net end used start (allocate net used (bounds start end))
  unfolding allocate
  allocate-Allocates hb h =
      outcome (search_free (suc (block net)) net end (in_use used) start)
        (search_free-ne-out_of_fuel net end (in_use used) hb (block net) start h (λ c. omega arith))
        (search_free-Means net end (in_use used) (suc (block net)) start)

-- Of a range that the checks accept, with a start of 4 or 16 bytes, in a network that is not a whole
-- address space,
-- `NextFreeIPInRange` hands out the first address, counted up from the start of the range, that is
-- inside the network, not past the end of the range, not the network's own address and not in use;
-- it fails only if every address from the start of the range up to its end, or up to the end of
-- the network, is the network's own or in use. It always ends.
pub next_free_ip_in_range-Allocates :
    (cidr range_start range_end : Text) (used : Text → Bool) (ip : Ip) (net : IpNet) (start : Ip)
    (end : Option Ip)
    → parse_cidr cidr ≡ some (ip, net)
    → range_bounds net range_start range_end ≡ bounds start end
    → block net < 256 ^ length (short net.ip)
    → IsIp start
    → Allocates net end used start (next_free_ip_in_range cidr range_start range_end used)
unfolding next_free_ip_in_range
next_free_ip_in_range-Allocates cidr s e used ip net start end p b hb h =
    rw (p, next_free_ip_in_range) (rw b (allocate-Allocates net end used start hb h))

-- With an empty range start and range end `NextFreeIPInRange` does what `NextFreeIP` does, for every
-- network whose own address has the form of the address in the text.
pub next_free_ip_in_range-empty :
    (cidr : Text) (used : Text → Bool) (ip : Ip) (net : IpNet)
    → parse_cidr cidr ≡ some (ip, net)
    → mask_bits ip ≡ mask_bits net.ip
    → next_free_ip_in_range cidr [] [] used ≡ next_free_ip cidr used
unfolding next_free_ip_in_range next_free_ip
next_free_ip_in_range-empty cidr used ip net p m =
    rw (p, next_free_ip_in_range, next_free_ip)
      (ap (λ b. answer b (search_free (suc (block net)) net none (in_use used) net.ip)) (sym m))
