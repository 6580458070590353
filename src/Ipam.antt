-- ===== src/Ipam.antt =====
-- internal/vpn/ipam.go: the choice of a free address for a new client.
-- Addresses are byte lists, changed by the carry loop of `incIP`. The scan takes fuel; that it ends
-- is proved in Ipam/Total for every network whose prefix is not empty.
pub mod Increment
pub mod Step
pub mod Scan
pub mod Total
pub mod Allocate
use protean.Prelude.{
  ℕ, zero, suc, ◌+◌, ◌%◌, List, [], ◌∷◌, ◌++◌, Bool, true, false, not, ◌&&◌, ltb, Option, none,
  some, ◌>>=◌, ◌>>◌, guard, ◌==◌, if◌then◌else◌,
}
use protean.Strings.{Text, cut, trim_space, is_empty}
use protean.Strings.Decimal.{itoa}
use protean.Net.{Ip, IpNet, value, to4, to16, short, equal, contains, block}
use protean.Net.Parse.{parse_ip, parse_cidr}
use protean.Net.Print.{ip_string}

-- FirstCIDR
unfoldable pub first_cidr : Text → Text
first_cidr address =
    trim_space (elim (cut address b',') [ none ↦ address | some (before, after) ↦ before ])

-- The loop of `incIP` runs from the last byte to the first and goes on as long as a byte wraps
-- around to 0; the Boolean says whether it is still running in front of these bytes.
unfoldable pub carry_byte : ℕ → Ip × Bool → Ip × Bool
carry_byte b (rest, false) = (b ∷ rest, false)
carry_byte b (rest, true) = ((b + 1) % 256 ∷ rest, (b + 1) % 256 == 0)

unfoldable pub carry : Ip → Ip × Bool
unfolding carry_byte
carry [] = ([], true)
carry (b ∷ ip) = carry_byte b (carry ip)

-- incIP
unfoldable pub inc_ip : Ip → Ip
unfolding carry
inc_ip ip = (carry ip).0

-- the comparison loop of `bytesAfter`; the callers give two lists of one length
unfoldable pub after_loop : Ip → Ip → Bool
after_loop (a ∷ as') (b ∷ bs) = if a == b then after_loop as' bs else ltb b a
after_loop _ _ = false

-- bytesAfter
unfoldable pub bytes_after : Ip → Ip → Bool
unfolding after_loop to16
bytes_after a b = after_loop (to16 a) (to16 b)

-- What the loop of `NextFreeIP` and `NextFreeIPInRange` comes to.
pub data Search : Type 0 where
  found : Ip → Search
  exhausted : Search
  out_of_fuel : Search

-- `end != nil && bytesAfter(cur, end)`
unfoldable pub past_end : Option Ip → Ip → Bool
unfolding bytes_after
past_end none cur = false
past_end (some end) cur = bytes_after cur end

-- The loop of both functions; `NextFreeIP` has no end. `used` is `used[cur.String()]`.
unfoldable pub search_free : ℕ → IpNet → Option Ip → (Ip → Bool) → Ip → Search
search_free zero net end used cur = out_of_fuel
search_free (suc fuel) net end used cur =
    let next = search_free fuel net end used (inc_ip cur) in
    if not (contains net cur)
    then exhausted
    else if past_end end cur
    then exhausted
    else if equal cur net.ip
    then next
    else if used cur
    then next
    else found cur

pub data IpamError : Type 0 where
  bad_cidr bad_start start_outside bad_end end_outside no_free_address : IpamError

pub data Allocation : Type 0 where
  address : Text → Allocation
  failed : IpamError → Allocation
  -- the scan ran out of fuel, which Ipam/Allocate rules out
  unfinished : Allocation

-- 32 for an address with a 4-byte form, and else 128
unfoldable pub mask_bits : Ip → ℕ
mask_bits ip = elim (to4 ip) [ none ↦ 128 | some _ ↦ 32 ]

-- `fmt.Sprintf("%s/%d", cur.String(), maskBits)`, or the error behind the loop
unfoldable pub answer : ℕ → Search → Allocation
answer bits (found ip) = address (ip_string ip ++ (b'/' ∷ itoa bits))
answer bits exhausted = failed no_free_address
answer bits out_of_fuel = unfinished

-- NextFreeIP; `used` is the map of addresses in use
unfoldable pub next_free_ip : Text → (Text → Bool) → Allocation
unfolding mask_bits
next_free_ip cidr used = elim (parse_cidr cidr) [
  | none ↦ failed bad_cidr
  | some (ip, net) ↦
      answer (mask_bits ip)
        (search_free (suc (block net)) net none (λ cur. used (ip_string cur)) net.ip)
]

pub data Bounds : Type 0 where
  bounds : Ip → Option Ip → Bounds
  refused : IpamError → Bounds

-- the checks on `rangeEnd`
unfoldable pub range_end : IpNet → Text → Ip → Bounds
range_end net [] start = bounds start none
range_end net (c ∷ s) start = elim (parse_ip (c ∷ s)) [
  | none ↦ refused bad_end
  | some end ↦ if contains net end then bounds start (some end) else refused end_outside
]

-- the checks on `rangeStart`, and then those on `rangeEnd`
unfoldable pub range_bounds : IpNet → Text → Text → Bounds
unfolding range_end
range_bounds net [] end = range_end net end net.ip
range_bounds net (c ∷ s) end = elim (parse_ip (c ∷ s)) [
  | none ↦ refused bad_start
  | some start ↦ if contains net start then range_end net end start else refused start_outside
]

-- the loop of `NextFreeIPInRange` within its bounds
unfoldable pub allocate : IpNet → (Text → Bool) → Bounds → Allocation
unfolding mask_bits
allocate net used (refused e) = failed e
allocate net used (bounds start end) =
    answer (mask_bits net.ip)
      (search_free (suc (block net)) net end (λ cur. used (ip_string cur)) start)

-- NextFreeIPInRange
unfoldable pub next_free_ip_in_range : Text → Text → Text → (Text → Bool) → Allocation
unfolding range_bounds allocate
next_free_ip_in_range cidr range_start range_end used = elim (parse_cidr cidr) [
  | none ↦ failed bad_cidr
  | some (ip, net) ↦ allocate net used (range_bounds net range_start range_end)
]
