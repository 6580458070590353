-- ===== src/Net.antt =====
-- IP addresses and networks of Go's package `net`, as far as the program uses them. An address is
-- its bytes, 4 or 16 of them; a network is its masked address and the length of its prefix.
pub mod Bytes
pub mod Forms
pub mod Parse
pub mod Print
use protean.Prelude.{
  ℕ, ◌+◌, ◌-◌, ◌*◌, ◌/◌, ◌%◌, ◌^◌, ◌≤◌, ◌<◌, ◌≡◌, ◌⊎◌, List, [], ◌∷◌, ◌++◌, Bool, true, false, ◌&&◌,
  Option, none, some, ◌==◌, if◌then◌else◌, length, All, take, drop, is_some,
}
use protean.Strings.{same}

-- `net.IP`
abbrev pub Ip : Type 0
Ip = List ℕ

abbrev pub IsBytes : Ip → Type 0
IsBytes = All (λ b. b < 256)

-- the big-endian number that the bytes spell
unfoldable pub value : Ip → ℕ
value [] = 0
value (b ∷ ip) = b * 256 ^ length ip + value ip

-- the bytes in front of an IPv4 address in its 16-byte form
abbrev pub v4_in_v6_prefix : Ip
v4_in_v6_prefix = 0 ∷ 0 ∷ 0 ∷ 0 ∷ 0 ∷ 0 ∷ 0 ∷ 0 ∷ 0 ∷ 0 ∷ 255 ∷ 255 ∷ []

-- `ip.To4()`
unfoldable pub to4 : Ip → Option Ip
to4 ip =
    if length ip == 4
    then some ip
    else if length ip == 16 && same (take 12 ip) v4_in_v6_prefix
    then some (drop 12 ip)
    else none

-- `ip.To16()`
unfoldable pub to16 : Ip → Ip
to16 ip = if length ip == 4 then v4_in_v6_prefix ++ ip else if length ip == 16 then ip else []

-- the form in which `Contains` and `String` read an address: 4 bytes where it has that form
unfoldable pub short : Ip → Ip
unfolding to4
short ip = elim (to4 ip) [ none ↦ ip | some v4 ↦ v4 ]

-- `a.Equal(b)`
unfoldable pub equal : Ip → Ip → Bool
unfolding short
equal a b = same (short a) (short b)

-- `net.IPNet`: `bits` is 32 or 128, eight times the length of the mask
pub record IpNet : Type 0 where
  pub ip : Ip
  pub ones : ℕ
  pub bits : ℕ

-- the size of the block of addresses that share the network's prefix
unfoldable pub block : IpNet → ℕ
block n = 2 ^ (n.bits - n.ones)

-- `n.Contains(ip)`: the same form, and equal after masking
unfoldable pub contains : IpNet → Ip → Bool
contains n ip =
    length (short ip) == length (short n.ip)
    && value (short ip) / block n == value (short n.ip) / block n

-- What `ParseCIDR` gives: whole bytes, a prefix within the form that `Contains` reads, and no bit
-- set behind the prefix.
pub record IsNet (n : IpNet) : Type 0 where
  pub bytes : IsBytes (short n.ip)
  pub size : (length (short n.ip) ≡ 4) ⊎ (length (short n.ip) ≡ 16)
  pub prefix : n.bits - n.ones ≤ 8 * length (short n.ip)
  pub aligned : value (short n.ip) % block n ≡ 0
