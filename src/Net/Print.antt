-- ===== src/Net/Print.antt =====
-- `IP.String` and `IPNet.String`.
use protean.Prelude.{
  ℕ, ◌+◌, ◌-◌, ◌*◌, ◌/◌, ◌%◌, List, [], ◌∷◌, ◌++◌, ◌&&◌, ltb, leb, ◌==◌, if◌then◌else◌, length,
  take, drop, map, ◌≡◌, refl,
}
use protean.Strings.{Text, codes, same, join}
use protean.Strings.Decimal.{itoa}
use protean.Net.{Ip, IpNet, short}

unfoldable pub v4_string : Ip → Text
v4_string ip = join (map itoa ip) (b'.' ∷ [])

-- the eight groups of two bytes
unfoldable pub groups : Ip → List ℕ
groups (a ∷ b ∷ ip) = (a * 256 + b) ∷ groups ip
groups _ = []

-- how many groups at the front are zero
unfoldable pub zero_run : List ℕ → ℕ
zero_run [] = 0
zero_run (g ∷ gs) = let more = zero_run gs in if g == 0 then more + 1 else 0

-- Where the first of the longest runs of at least two zero groups begins, and its length; `best`
-- is the run that was found before position `i`.
unfoldable pub longest_run : ℕ → List ℕ → ℕ × ℕ → ℕ × ℕ
unfolding zero_run
longest_run i [] best = best
longest_run i (g ∷ gs) best =
    let run = zero_run (g ∷ gs) in
    longest_run (i + 1) gs (if leb 2 run && ltb best.1 run then (i, run) else best)

unfoldable pub hex_char : ℕ → ℕ
hex_char d = if ltb d 10 then b'0' + d else b'a' + (d - 10)

-- a group in hexadecimal, with no leading zeros
unfoldable pub hex_string : ℕ → Text
unfolding hex_char
hex_string g =
    let digits =
      hex_char (g / 4096)
      ∷ hex_char (g / 256 % 16)
      ∷ hex_char (g / 16 % 16)
      ∷ hex_char (g % 16)
      ∷ [] in
    drop (if ltb g 16 then 3 else if ltb g 256 then 2 else if ltb g 4096 then 1 else 0) digits

unfoldable pub v6_string : Ip → Text
unfolding groups longest_run hex_string
v6_string ip =
    let gs = groups ip in
    let (start, run) = longest_run 0 gs (0, 0) in
    let sep = b':' ∷ [] in
    if run == 0
    then join (map hex_string gs) sep
    else join (map hex_string (take start gs)) sep
      ++ (codes "::" ++ join (map hex_string (drop (start + run) gs)) sep)

-- `ip.String()` of an address of 4 or 16 bytes
unfoldable pub ip_string : Ip → Text
unfolding v4_string v6_string
ip_string ip = if length (short ip) == 4 then v4_string (short ip) else v6_string ip

-- `n.String()`: the network's address in its short form, and the prefix that belongs to it
unfoldable pub net_string : IpNet → Text
unfolding ip_string
net_string n =
    ip_string n.ip
    ++ (b'/' ∷ itoa (if n.bits == 128 && length (short n.ip) == 4 then n.ones - 96 else n.ones))

print_v4 : ip_string (10 ∷ 0 ∷ 255 ∷ 7 ∷ []) ≡ codes "10.0.255.7"
unfolding ip_string join itoa short
print_v4 = refl

print_v6 :
    ip_string (0xfd ∷ 0 ∷ 0 ∷ 0 ∷ 0 ∷ 0 ∷ 0 ∷ 10 ∷ 0 ∷ 0 ∷ 0 ∷ 0 ∷ 0 ∷ 0 ∷ 1 ∷ 2 ∷ [])
    ≡ codes "fd00:0:0:a::102"
unfolding ip_string join itoa short same
print_v6 = refl
