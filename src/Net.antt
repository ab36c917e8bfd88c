-- ===== src/Net.antt =====
-- `std::net`: an address is the number that `u32::from` or `u128::from` gives, and its text form is
-- in the children.
pub mod Number
pub mod Ipv4
pub mod Ipv6
pub mod Display
use dockerwall.Base.{
  ℕ, ◌+◌, ◌*◌, ◌/◌, ◌%◌, ◌^◌, ◌<◌, ◌≡◌, refl, ap, Bool, true, false, Option, none, some, List, [],
  ◌∷◌, arith, Eq, eqb, if◌then◌else◌, nat_eq,
}

-- `IpAddr`
pub data IpAddr : Type 0 where
  v4 : ℕ → IpAddr
  v6 : ℕ → IpAddr

ip_dec : Discrete IpAddr
ip_dec (v4 a) (v4 b) = elim (nat_eq.dec a b) [ yes p ↦ yes (ap v4 p) | no n ↦ no (λ q. n (cc)) ]
ip_dec (v4 a) (v6 b) = no (λ q. cc)
ip_dec (v6 a) (v4 b) = no (λ q. cc)
ip_dec (v6 a) (v6 b) = elim (nat_eq.dec a b) [ yes p ↦ yes (ap v6 p) | no n ↦ no (λ q. n (cc)) ]

instance unfoldable pub ip_eq : Eq IpAddr
unfolding ip_dec nat_eq
ip_eq = record { dec = ip_dec }

-- The addresses that the type `IpAddr` has.
abbrev pub IsAddress : IpAddr → Type 0
IsAddress (v4 a) = a < 2 ^ 32
IsAddress (v6 a) = a < 2 ^ 128

-- `Ipv4Addr::new`
abbrev pub ipv4 : ℕ → ℕ → ℕ → ℕ → ℕ
ipv4 a b c d = a * 16777216 + b * 65536 + c * 256 + d

-- `Ipv4Addr::octets`, counted from the left.
abbrev pub octet0 : ℕ → ℕ
octet0 a = a / 16777216 % 256

abbrev pub octet1 : ℕ → ℕ
octet1 a = a / 65536 % 256

abbrev pub octet2 : ℕ → ℕ
octet2 a = a / 256 % 256

abbrev pub octet3 : ℕ → ℕ
octet3 a = a % 256

-- `Ipv6Addr::segments`
unfoldable pub segments : ℕ → List ℕ
segments a =
    a / 2 ^ 112 % 65536
    ∷ a / 2 ^ 96 % 65536
    ∷ a / 2 ^ 80 % 65536
    ∷ a / 2 ^ 64 % 65536
    ∷ a / 2 ^ 48 % 65536
    ∷ a / 2 ^ 32 % 65536
    ∷ a / 2 ^ 16 % 65536
    ∷ a % 65536
    ∷ []

-- The address of eight segments, with `acc` for those read so far.
unfoldable pub of_segments : ℕ → List ℕ → ℕ
of_segments acc [] = acc
of_segments acc (x ∷ xs) = of_segments (acc * 65536 + x) xs

-- `Ipv6Addr::to_ipv4_mapped`: the address in `::ffff:a.b.c.d`.
unfoldable pub to_ipv4_mapped : ℕ → Option ℕ
to_ipv4_mapped a = if eqb (a / 2 ^ 32) 0xffff then some (a % 2 ^ 32) else none
