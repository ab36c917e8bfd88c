-- ===== src/Helper/Source.antt =====
-- The source addresses of rootless networks: their ranges and the attempts.
use Prim.Native.Nat.{bit_or}
use dockerwall.Base.{ℕ, ◌+◌, ◌-◌, ◌*◌, ◌/◌, ◌%◌, ◌^◌, ◌<◌, ◌≡◌, ap, ◌∙◌, true, arith, inr}
use dockerwall.Base.Bits.{or-disjoint}
use dockerwall.Text.{Text}
use dockerwall.Net.{v4, ipv4}
use dockerwall.Stats.Subnet.{and-mask_prefix}
use dockerwall.Proxy.{is_local_ip}
use dockerwall.Proxy.Local.{is_local_ip_iff}
use dockerwall.Helper.Address.{
  source_slots, rootless_dns_ip, name_hash, rootless_podman_source_ip, rootless_podman_source_ipv6,
}

-- Every attempt below the number of addresses gives an address that the proxy serves, and neither
-- that of the network, nor that of the DNS server, nor the broadcast address.
pub source_ip_range :
    (name : Text) (attempt : ℕ)
    → attempt < source_slots
    → (rootless_dns_ip < rootless_podman_source_ip name attempt)
      × (rootless_podman_source_ip name attempt < ipv4 198 19 255 255)
      × (is_local_ip (v4 (rootless_podman_source_ip name attempt)) ≡ true)
unfolding rootless_podman_source_ip
source_ip_range name attempt h =
    let low : rootless_dns_ip < rootless_podman_source_ip name attempt = omega arith in
    let high : rootless_podman_source_ip name attempt < ipv4 198 19 255 255 = omega arith in
    (
      low,
      high,
      (is_local_ip_iff (v4 (rootless_podman_source_ip name attempt)) (omega arith)).1
          (inr (inr (inr (inr (inr (omega arith, omega arith)))))),
    )

-- The attempts run through the whole range: every address between that of the DNS server and the
-- broadcast address is the one of exactly one attempt.
pub source_ip_exhausts :
    (name : Text) (ip : ℕ)
    → rootless_dns_ip < ip
    → ip < ipv4 198 19 255 255
    → (attempt : ℕ) × (attempt < source_slots)
      × (rootless_podman_source_ip name attempt ≡ ip)
      × ((other : ℕ)
          → other < source_slots
          → rootless_podman_source_ip name other ≡ ip
          → other ≡ attempt)
unfolding rootless_podman_source_ip
source_ip_exhausts name ip low high = (
  (ip - ipv4 198 18 0 0 - 2 + (source_slots - name_hash name % source_slots)) % source_slots,
  omega arith,
  omega arith,
  λ other h e. omega arith,
)

-- For a prefix of 128 bits and attempts of 64 bits, an IPv6 source address is in the /64 of the
-- prefix, and two attempts that give the same address are the same.
pub source_ipv6_lem :
    (prefix : ℕ) (name : Text) (attempt other : ℕ)
    → prefix < 2 ^ 128
    → attempt < 2 ^ 64
    → other < 2 ^ 64
    → (rootless_podman_source_ipv6 prefix name attempt / 2 ^ 64 ≡ prefix / 2 ^ 64)
      × (rootless_podman_source_ipv6 prefix name attempt
            ≡ rootless_podman_source_ipv6 prefix name other
          → attempt ≡ other)
source_ipv6_lem prefix name attempt other h ha ho =
    let here = parts attempt in let there = parts other in (omega arith, λ e. omega arith)
  where
    parts :
        (n : ℕ)
        → rootless_podman_source_ipv6 prefix name n
          ≡ prefix / 2 ^ 64 * 2 ^ 64 + (name_hash name + n) % 2 ^ 64
    parts n =
        unfold rootless_podman_source_ipv6 in
        ap (λ t. bit_or t ((name_hash name + n) % 2 ^ 64)) (and-mask_prefix 128 prefix 64 h)
        ∙ or-disjoint 64 (prefix / 2 ^ 64) ((name_hash name + n) % 2 ^ 64) (omega arith)
