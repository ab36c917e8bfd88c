-- ===== src/Proxy/Local.antt =====
-- `is_local_ip`: the ranges that the proxy serves.
use dockerwall.Base.{ℕ, ◌+◌, ◌-◌, ◌*◌, ◌^◌, ◌≤◌, ◌<◌, ◌≡◌, ◌↔◌, ◌⊎◌, true, false, arith}
use dockerwall.Net.{IpAddr, v4, v6, ipv4, IsAddress, to_ipv4_mapped}
use dockerwall.Stats.Subnet.{canonical_ip}
use dockerwall.Proxy.{
  is_local_ip, v4_is_loopback, v4_is_private, v4_is_link_local, v6_is_loopback, v6_is_unique_local,
  v6_is_unicast_link_local,
}

-- From the first to the last address of a range.
abbrev pub Between : ℕ → ℕ → ℕ → Type 0
Between low high ip = (low ≤ ip) × (ip ≤ high)

-- 127.0.0.0/8, 10.0.0.0/8, 172.16.0.0/12, 192.168.0.0/16, 169.254.0.0/16 and 198.18.0.0/15; ::1,
-- fc00::/7 and fe80::/10.
abbrev pub IsServed : IpAddr → Type 0
IsServed (v4 ip) =
    Between (ipv4 127 0 0 0) (ipv4 127 255 255 255) ip
    ⊎ (Between (ipv4 10 0 0 0) (ipv4 10 255 255 255) ip
        ⊎ (Between (ipv4 172 16 0 0) (ipv4 172 31 255 255) ip
            ⊎ (Between (ipv4 192 168 0 0) (ipv4 192 168 255 255) ip
                ⊎ (Between (ipv4 169 254 0 0) (ipv4 169 254 255 255) ip
                    ⊎ Between (ipv4 198 18 0 0) (ipv4 198 19 255 255) ip))))
IsServed (v6 ip) =
    (ip ≡ 1)
    ⊎ (Between (0xfc00 * 2 ^ 112) (0xfe00 * 2 ^ 112 - 1) ip
        ⊎ Between (0xfe80 * 2 ^ 112) (0xfec0 * 2 ^ 112 - 1) ip)

-- A client with an address of its family's width is served exactly when the address is in one of
-- the loopback, private, link-local and benchmark ranges.
pub is_local_ip_iff : (ip : IpAddr) → IsAddress ip → (is_local_ip ip ≡ true) ↔ IsServed ip
unfolding is_local_ip v4_is_loopback v4_is_private v4_is_link_local v6_is_loopback
    v6_is_unique_local v6_is_unicast_link_local
is_local_ip_iff (v4 ip) h = (λ e. ground arith, λ e. ground arith)
is_local_ip_iff (v6 ip) h = (λ e. ground arith, λ e. ground arith)

-- A client whose address is an IPv4 address in the form of an IPv6 address is never served, though
-- the statistics would take it for the IPv4 address.
pub mapped_client :
    (ip : ℕ)
    → ip < 2 ^ 32
    → (is_local_ip (v6 (0xffff * 2 ^ 32 + ip)) ≡ false)
      × (canonical_ip (v6 (0xffff * 2 ^ 32 + ip)) ≡ v4 ip)
unfolding is_local_ip v6_is_loopback v6_is_unique_local v6_is_unicast_link_local canonical_ip
    to_ipv4_mapped
mapped_client ip h = (ground arith, ground arith)
