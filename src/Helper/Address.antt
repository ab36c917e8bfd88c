-- ===== src/Helper/Address.antt =====
-- `rootless_podman_source_ip` and `rootless_podman_source_ipv6`: the addresses of a rootless
-- network, from the FNV-1a hash of its name and the number of the attempt.
use Prim.Native.Nat.{bit_and, bit_or, bit_xor}
use dockerwall.Base.{ℕ, ◌+◌, ◌*◌, ◌%◌, ◌^◌, List, [], ◌∷◌}
use dockerwall.Text.{Text, utf8}
use dockerwall.Net.{ipv4}
use dockerwall.Stats.Subnet.{mask}

-- The number of addresses, and of attempts in `allocate_rootless_podman_source_ip`.
abbrev pub source_slots : ℕ
source_slots = 131_069

-- `ROOTLESS_DNS_IP`
abbrev pub rootless_dns_ip : ℕ
rootless_dns_ip = ipv4 198 18 0 1

-- The fold over the bytes of the name, with `wrapping_mul`.
unfoldable pub fnv1a : ℕ → List ℕ → ℕ
fnv1a hash [] = hash
fnv1a hash (byte ∷ bytes) = fnv1a (bit_xor hash byte * 0x100000001b3 % 2 ^ 64) bytes

unfoldable pub name_hash : Text → ℕ
name_hash name = fnv1a 0xcbf29ce484222325 (utf8 name)

unfoldable pub rootless_podman_source_ip : Text → ℕ → ℕ
rootless_podman_source_ip name attempt =
    let offset : ℕ = (name_hash name % source_slots + attempt) % 2 ^ 32 % source_slots + 2 in
    (ipv4 198 18 0 0 + offset) % 2 ^ 32

-- `!0_u128 << 64` is the mask of 64 bits in a word of 128.
unfoldable pub rootless_podman_source_ipv6 : ℕ → Text → ℕ → ℕ
rootless_podman_source_ipv6 prefix name attempt =
    let hash : ℕ = (name_hash name + attempt) % 2 ^ 64 in bit_or (bit_and prefix (mask 128 64)) hash
