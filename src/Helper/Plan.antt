-- ===== src/Helper/Plan.antt =====
-- `NetworkPlan` and `subnet_and_gateway`: the subnet of a Docker network and its gateway.
use dockerwall.Base.{
  ℕ, ◌+◌, ◌*◌, ◌/◌, ◌%◌, ◌^◌, ◌<◌, ◌≡◌, refl, sym, ap, ◌∙◌, true, some, ◌∷◌, ◌++◌, append_assoc,
  arith,
}
use dockerwall.Text.{Text, codes}
use dockerwall.Text.Decimal.{to_decimal}
use dockerwall.Net.{v4, ipv4, octet0, octet1, octet2, octet3}
use dockerwall.Net.Ipv4.{display_ipv4}
use dockerwall.Net.Display.{parse_ip, parse_ip-display_ipv4}
use dockerwall.Stats.Subnet.{
  ip_in_subnet, ip_in_subnet_v4, in_network_iff, same_network, canonical_ip,
}

abbrev pub network_base_octet : ℕ
network_base_octet = 30

abbrev pub network_prefix_octet : ℕ
network_prefix_octet = 172

abbrev pub network_prefix_length : ℕ
network_prefix_length = 28

abbrev pub usable_hosts_per_subnet : ℕ
usable_hosts_per_subnet = 14

abbrev pub subnet_slots : ℕ
subnet_slots = 256 * usable_hosts_per_subnet

pub record NetworkPlan : Type 0 where
  pub name : Text
  pub subnet : Text
  pub gateway : Text
  pub dns_port : ℕ

-- The third octet of a network, and the last one of its gateway less one.
unfoldable pub third : ℕ → ℕ
third digest = digest % subnet_slots % 2 ^ 16 / usable_hosts_per_subnet % 2 ^ 8

unfoldable pub fourth : ℕ → ℕ
fourth digest = digest % subnet_slots % 2 ^ 16 % usable_hosts_per_subnet % 2 ^ 8

-- The two texts, from what the hasher says of the name and the attempt.
unfoldable pub subnet_and_gateway : ℕ → Text × Text
subnet_and_gateway digest =
    let network : Text =
      to_decimal network_prefix_octet
      ++ (b'.' ∷ (to_decimal network_base_octet ++ (b'.' ∷ to_decimal (third digest)))) in
    (
      network ++ (codes ".0/" ++ to_decimal network_prefix_length),
      network ++ (b'.' ∷ to_decimal (fourth digest + 1)),
    )

-- `DefaultHasher` over the name and the attempt is the standard library's: any function.
module _ (hash : Text → ℕ → ℕ) where
  unfoldable pub network_plan : Text → ℕ → ℕ → NetworkPlan
  network_plan name dns_port attempt = record {
    name = name;
    subnet = (subnet_and_gateway (hash name attempt)).0;
    gateway = (subnet_and_gateway (hash name attempt)).1;
    dns_port = dns_port;
  }

display_lem :
    (t f : ℕ)
    → t < 256
    → f < 256
    → display_ipv4 (ipv4 172 30 t f)
      ≡ (to_decimal 172 ++ (b'.' ∷ (to_decimal 30 ++ (b'.' ∷ to_decimal t))))
        ++ (b'.' ∷ to_decimal f)
unfolding display_ipv4
display_lem t f ht hf =
    let e0 : octet0 (ipv4 172 30 t f) ≡ 172 = omega arith in
    let e1 : octet1 (ipv4 172 30 t f) ≡ 30 = omega arith in
    let e2 : octet2 (ipv4 172 30 t f) ≡ t = omega arith in
    let e3 : octet3 (ipv4 172 30 t f) ≡ f = omega arith in rw (e0, e1, e2, e3) (simp append_assoc)

third-lt : (digest : ℕ) → third digest < 256
unfolding third
third-lt digest = omega arith

fourth-lt : (digest : ℕ) → fourth digest < 14
unfolding fourth
fourth-lt digest = omega arith

zero_text : to_decimal 0 ≡ codes "0"
unfolding to_decimal
zero_text = refl

subnet_text :
    (digest : ℕ)
    → (subnet_and_gateway digest).0
      ≡ display_ipv4 (ipv4 172 30 (third digest) 0) ++ (b'/' ∷ to_decimal 28)
unfolding subnet_and_gateway
subnet_text digest =
    rw (display_lem (third digest) 0 (third-lt digest) (omega arith), zero_text) (simp append_assoc)

-- For whatever the hasher says of a name and an attempt, the plan's gateway is an address of the
-- plan's subnet, as the daemon reads both, and it is neither the first nor the last address of it.
pub gateway_in_subnet :
    (digest : ℕ)
    → (g : ℕ) × (parse_ip (subnet_and_gateway digest).1 ≡ some (v4 g))
      × (ip_in_subnet (v4 g) (subnet_and_gateway digest).0 ≡ true)
      × (0 < g % 16)
      × (g % 16 < 15)
unfolding subnet_and_gateway canonical_ip same_network
gateway_in_subnet digest =
    let t = third-lt digest in
    let f = fourth-lt digest in
    let g : ℕ = ipv4 172 30 (third digest) (fourth digest + 1) in
    (
      g,
      ap parse_ip (sym (display_lem (third digest) (fourth digest + 1) t (omega arith)))
          ∙ parse_ip-display_ipv4 g (omega arith),
      ap (ip_in_subnet (v4 g)) (subnet_text digest)
          ∙ ip_in_subnet_v4 (v4 g) (ipv4 172 30 (third digest) 0) 28 (omega arith) (omega arith)
          ∙ (in_network_iff 32 g (ipv4 172 30 (third digest) 0) 28 (omega arith) (omega arith)).1
              (omega arith),
      omega arith,
      omega arith,
    )
