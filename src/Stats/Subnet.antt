-- ===== src/Stats/Subnet.antt =====
-- `ip_in_subnet`: an address is in a network if their leading bits agree.
use Prim.Native.Nat.{bit_and}
use dockerwall.Base.{
  ℕ, zero, suc, ◌+◌, ◌-◌, ◌*◌, ◌/◌, ◌%◌, ◌^◌, ◌≤◌, ◌<◌, ◌≡◌, ◌↔◌, refl, sym, ap, ◌∙◌, Bool, true,
  false, none, some, List, [], ◌∷◌, ◌++◌, arith, leb, eqb, eqb_iff, leb→le, if◌then◌else◌,
  Bool-cases, inl, inr,
}
use mathlib.Core.Path.{subst}
use native.Mathlib.Nat.{div-eq_of_lt, mod-eq_of_lt, mul-div_cancel}
use dockerwall.Base.Bits.{and-mask, and-ones, and-zero_below, pow-pos}
use dockerwall.Text.{Text, split}
use dockerwall.Text.Decimal.{
  parse_uint, u32_max, to_decimal, parse_uint-to_decimal, free-to_decimal, is_digit,
}
use dockerwall.Text.Split.{split-append, split-free}
use dockerwall.Net.{IpAddr, v4, v6, to_ipv4_mapped}
use dockerwall.Net.Display.{parse_ip, parse_ip-display_ipv4}
use dockerwall.Net.Ipv4.{display_ipv4, free-display_ipv4}

-- The mask of a prefix in a word of `w` bits; a longer prefix is the whole word.
unfoldable pub mask : ℕ → ℕ → ℕ
mask w prefix_len =
    if eqb prefix_len 0
    then 0
    else if leb w prefix_len
    then 2 ^ w - 1
    else (2 ^ w - 1) * 2 ^ (w - prefix_len) % 2 ^ w

unfoldable pub in_network : ℕ → ℕ → ℕ → ℕ → Bool
in_network w ip net prefix_len =
    eqb (bit_and ip (mask w prefix_len)) (bit_and net (mask w prefix_len))

-- An IPv4 address in the form of an IPv6 address is taken for what it stands for.
unfoldable pub canonical_ip : IpAddr → IpAddr
canonical_ip (v4 a) = v4 a
canonical_ip (v6 a) = elim (to_ipv4_mapped a) [ some b ↦ v4 b | none ↦ v6 a ]

abbrev pub piece : ℕ → List Text → Text
piece i [] = []
piece zero (w ∷ ws) = w
piece (suc i) (w ∷ ws) = piece i ws

unfoldable pub same_network : IpAddr → IpAddr → ℕ → Bool
same_network (v4 ip) (v4 net) prefix_len = in_network 32 ip net prefix_len
same_network (v6 ip) (v6 net) prefix_len = in_network 128 ip net prefix_len
same_network (v4 ip) (v6 net) prefix_len = false
same_network (v6 ip) (v4 net) prefix_len = false

unfoldable pub ip_in_subnet : IpAddr → Text → Bool
ip_in_subnet ip subnet =
    let parts = split b'/' subnet in
    elim (parse_ip (piece 0 parts)) [
      | none ↦ false
      | some network_ip ↦ elim (parse_uint u32_max (piece 1 parts)) [
        | none ↦ false
        | some prefix_len ↦ same_network (canonical_ip ip) network_ip prefix_len
      ]
    ]

mask_none : (w a : ℕ) → a < 2 ^ w → bit_and a 0 ≡ a / 2 ^ (w - 0) * 2 ^ (w - 0)
mask_none w a h =
    let all : w - 0 ≡ w = omega arith in
    and-zero_below a a (omega arith) ∙ rw (all, div-eq_of_lt h) (omega arith)

mask_all : (w a p : ℕ) → a < 2 ^ w → w ≤ p → bit_and a (2 ^ w - 1) ≡ a / 2 ^ (w - p) * 2 ^ (w - p)
mask_all w a p h le =
    let none : w - p ≡ 0 = omega arith in and-ones w a ∙ mod-eq_of_lt h ∙ rw none (omega arith)

mask_some :
    (w a p : ℕ)
    → a < 2 ^ w
    → p < w
    → bit_and a ((2 ^ w - 1) * 2 ^ (w - p) % 2 ^ w) ≡ a / 2 ^ (w - p) * 2 ^ (w - p)
mask_some w a p h lt =
    let whole : w - p + p ≡ w = omega arith in rw whole at (and-mask (w - p) p a (rw whole h))

-- The mask keeps the bits of the prefix.
pub and-mask_prefix : (w a p : ℕ) → a < 2 ^ w → bit_and a (mask w p) ≡ a / 2 ^ (w - p) * 2 ^ (w - p)
unfolding mask
and-mask_prefix w a p h = elim (Bool-cases (eqb p 0)) [
  | inl zero_bits ↦
      let e : p ≡ 0 = (eqb_iff p 0).0 zero_bits in
      subst (λ q. bit_and a (mask w q) ≡ a / 2 ^ (w - q) * 2 ^ (w - q)) (sym e) (mask_none w a h)
  | inr some_bits ↦ elim (Bool-cases (leb w p)) [
    | inl all ↦ rw (some_bits, all, mask) (mask_all w a p h (leb→le w p all))
    | inr part ↦ rw (some_bits, part, mask) (mask_some w a p h (ground arith))
  ]
]

-- Two addresses of `w` bits are taken to be in one network exactly when they agree in the bits in
-- front of the last `w - prefix_len`, for every prefix length, also one past the word.
pub in_network_iff :
    (w ip net prefix_len : ℕ)
    → ip < 2 ^ w
    → net < 2 ^ w
    → (in_network w ip net prefix_len ≡ true)
      ↔ (ip / 2 ^ (w - prefix_len) ≡ net / 2 ^ (w - prefix_len))
unfolding in_network
in_network_iff w ip net p hi hn =
    let mi = and-mask_prefix w ip p hi in
    let mn = and-mask_prefix w net p hn in
    let d = 2 ^ (w - p) in
    (
      λ h.
          let same = sym mi ∙ (eqb_iff _ _).0 h ∙ mn in
          sym (mul-div_cancel (ip / d) (pow-pos (w - p)))
          ∙ ap (λ t. t / d) same
          ∙ mul-div_cancel (net / d) (pow-pos (w - p)),
      λ e. (eqb_iff _ _).1 (mi ∙ ap (λ t. t * d) e ∙ sym mn),
    )

-- A subnet that is written as an IPv4 address of 32 bits and a prefix length of 32 bits is read as
-- that address and that length.
pub ip_in_subnet_v4 :
    (ip : IpAddr) (net prefix_len : ℕ)
    → net < 2 ^ 32
    → prefix_len < 2 ^ 32
    → ip_in_subnet ip (display_ipv4 net ++ (b'/' ∷ to_decimal prefix_len))
      ≡ same_network (canonical_ip ip) (v4 net) prefix_len
unfolding ip_in_subnet is_digit
ip_in_subnet_v4 ip net prefix_len hn hp =
    let pieces : split b'/' (display_ipv4 net ++ (b'/' ∷ to_decimal prefix_len))
        ≡ display_ipv4 net ∷ to_decimal prefix_len ∷ [] =
      split-append b'/' (display_ipv4 net) (to_decimal prefix_len)
        (free-display_ipv4 b'/' net refl refl)
      ∙ ap (◌∷◌ (display_ipv4 net))
          (split-free b'/' (to_decimal prefix_len) (free-to_decimal b'/' prefix_len refl)) in
    ground (
      arith,
      pieces,
      parse_ip-display_ipv4 net hn,
      parse_uint-to_decimal u32_max prefix_len (omega arith),
    )
