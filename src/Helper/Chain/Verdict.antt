-- ===== src/Helper/Chain/Verdict.antt =====
-- What a chain of iptables decides on a packet: the first rule that the packet matches says it.
use dockerwall.Base.{
  ◌≡◌, refl, Bool, true, ◌&&◌, Option, none, some, List, [], ◌∷◌, if◌then◌else◌, list_eq, nat_eq,
}
use dockerwall.Text.{Text, codes}
use dockerwall.Helper.Chain.{Words}

-- The word behind `-j`: the last one, for a target without options.
abbrev pub target : Words → Text
target [] = []
target (word ∷ []) = word
target (word ∷ next ∷ rest) = target (next ∷ rest)

abbrev pub verdict : (Words → Bool) → List Words → Option Text
verdict hits [] = none
verdict hits (rule ∷ rules) = if hits rule then some (target rule) else verdict hits rules

-- What iptables sees of a packet: which arguments of its tests the packet answers to.
pub record Packet : Type 0 where
  pub state : Text → Bool
  pub source : Text → Bool
  pub destination : Text → Bool
  pub protocol : Text → Bool
  pub port : Text → Bool
  pub icmp_type : Text → Bool
  -- The destination is an element of the set.
  pub member : Text → Bool

-- The documented meaning of a rule's words in front of its target: a packet matches the rule if it
-- passes every test. A loaded module and a comment are no tests.
pub record MatchLaws (packet : Packet) (hits : Words → Bool) : Type 0 where
  pub loads : (name : Text) (rest : Words) → hits (codes "-m" ∷ name ∷ rest) ≡ hits rest
  pub comments : (text : Text) (rest : Words) → hits (codes "--comment" ∷ text ∷ rest) ≡ hits rest
  pub states :
      (state : Text) (rest : Words)
      → hits (codes "--ctstate" ∷ state ∷ rest) ≡ (packet.state state && hits rest)
  pub sources :
      (cidr : Text) (rest : Words)
      → hits (codes "-s" ∷ cidr ∷ rest) ≡ (packet.source cidr && hits rest)
  pub destinations :
      (cidr : Text) (rest : Words)
      → hits (codes "-d" ∷ cidr ∷ rest) ≡ (packet.destination cidr && hits rest)
  pub protocols :
      (protocol : Text) (rest : Words)
      → hits (codes "-p" ∷ protocol ∷ rest) ≡ (packet.protocol protocol && hits rest)
  pub ports :
      (port : Text) (rest : Words)
      → hits (codes "--dport" ∷ port ∷ rest) ≡ (packet.port port && hits rest)
  pub icmp_types :
      (icmp_type : Text) (rest : Words)
      → hits (codes "--icmpv6-type" ∷ icmp_type ∷ rest) ≡ (packet.icmp_type icmp_type && hits rest)
  pub members :
      (name : Text) (rest : Words)
      → hits (codes "--match-set" ∷ name ∷ codes "dst" ∷ rest) ≡ (packet.member name && hits rest)
  pub targets : (rest : Words) → hits (codes "-j" ∷ rest) ≡ true

-- The first rule of a chain, in front of what the others decide.
pub verdict_step :
    (hits : Words → Bool) (rule : Words) (others : List Words) (b : Bool) (t : Text)
    {v : Option Text}
    → hits rule ≡ b
    → target rule ≡ t
    → verdict hits others ≡ v
    → verdict hits (rule ∷ others) ≡ (if b then some t else v)
verdict_step hits rule others b t h e r = rw (h, e, r) refl
