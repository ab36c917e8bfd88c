-- ===== src/Stats/Registry.antt =====
-- The registry of networks: its invariant, and what registering a network changes.
use dockerwall.Base.{
  ℕ, ◌+◌, ◌%◌, ◌^◌, ◌<◌, ◌≡◌, ◌≢◌, sym, ap, ◌∙◌, none, some, arith, ◌==◌, ==_iff, list_eq, nat_eq,
  Option-cases, Bool-cases, inl, inr,
}
use dockerwall.Base.Assoc.{lookup, insert, lookup-insert, lookup-nil, insert-NodupKeys, NodupKeys}
use dockerwall.Text.{Text}
use dockerwall.Stats.{Networks, NetworkInfo, register_network, no_networks}

-- Every subnet has an identifier below the next one, under which the registry holds the subnet; so
-- no two subnets share one. The keys of both maps are distinct.
pub record IsConsistent (n : Networks) : Type 0 where
  pub subnets_nodup : NodupKeys n.subnet_to_id
  pub registry_nodup : NodupKeys n.registry
  pub registered :
      (subnet : Text) (id : ℕ)
      → lookup subnet n.subnet_to_id ≡ some id
      → (info : NetworkInfo) × (lookup id n.registry ≡ some info) × (info.subnet ≡ subnet)
  pub allotted :
      (id : ℕ) (info : NetworkInfo) → lookup id n.registry ≡ some info → id < n.next_network_id

pub no_networks-IsConsistent : IsConsistent no_networks
no_networks-IsConsistent = record {
  subnets_nodup = tt;
  registry_nodup = tt;
  registered = λ subnet id h. absurd (none-ne (sym (lookup-nil subnet) ∙ h));
  allotted = λ id info h. absurd (none-ne (sym (lookup-nil id) ∙ h));
}
  where
    none-ne : {A : Type 0} {a : A} → none ≡ some a → ⊥
    none-ne h = cc

-- Two subnets never share an identifier.
pub subnet_injective :
    {n : Networks}
    → IsConsistent n
    → (s t : Text) (id : ℕ) → lookup s n.subnet_to_id ≡ some id
    → lookup t n.subnet_to_id ≡ some id
    → s ≡ t
subnet_injective {n} c s t id hs ht =
    let (i, ei, si) = c.registered s id hs in
    let (j, ej, tj) = c.registered t id ht in
    let same : i ≡ j = cc in sym si ∙ ap (λ x. x.subnet) same ∙ tj

module _ (name subnet : Text) {n : Networks} (c : IsConsistent n) where
  abbrev info : NetworkInfo
  info = record { name = name; subnet = subnet }

  -- The subnet is known under `id`: the registry gets new information for it.
  abbrev renamed : ℕ → Networks
  renamed id = record n { registry = insert id info n.registry }

  renamed-registered :
      (id : ℕ)
      → lookup subnet n.subnet_to_id ≡ some id
      → (s : Text) (i : ℕ) → lookup s n.subnet_to_id ≡ some i
      → (f : NetworkInfo) × (lookup i (renamed id).registry ≡ some f) × (f.subnet ≡ s)
  renamed-registered id e s i h = elim (Bool-cases (i == id)) [
    | inl same ↦ (
      info,
      ground (arith, lookup-insert i id info n.registry),
      subnet_injective c subnet s id e (h ∙ ap some ((==_iff i id).0 same)),
    )
    | inr differ ↦
        let (f, known, owner) = c.registered s i h in
        (f, ground (arith, lookup-insert i id info n.registry), owner)
  ]

  renamed-IsConsistent :
      (id : ℕ) → lookup subnet n.subnet_to_id ≡ some id → IsConsistent (renamed id)
  renamed-IsConsistent id e = record {
    subnets_nodup = c.subnets_nodup;
    registry_nodup = insert-NodupKeys id info n.registry c.registry_nodup;
    registered = renamed-registered id e;
    allotted = λ i f h.
        let (g, known, owner) = c.registered subnet id e in
        ground (arith, lookup-insert i id info n.registry, c.allotted id g, c.allotted i f);
  }

  module _ (room : n.next_network_id + 1 < 2 ^ 32) (e : lookup subnet n.subnet_to_id ≡ none) where
    -- A subnet that is not known gets the next identifier.
    abbrev enlarged : Networks
    enlarged = record {
      subnet_to_id = insert subnet n.next_network_id n.subnet_to_id;
      registry = insert n.next_network_id info n.registry;
      next_network_id = (n.next_network_id + 1) % 2 ^ 32;
    }

    enlarged-registered :
        (s : Text) (i : ℕ)
        → lookup s enlarged.subnet_to_id ≡ some i
        → (f : NetworkInfo) × (lookup i enlarged.registry ≡ some f) × (f.subnet ≡ s)
    enlarged-registered s i h = elim (Bool-cases (s == subnet)) [
      | inl same ↦ (
        info,
        ground (
          arith,
          lookup-insert s subnet n.next_network_id n.subnet_to_id,
          lookup-insert i n.next_network_id info n.registry,
        ),
        ground arith,
      )
      | inr differ ↦
          let old : lookup s n.subnet_to_id ≡ some i =
            ground (arith, lookup-insert s subnet n.next_network_id n.subnet_to_id) in
          let (f, known, owner) = c.registered s i old in
          (
            f,
            ground (arith, lookup-insert i n.next_network_id info n.registry, c.allotted i f known),
            owner,
          )
    ]

    enlarged-IsConsistent : IsConsistent enlarged
    enlarged-IsConsistent = record {
      subnets_nodup = insert-NodupKeys subnet n.next_network_id n.subnet_to_id c.subnets_nodup;
      registry_nodup = insert-NodupKeys n.next_network_id info n.registry c.registry_nodup;
      registered = enlarged-registered;
      allotted = λ i f h.
          ground (arith, lookup-insert i n.next_network_id info n.registry, c.allotted i f);
    }

module _ (name subnet : Text) {n : Networks} (c : IsConsistent n)
    (room : n.next_network_id + 1 < 2 ^ 32) where
  -- Registering keeps the registry consistent, as long as the counter has not run through.
  pub register_network-IsConsistent : IsConsistent (register_network name subnet n)
  unfolding register_network
  register_network-IsConsistent = elim (Option-cases (lookup subnet n.subnet_to_id)) [
    | inl new ↦ rw (new, register_network) (enlarged-IsConsistent name subnet c room new)
    | inr (id, old) ↦ rw (old, register_network) (renamed-IsConsistent name subnet c id old)
  ]

  registers_self :
      (id : ℕ) × (lookup subnet (register_network name subnet n).subnet_to_id ≡ some id)
      × (lookup id (register_network name subnet n).registry
          ≡ some (record { name = name; subnet = subnet }))
  unfolding register_network
  registers_self = elim (Option-cases (lookup subnet n.subnet_to_id)) [
    | inl new ↦ (
      n.next_network_id,
      ground (arith, lookup-insert subnet subnet n.next_network_id n.subnet_to_id),
      ground (
        arith,
        lookup-insert n.next_network_id n.next_network_id (info name subnet c) n.registry,
      ),
    )
    | inr (id, old) ↦
        (id, ground arith, ground (arith, lookup-insert id id (info name subnet c) n.registry))
  ]

  keeps_others :
      (other : Text) (id : ℕ)
      → other ≢ subnet
      → lookup other n.subnet_to_id ≡ some id
      → (lookup other (register_network name subnet n).subnet_to_id ≡ some id)
        × (lookup id (register_network name subnet n).registry ≡ lookup id n.registry)
  unfolding register_network
  keeps_others other id ne h =
      let (f, known, owner) = c.registered other id h in
      elim (Option-cases (lookup subnet n.subnet_to_id)) [
        | inl new ↦ ground (
          arith,
          lookup-insert other subnet n.next_network_id n.subnet_to_id,
          lookup-insert id n.next_network_id (info name subnet c) n.registry,
          c.allotted id f known,
        )
        | inr (j, old) ↦ elim (Bool-cases (id == j)) [
          | inl same ↦
              absurd
                (ne (subnet_injective c other subnet j (h ∙ ap some ((==_iff id j).0 same)) old))
          | inr differ ↦ ground (arith, lookup-insert id j (info name subnet c) n.registry)
        ]
      ]

  -- In a consistent registry whose counter has not run through, after a registration the subnet is
  -- known under the new name, and every other known subnet has the identifier and the information
  -- that it had.
  pub register_network_lem :
      ((id : ℕ) × (lookup subnet (register_network name subnet n).subnet_to_id ≡ some id)
        × (lookup id (register_network name subnet n).registry
            ≡ some (record { name = name; subnet = subnet })))
      × ((other : Text) (id : ℕ)
          → other ≢ subnet
          → lookup other n.subnet_to_id ≡ some id
          → (lookup other (register_network name subnet n).subnet_to_id ≡ some id)
            × (lookup id (register_network name subnet n).registry ≡ lookup id n.registry))
  register_network_lem = (registers_self, keeps_others)
