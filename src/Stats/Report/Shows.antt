-- ===== src/Stats/Report/Shows.antt =====
-- What the text of the statistics shows: every entry of the table has its row in it.
use mathlib.Core.List.{Memᴰ}
use mathlib.Core.Path.{subst}
use mathlib.Core.Option.{some-injective}
use dockerwall.Base.{
  ℕ, ◌≡◌, inl, inr, refl, sym, ap, ◌∙◌, Bool, true, false, Option, some, List, [], ◌∷◌, ◌++◌,
  append_assoc, append-nil, ◌==◌, ==_iff, list_eq, nat_eq, pair_eq, option_eq, is_empty, Bool-cases,
  arith,
}
use dockerwall.Base.Assoc.{Dict, lookup}
use dockerwall.Text.{Text}
use dockerwall.Net.{IpAddr, ip_eq}
use dockerwall.Stats.{Stats, StatEntry, NetworkInfo}
use dockerwall.Stats.Report.{
  ids_of, concat_map, Origin, Entries, push_entry, group_onto, ips_of, sort, insert_sorted,
}

-- A text with the part in it.
pub record Shows (whole part : Text) : Type 0 where
  pub before : Text
  pub after : Text
  pub split : whole ≡ before ++ (part ++ after)

pub Shows-self : (s t : Text) → Shows (s ++ t) s
Shows-self s t = record { before = []; after = t; split = refl }

pub Shows-whole : (s : Text) → Shows s s
Shows-whole s = record { before = []; after = []; split = sym (append-nil s) }

pub Shows-equal : {s part : Text} → s ≡ part → Shows s part
Shows-equal {s} {part} e = record { before = []; after = []; split = e ∙ sym (append-nil part) }

pub Shows-trans : {s t part : Text} → Shows s t → Shows t part → Shows s part
Shows-trans {s} {t} {part} h k = record {
  before = h.before ++ k.before;
  after = k.after ++ h.after;
  split = h.split ∙ ap (λ u. h.before ++ (u ++ h.after)) k.split ∙ simp append_assoc;
}

pub Shows-behind : (s : Text) {t part : Text} → Shows t part → Shows (s ++ t) part
Shows-behind s {t} {part} h = record {
  before = s ++ h.before;
  after = h.after;
  split = ap (λ u. s ++ u) h.split ∙ sym (append_assoc s h.before (part ++ h.after));
}

pub Shows-front : {s part : Text} (t : Text) → Shows s part → Shows (s ++ t) part
Shows-front {s} {part} t h = record {
  before = h.before;
  after = h.after ++ t;
  split = ap (λ u. u ++ t) h.split ∙ simp append_assoc;
}

pub concat_map-Shows {ℓ} :
    {A : Type ℓ} (f : A → Text) {a : A} {l : List A} {part : Text}
    → Memᴰ a l
    → Shows (f a) part
    → Shows (concat_map f l) part
unfolding concat_map
concat_map-Shows f {l = []} m h = elim m [ ]
concat_map-Shows f {a} {l = b ∷ l} {part} (Memᴰ.head e) h = Shows-front (concat_map f l) (rw e at h)
concat_map-Shows f {a} {l = b ∷ l} (Memᴰ.tail m) h = Shows-behind (f b) (concat_map-Shows f m h)

module _ {ℓ} {A : Type ℓ} where
  in_last : (a : A) (l : List A) → Memᴰ a (l ++ (a ∷ []))
  in_last a [] = Memᴰ.head refl
  in_last a (b ∷ l) = Memᴰ.tail (in_last a l)

  in_front : {a : A} {l : List A} (k : List A) → Memᴰ a l → Memᴰ a (l ++ k)
  in_front k (Memᴰ.head e) = Memᴰ.head e
  in_front k (Memᴰ.tail m) = Memᴰ.tail (in_front k m)

  pub is_empty-in : {a : A} {l : List A} → Memᴰ a l → is_empty l ≡ false
  is_empty-in (Memᴰ.head e) = refl
  is_empty-in (Memᴰ.tail m) = refl

  module _ (le : A → A → Bool) where
    inserted_own : (a : A) (l : List A) → Memᴰ a (insert_sorted le a l)
    unfolding insert_sorted
    inserted_own a [] = Memᴰ.head refl
    inserted_own a (b ∷ l) = elim (Bool-cases (le a b)) [
      | inl e ↦ rw e (Memᴰ.head refl)
      | inr e ↦ rw e (Memᴰ.tail (inserted_own a l))
    ]

    inserted_rest : {a : A} (b : A) {l : List A} → Memᴰ a l → Memᴰ a (insert_sorted le b l)
    unfolding insert_sorted
    inserted_rest b {l = []} m = elim m [ ]
    inserted_rest b {l = c ∷ l} (Memᴰ.head e) = elim (Bool-cases (le b c)) [
      | inl h ↦ rw h (Memᴰ.tail (Memᴰ.head e))
      | inr h ↦ rw h (Memᴰ.head e)
    ]
    inserted_rest b {l = c ∷ l} (Memᴰ.tail m) = elim (Bool-cases (le b c)) [
      | inl h ↦ rw h (Memᴰ.tail (Memᴰ.tail m))
      | inr h ↦ rw h (Memᴰ.tail (inserted_rest b m))
    ]

    pub in_sorted : {a : A} {l : List A} → Memᴰ a l → Memᴰ a (sort le l)
    unfolding sort
    in_sorted {l = []} m = elim m [ ]
    in_sorted {a} {l = b ∷ l} (Memᴰ.head e) = rw e (inserted_own b (sort le l))
    in_sorted {a} {l = b ∷ l} (Memᴰ.tail m) = inserted_rest b (in_sorted m)

-- The entries of an origin in a grouping, with this one among them.
abbrev pub IsGrouped : Dict Origin Entries → Origin → Text × StatEntry → Type 0
IsGrouped groups o e = (es : Entries) × (lookup o groups ≡ some es) × Memᴰ e es

pushed_own :
    (o : Origin) (e : Text × StatEntry) (groups : Dict Origin Entries)
    → IsGrouped (push_entry o e groups) o e
unfolding push_entry lookup
pushed_own o e [] = (e ∷ [], ground arith, Memᴰ.head refl)
pushed_own o e ((p, es) ∷ groups) = elim (Bool-cases (o == p)) [
  | inl h ↦ (es ++ (e ∷ []), rw (h, h) refl, in_last e es)
  | inr h ↦ (let (fs, found, m) = pushed_own o e groups in (fs, rw (h, h) found, m))
]

pushed_rest :
    (o : Origin) (e : Text × StatEntry) (j : Origin) (f : Text × StatEntry)
    (groups : Dict Origin Entries)
    → IsGrouped groups j f
    → IsGrouped (push_entry o e groups) j f
unfolding push_entry lookup
pushed_rest o e j f [] (es, found, m) = absurd (cc)
pushed_rest o e j f ((p, fs) ∷ groups) (es, found, m) = elim (Bool-cases (j == p)) [
  | inl h ↦
      (let same : some fs ≡ some es = rw (h, lookup) at found in
        let here : Memᴰ f fs = rw (sym (some-injective _ _ same)) at m in
        elim (Bool-cases (o == p)) [
          | inl k ↦ (fs ++ (e ∷ []), rw (k, h) refl, in_front (e ∷ []) here)
          | inr k ↦ (fs, rw (k, h) refl, here)
        ])
  | inr h ↦
      (let later : lookup j groups ≡ some es = rw (h, lookup) at found in
        elim (Bool-cases (o == p)) [
          | inl k ↦ (es, rw (k, h) later, m)
          | inr k ↦
              (let (gs, found', m') = pushed_rest o e j f groups (es, later, m) in
                (gs, rw (k, h) found', m'))
        ])
]

IsGrouped-rest :
    (groups : Dict Origin Entries) (stats : Stats) (j : Origin) (f : Text × StatEntry)
    → IsGrouped groups j f
    → IsGrouped (group_onto groups stats) j f
unfolding group_onto
IsGrouped-rest groups [] j f h = h
IsGrouped-rest groups (((domain, origin), entry) ∷ stats) j f h =
    IsGrouped-rest (push_entry (entry.network_id, origin) (domain, entry) groups) stats j f
      (pushed_rest (entry.network_id, origin) (domain, entry) j f groups h)

-- Every entry of the table is in the group of its network and its client.
pub in_group :
    (groups : Dict Origin Entries) (stats : Stats) (domain : Text) (origin : IpAddr)
    (entry : StatEntry)
    → lookup (domain, origin) stats ≡ some entry
    → IsGrouped (group_onto groups stats) (entry.network_id, origin) (domain, entry)
unfolding group_onto lookup
in_group groups [] domain origin entry h = absurd (cc)
in_group groups (((d, o), e) ∷ stats) domain origin entry h =
    elim (Bool-cases (◌==◌ {A = Text × IpAddr} (domain, origin) (d, o))) [
      | inl k ↦
          (let key : ◌≡◌ {A = Text × IpAddr} (domain, origin) (d, o) =
              (==_iff (domain, origin) (d, o)).0 k in
            let same : e ≡ entry = some-injective _ _ (rw k at h) in
            let final = group_onto (push_entry (e.network_id, o) (d, e) groups) stats in
            let own =
              IsGrouped-rest (push_entry (e.network_id, o) (d, e) groups) stats (e.network_id, o)
                (d, e) (pushed_own (e.network_id, o) (d, e) groups) in
            let renewed = subst (λ x. IsGrouped final (x.network_id, o) (d, x)) same own in
            subst (λ p. IsGrouped final (entry.network_id, p.1) (p.0, entry)) (sym key) renewed)
      | inr k ↦
          in_group (push_entry (e.network_id, o) (d, e) groups) stats domain origin entry
            (rw k at h)
    ]

pub in_ips_of :
    (net : Option ℕ) (ip : IpAddr) (groups : Dict Origin Entries) (es : Entries)
    → lookup (net, ip) groups ≡ some es
    → Memᴰ ip (ips_of net groups)
unfolding ips_of lookup
in_ips_of net ip [] es h = absurd (cc)
in_ips_of net ip (((id, o), fs) ∷ groups) es h =
    elim (Bool-cases (◌==◌ {A = Origin} (net, ip) (id, o))) [
      | inl k ↦
          (let key : ◌≡◌ {A = Origin} (net, ip) (id, o) = (==_iff (net, ip) (id, o)).0 k in
            let own : (id == net) ≡ true = (==_iff id net).1 (sym (ap (λ p. p.0) key)) in
            rw own (Memᴰ.head (ap (λ p. p.1) key)))
      | inr k ↦
          (let later = in_ips_of net ip groups es (rw k at h) in
            elim (Bool-cases (id == net)) [
              | inl own ↦ rw own (Memᴰ.tail later)
              | inr other ↦ rw other later
            ])
    ]

pub in_ids_of :
    (id : ℕ) (registry : Dict ℕ NetworkInfo) (info : NetworkInfo)
    → lookup id registry ≡ some info
    → Memᴰ id (ids_of registry)
unfolding ids_of lookup
in_ids_of id [] info h = absurd (cc)
in_ids_of id ((j, i) ∷ registry) info h = elim (Bool-cases (id == j)) [
  | inl k ↦ Memᴰ.head ((==_iff id j).0 k)
  | inr k ↦ Memᴰ.tail (in_ids_of id registry info (rw k at h))
]
