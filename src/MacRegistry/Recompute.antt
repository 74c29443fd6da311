-- ===== src/MacRegistry/Recompute.antt =====
-- What `recompute_for_lab` of mac_registry.py leaves in the registry, key by key.
use mathlib.Core.Path.{subst}
use nova_ve.Prelude.Dict.{
  get, put, remove, get-put, get-remove, Distinct, Distinct-put, Distinct-remove,
}
use nova_ve.Prelude.{
  ℕ, zero, suc, ◌≡◌, ◌≢◌, refl, ap, ◌∙◌, Bool, false, Option, none, some, List, [], ◌∷◌, inl, inr,
  arith, Text, text_eq, text_eq_iff, if◌then◌else◌, get_elem?, any_of, Bool-cases,
}
use nova_ve.Lab.{Node, Link, Lab, Interface}
use nova_ve.MacRegistry.{
  OwnerKey, RegistryKey, MacRegistry, key_eq, key_eq_iff, entry_at, normalize_mac, check_collision,
  interface_mac, link_entry, add_entry, fresh_entries, stale_keys, delete_keys, update_with,
  recompute_for_lab,
}

abbrev Entries : Type 0
Entries = List (RegistryKey × OwnerKey)

-- `k in ks`
abbrev key_in : RegistryKey → List RegistryKey → Bool
key_in k ks = any_of (λ j. key_eq j k) ks

get-delete_keys :
    (ks : List RegistryKey) (k : RegistryKey) (m : Entries)
    → get key_eq k (delete_keys ks m) ≡ (if key_in k ks then none else get key_eq k m)
unfolding delete_keys
get-delete_keys [] k m = refl
get-delete_keys (j ∷ ks) k m =
    ground (arith, get-delete_keys ks k (remove key_eq j m), get-remove key_eq key_eq_iff j k m)

-- Whether the entry found at a key is the lab's.
abbrev owned_by : Text → Option OwnerKey → Bool
owned_by lab_id none = false
owned_by lab_id (some o) = text_eq o.lab_id lab_id

key_in-stale_keys :
    (lab_id : Text) (k : RegistryKey) (m : Entries)
    → Distinct key_eq m
    → key_in k (stale_keys lab_id m) ≡ owned_by lab_id (get key_eq k m)
unfolding stale_keys get
key_in-stale_keys lab_id k [] d = refl
key_in-stale_keys lab_id k ((j, o) ∷ m) d = elim (Bool-cases (key_eq j k)) [
  | inl e ↦
      let absent = subst (λ i. get key_eq i m ≡ none) ((key_eq_iff j k).0 e) d.0 in
      ground (arith, e, absent, key_in-stale_keys lab_id k m d.1)
  | inr e ↦ ground (arith, e, key_in-stale_keys lab_id k m d.1)
]

Distinct-add_entry :
    (e : Option (RegistryKey × OwnerKey)) (m : Entries)
    → Distinct key_eq m
    → Distinct key_eq (add_entry e m)
unfolding add_entry
Distinct-add_entry none m d = d
Distinct-add_entry (some (k, o)) m d = Distinct-put key_eq key_eq_iff k o m d

Distinct-fresh_entries :
    (lab_id : Text) (nodes : List (ℕ × Node)) (links : List Link) (m : Entries)
    → Distinct key_eq m
    → Distinct key_eq (fresh_entries lab_id nodes links m)
unfolding fresh_entries
Distinct-fresh_entries lab_id nodes [] m d = d
Distinct-fresh_entries lab_id nodes (link ∷ links) m d =
    Distinct-fresh_entries lab_id nodes links _
      (Distinct-add_entry (link_entry lab_id nodes link) m d)

-- `a`, or `b` where `a` is nothing
abbrev pub or_else {ℓ} : {A : Type ℓ} → Option A → Option A → Option A
or_else none b = b
or_else (some a) b = some a

get-update_with :
    (k : RegistryKey) (fresh m : Entries)
    → Distinct key_eq fresh
    → get key_eq k (update_with fresh m) ≡ or_else (get key_eq k fresh) (get key_eq k m)
unfolding update_with get
get-update_with k [] m d = refl
get-update_with k ((j, o) ∷ fresh) m d =
    get-update_with k fresh (put key_eq j o m) d.1 ∙ elim (Bool-cases (key_eq j k)) [
      | inl e ↦
          let absent = subst (λ i. get key_eq i fresh ≡ none) ((key_eq_iff j k).0 e) d.0 in
          ground (arith, e, absent, get-put key_eq key_eq_iff j k o m)
      | inr e ↦ ground (arith, e, get-put key_eq key_eq_iff j k o m)
    ]

-- `a` unless it is the lab's
abbrev pub unless_owned : Text → Option OwnerKey → Option OwnerKey
unless_owned lab_id o = if owned_by lab_id o then none else o

-- What the links of the lab register: for each key the last of its links that has it.
abbrev pub declared : Text → Lab → Entries
declared lab_id lab = fresh_entries lab_id lab.nodes lab.links []

-- After a recompute, a key is owned by the interface that the lab's links declare for it; a key
-- that the lab does not declare keeps its owner, unless that was the lab, whose old entries are
-- all gone.
pub entry_at-recompute_for_lab :
    (lab_id : Text) (lab : Lab) (r : MacRegistry) (k : RegistryKey)
    → Distinct key_eq r.entries
    → entry_at k (recompute_for_lab lab_id lab r)
      ≡ or_else (get key_eq k (declared lab_id lab)) (unless_owned lab_id (entry_at k r))
unfolding recompute_for_lab
entry_at-recompute_for_lab lab_id lab r k d =
    get-update_with k (declared lab_id lab) _
      (Distinct-fresh_entries lab_id lab.nodes lab.links [] tt)
    ∙ ap (or_else (get key_eq k (declared lab_id lab))) (
        get-delete_keys (stale_keys lab_id r.entries) k r.entries
        ∙ ground (arith, key_in-stale_keys lab_id k r.entries d))

Distinct-delete_keys :
    (ks : List RegistryKey) (m : Entries) → Distinct key_eq m → Distinct key_eq (delete_keys ks m)
unfolding delete_keys
Distinct-delete_keys [] m d = d
Distinct-delete_keys (k ∷ ks) m d =
    Distinct-delete_keys ks _ (Distinct-remove key_eq key_eq_iff k m d)

Distinct-update_with :
    (fresh m : Entries) → Distinct key_eq m → Distinct key_eq (update_with fresh m)
unfolding update_with
Distinct-update_with [] m d = d
Distinct-update_with ((k, o) ∷ fresh) m d =
    Distinct-update_with fresh _ (Distinct-put key_eq key_eq_iff k o m d)

pub Distinct-recompute_for_lab :
    (lab_id : Text) (lab : Lab) (r : MacRegistry)
    → Distinct key_eq r.entries
    → Distinct key_eq (recompute_for_lab lab_id lab r).entries
unfolding recompute_for_lab
Distinct-recompute_for_lab lab_id lab r d =
    Distinct-update_with (declared lab_id lab) _ (Distinct-delete_keys _ r.entries d)

-- An entry that the loop has added may be given to a later link, but stays the lab's.
abbrev HasLab : Text → Option OwnerKey → Type 0
HasLab lab_id o = (w : OwnerKey) × (o ≡ some w) × (w.lab_id ≡ lab_id)

interface_mac-ne : (i : Interface) (mac : Text) → interface_mac i ≡ some mac → mac ≢ []
unfolding interface_mac
interface_mac-ne i mac h = ground (arith, text_eq_iff mac [])

lab_id-link_entry :
    (lab_id : Text) (nodes : List (ℕ × Node)) (link : Link) (k : RegistryKey) (o : OwnerKey)
    → link_entry lab_id nodes link ≡ some (k, o)
    → o.lab_id ≡ lab_id
unfolding link_entry
lab_id-link_entry lab_id nodes link k o h = ground arith

mac-link_entry :
    (lab_id : Text) (nodes : List (ℕ × Node)) (link : Link) (k : RegistryKey) (o : OwnerKey)
    → link_entry lab_id nodes link ≡ some (k, o)
    → k.1 ≢ []
unfolding link_entry
mac-link_entry lab_id nodes link k o h = grind (arith, interface_mac-ne)

put-HasLab :
    (lab_id : Text) (k j : RegistryKey) (o : OwnerKey) (m : Entries)
    → (o.lab_id ≡ lab_id)
    → HasLab lab_id (get key_eq k m)
    → HasLab lab_id (get key_eq k (put key_eq j o m))
put-HasLab lab_id k j o m e (w, found, q) =
    rw (get-put key_eq key_eq_iff j k o m) (elim (Bool-cases (key_eq j k)) [
      | inl same ↦ rw same (o, refl, e)
      | inr other ↦ rw other (w, found, q)
    ])

fresh_entries-HasLab :
    (lab_id : Text) (nodes : List (ℕ × Node)) (links : List Link) (k : RegistryKey) (m : Entries)
    → HasLab lab_id (get key_eq k m)
    → HasLab lab_id (get key_eq k (fresh_entries lab_id nodes links m))
unfolding fresh_entries
fresh_entries-HasLab lab_id nodes [] k m h = h
fresh_entries-HasLab lab_id nodes (link ∷ links) k m h =
    fresh_entries-HasLab lab_id nodes links k _ (step (link_entry lab_id nodes link) refl)
  where
    step :
        (e : Option (RegistryKey × OwnerKey))
        → link_entry lab_id nodes link ≡ e
        → HasLab lab_id (get key_eq k (add_entry e m))
    step none q = unfold add_entry in h
    step (some (j, o)) q =
        unfold add_entry in put-HasLab lab_id k j o m (lab_id-link_entry lab_id nodes link j o q) h

declares-HasLab :
    (lab_id : Text) (nodes : List (ℕ × Node)) (links : List Link) (m : Entries) (i : ℕ)
    (link : Link) (k : RegistryKey) (o : OwnerKey)
    → get_elem? links i ≡ some link
    → link_entry lab_id nodes link ≡ some (k, o)
    → HasLab lab_id (get key_eq k (fresh_entries lab_id nodes links m))
unfolding fresh_entries
declares-HasLab lab_id nodes [] m i link k o at e = cc
declares-HasLab lab_id nodes (l ∷ links) m zero link k o at e =
    let same : l ≡ link = cc in
    let p : link_entry lab_id nodes l ≡ some (k, o) = rw same e in
    rw p (
      fresh_entries-HasLab lab_id nodes links k _ (
        unfold add_entry in
        rw (get-put key_eq key_eq_iff k k o m, (key_eq_iff k k).1 refl)
          (o, refl, lab_id-link_entry lab_id nodes link k o e)))
declares-HasLab lab_id nodes (l ∷ links) m (suc i) link k o at e =
    declares-HasLab lab_id nodes links _ i link k o at e

-- Once a lab is recomputed, every interface that one of its links puts on a network with a
-- planned MAC is protected: whoever of another lab asks for a MAC that normalizes to the same on
-- that network is told of a collision, with an owner of this lab.
pub check_collision-recompute_for_lab :
    (lab_id : Text) (lab : Lab) (r : MacRegistry) (i : ℕ) (link : Link) (k : RegistryKey)
    (o own : OwnerKey) (planned : Text)
    → Distinct key_eq r.entries
    → get_elem? lab.links i ≡ some link
    → link_entry lab_id lab.nodes link ≡ some (k, o)
    → normalize_mac planned ≡ k.1
    → own.lab_id ≢ lab_id
    → (w : OwnerKey) × (check_collision
          (recompute_for_lab lab_id lab r)
          k.0
          (some planned)
          (some own)
        ≡ some w)
      × (w.lab_id ≡ lab_id)
unfolding check_collision
check_collision-recompute_for_lab lab_id lab r i link k o own planned d at e p ne =
    let (w, found, q) = declares-HasLab lab_id lab.nodes lab.links [] i link k o at e in
    let there = entry_at-recompute_for_lab lab_id lab r k d in
    let named = mac-link_entry lab_id lab.nodes link k o e in
    let there' : entry_at k (recompute_for_lab lab_id lab r) ≡ some w =
      there ∙ ap (λ t. or_else t (unless_owned lab_id (entry_at k r))) found in
    (
      w,
      rw p (rw there' (ground (arith, named, text_eq_iff k.1 [], text_eq_iff w.lab_id own.lab_id))),
      q,
    )
