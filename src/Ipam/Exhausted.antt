-- ===== src/Ipam/Exhausted.antt =====
-- When `_allocate_ip` of backend/app/services/network_service.py says that a subnet is exhausted.
use nova_ve.Prelude.{
  ℕ, ◌≡◌, ◌≤◌, refl, ap, ◌∙◌, inl, inr, true, [], Option, none, some, Text, text_eq, strip,
  Bool-cases,
}
use nova_ve.Lab.{Network, Lab, network_at}
use nova_ve.Ipam.{
  IpAddress, NetworkServiceError, subnet_exhausted, Outcome, done, raised, last_candidate,
  allocate_subnet, allocate_cidr, allocate_network,
}
use nova_ve.Ipam.Lowest.{holds, first_candidate, allocate_in-exhausted}
use nova_ve.Ipam.Store.{
  LabStore, read_lab, allocate_stored, allocate_found, allocate_read, allocate_at, cloud_id,
  owner_or_raise, target_in, target_read, ipam_target, allocate_target, allocate_ip,
}

-- The network has a CIDR that is read, and its record holds every candidate of it.
abbrev pub IsFull : IpAddress → Network → Type 0
IsFull ip w =
    (t : Text) × (w.cidr ≡ some t)
    × (first : ℕ) × (last : ℕ) × (ip.subnet (strip t) ≡ some (first, last))
    × ((b : ℕ)
        → first_candidate ip w first ≤ b
        → b ≤ last_candidate w first last
        → holds ip b w.used_ips ≡ true)

-- The network of a place that is full
abbrev pub FullAt : IpAddress → LabStore → Text × ℕ → Type 0
FullAt ip store (path, n) =
    (lab : Lab) × (w : Network) × (read_lab path store ≡ some lab)
    × (network_at n lab ≡ some w)
    × IsFull ip w

module _ (ip : IpAddress) where
  subnet-IsFull :
      (w : Network) (t : Text) (o : Option (ℕ × ℕ))
      → w.cidr ≡ some t
      → ip.subnet (strip t) ≡ o
      → allocate_subnet ip w o ≡ raised subnet_exhausted
      → IsFull ip w
  subnet-IsFull w t none c s h = cc
  subnet-IsFull w t (some (first, last)) c s h =
      (t, c, first, last, s, (allocate_in-exhausted ip w first last subnet_exhausted h).1)

  cidr-IsFull :
      (w : Network) (o : Option Text)
      → w.cidr ≡ o
      → allocate_cidr ip w o ≡ raised subnet_exhausted
      → IsFull ip w
  cidr-IsFull w none c h = cc
  cidr-IsFull w (some t) c h = elim (Bool-cases (text_eq t [])) [
    | inl e ↦ let g = rw e at h in absurd (cc)
    | inr e ↦ subnet-IsFull w t (ip.subnet (strip t)) c refl (rw e at h)
  ]

  -- A failure leaves the files, and if it is an exhausted subnet, the network is full.
  abbrev Fails : LabStore → Type 0 → Outcome ℕ × LabStore → Type 0
  Fails store Full r =
      (x : NetworkServiceError) → r.0 ≡ raised x → (r.1 ≡ store) × (x ≡ subnet_exhausted → Full)

  stored-Fails :
      (store : LabStore) (path : Text) (n : ℕ) (lab : Lab) (w : Network) (o : Outcome (ℕ × Network))
      → allocate_network ip w ≡ o
      → Fails store (IsFull ip w) (allocate_stored store path n lab o)
  unfolding allocate_network
  stored-Fails store path n lab w (done (a, v)) e x h = cc
  stored-Fails store path n lab w (raised y) e x h =
      let same : y ≡ x = cc in (refl, λ q. cidr-IsFull w w.cidr refl (e ∙ ap raised (same ∙ q)))

  found-Fails :
      (store : LabStore) (path : Text) (n : ℕ) (lab : Lab) (o : Option Network)
      → read_lab path store ≡ some lab
      → network_at n lab ≡ o
      → Fails store (FullAt ip store (path, n)) (allocate_found ip store path n lab o)
  found-Fails store path n lab none r e x h = (refl, λ q. cc)
  found-Fails store path n lab (some w) r e x h =
      let (same, full) = stored-Fails store path n lab w (allocate_network ip w) refl x h in
      (same, λ q. (lab, w, r, e, full q))

  read-Fails :
      (store : LabStore) (path : Text) (n : ℕ) (o : Option Lab)
      → read_lab path store ≡ o
      → Fails store (FullAt ip store (path, n)) (allocate_read ip store path n o)
  read-Fails store path n none r x h = (refl, λ q. cc)
  read-Fails store path n (some lab) r x h =
      found-Fails store path n lab (network_at n lab) r refl x h

  module _ (find_owner : LabStore → Text → Option (Text × ℕ)) (store : LabStore) where
    abbrev NotExhausted : Outcome (Text × ℕ) → Type 0
    NotExhausted o = o ≡ raised subnet_exhausted → ⊥

    owner-NotExhausted : (o : Option (Text × ℕ)) → NotExhausted (owner_or_raise find_owner o)
    owner-NotExhausted none h = cc
    owner-NotExhausted (some p) h = cc

    target_in-NotExhausted :
        (path : Text) (n : ℕ) (o : Option Network)
        → NotExhausted (target_in find_owner store path n o)
    target_in-NotExhausted path n none h = cc
    target_in-NotExhausted path n (some w) h = elim (Bool-cases (text_eq (cloud_id w) [])) [
      | inl e ↦ let g = rw e at h in cc
      | inr e ↦ owner-NotExhausted (find_owner store (cloud_id w)) (rw e at h)
    ]

    target_read-NotExhausted :
        (path : Text) (n : ℕ) (o : Option Lab)
        → NotExhausted (target_read find_owner store path n o)
    target_read-NotExhausted path n none h = cc
    target_read-NotExhausted path n (some lab) h =
        target_in-NotExhausted path n (network_at n lab) h

    target-Fails :
        (o : Outcome (Text × ℕ))
        → NotExhausted o
        → Fails store
            ((place : Text × ℕ) × (o ≡ done place) × FullAt ip store place)
            (allocate_target find_owner ip store o)
    unfolding allocate_at
    target-Fails (raised e) never x h =
        (refl, λ q. absurd (never (let same : e ≡ x = cc in ap raised (same ∙ q))))
    target-Fails (done place) never x h =
        let (same, full) = read-Fails store place.0 place.1 (read_lab place.0 store) refl x h in
        (same, λ q. (place, refl, full q))

    -- An allocation that fails writes no lab file, and where it fails because the subnet is
    -- exhausted, the network that it is for, or that of the owner of its shared cloud, has a CIDR
    -- that is read, and an entry of its record holds every address from the first candidate to the
    -- last.
    pub allocate_ip-raised :
        (path : Text) (n : ℕ) (x : NetworkServiceError)
        → (allocate_ip find_owner ip store path n).0 ≡ raised x
        → ((allocate_ip find_owner ip store path n).1 ≡ store)
          × (x ≡ subnet_exhausted
              → (place : Text × ℕ) × (ipam_target find_owner store path n ≡ done place)
                × FullAt ip store place)
    unfolding allocate_ip ipam_target
    allocate_ip-raised path n x h =
        target-Fails (target_read find_owner store path n (read_lab path store))
          (target_read-NotExhausted path n (read_lab path store)) x h
