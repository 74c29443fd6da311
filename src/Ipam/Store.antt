-- ===== src/Ipam/Store.antt =====
-- `_ipam_target`, `_allocate_ip`, `_release_ip` and `_release_ip_from_owner` of
-- backend/app/services/network_service.py on the lab files. `find_nat_cloud_owner` of
-- cloud_inventory_service.py is the parameter `find_owner`.
use nova_ve.Prelude.Dict
use nova_ve.Prelude.{
  ℕ, Bool, true, false, Option, none, some, List, [], Text, text_eq, strip, ◌==◌, if◌then◌else◌,
}
use nova_ve.Lab.{Network, Lab, network_at}
use nova_ve.Ipam.{
  IpAddress, NetworkServiceError, lab_absent, network_absent, owner_absent, Outcome, done, raised,
  allocate_network, release_network,
}

-- The lab files by their normalized path.
abbrev pub LabStore : Type 0
LabStore = List (Text × Lab)

abbrev pub read_lab : Text → LabStore → Option Lab
read_lab path store = Dict.get text_eq path store

abbrev pub write_lab : Text → Lab → LabStore → LabStore
write_lab path lab store = Dict.put text_eq path lab store

abbrev pub store_network : ℕ → Network → Lab → Lab
store_network n w lab = record lab { networks = Dict.put ◌==◌ n w lab.networks }

-- `str(config.get("shared_cloud_id") or "").strip()`
abbrev pub cloud_id : Network → Text
cloud_id w = elim w.shared_cloud_id [ none ↦ [] | some t ↦ strip t ]

abbrev pub allocate_stored :
    LabStore → Text → ℕ → Lab → Outcome (ℕ × Network) → Outcome ℕ × LabStore
allocate_stored store path n lab (raised e) = (raised e, store)
allocate_stored store path n lab (done (a, w)) =
    (done a, write_lab path (store_network n w lab) store)

abbrev pub allocate_found :
    IpAddress → LabStore → Text → ℕ → Lab → Option Network → Outcome ℕ × LabStore
allocate_found ip store path n lab none = (raised network_absent, store)
allocate_found ip store path n lab (some w) =
    allocate_stored store path n lab (allocate_network ip w)

abbrev pub allocate_read : IpAddress → LabStore → Text → ℕ → Option Lab → Outcome ℕ × LabStore
allocate_read ip store path n none = (raised lab_absent, store)
allocate_read ip store path n (some lab) = allocate_found ip store path n lab (network_at n lab)

-- The locked part of `_allocate_ip`, on the owner's file.
unfoldable pub allocate_at : IpAddress → LabStore → Text × ℕ → Outcome ℕ × LabStore
allocate_at ip store (path, n) = allocate_read ip store path n (read_lab path store)

abbrev pub release_stored : LabStore → Text → ℕ → Lab → Network × Bool → Outcome Bool × LabStore
release_stored store path n lab (w, true) =
    (done true, write_lab path (store_network n w lab) store)
release_stored store path n lab (w, false) = (done false, store)

abbrev pub release_found :
    IpAddress → LabStore → Text → ℕ → Text → Lab → Option Network → Outcome Bool × LabStore
release_found ip store path n t lab none = (done false, store)
release_found ip store path n t lab (some w) =
    release_stored store path n lab (release_network ip w t)

abbrev pub release_read :
    IpAddress → LabStore → Text → ℕ → Text → Option Lab → Outcome Bool × LabStore
release_read ip store path n t none = (raised lab_absent, store)
release_read ip store path n t (some lab) = release_found ip store path n t lab (network_at n lab)

-- `_release_ip_from_owner`
unfoldable pub release_at : IpAddress → LabStore → Text × ℕ → Text → Outcome Bool × LabStore
release_at ip store (path, n) t = release_read ip store path n t (read_lab path store)

-- The answer of the branch of `_release_ip` that holds the lab lock, where no target is found.
abbrev pub absent_as_false : NetworkServiceError → Outcome Bool
absent_as_false lab_absent = raised lab_absent
absent_as_false _ = done false

abbrev pub release_target :
    IpAddress → Bool → LabStore → Text → Outcome (Text × ℕ) → Outcome Bool × LabStore
release_target ip held store t (raised e) = (if held then absent_as_false e else raised e, store)
release_target ip held store t (done target) = release_at ip store target t

module _ (find_owner : LabStore → Text → Option (Text × ℕ)) where
  abbrev pub owner_or_raise : Option (Text × ℕ) → Outcome (Text × ℕ)
  owner_or_raise none = raised owner_absent
  owner_or_raise (some o) = done o

  abbrev pub target_in : LabStore → Text → ℕ → Option Network → Outcome (Text × ℕ)
  target_in store path n none = raised network_absent
  target_in store path n (some w) =
      if text_eq (cloud_id w) []
      then done (path, n)
      else owner_or_raise (find_owner store (cloud_id w))

  -- `_ipam_target`
  abbrev pub target_read : LabStore → Text → ℕ → Option Lab → Outcome (Text × ℕ)
  target_read store path n none = raised lab_absent
  target_read store path n (some lab) = target_in store path n (network_at n lab)

  unfoldable pub ipam_target : LabStore → Text → ℕ → Outcome (Text × ℕ)
  ipam_target store path n = target_read store path n (read_lab path store)

  -- `_allocate_ip`
  abbrev pub allocate_target : IpAddress → LabStore → Outcome (Text × ℕ) → Outcome ℕ × LabStore
  allocate_target ip store (raised e) = (raised e, store)
  allocate_target ip store (done target) = allocate_at ip store target

  unfoldable pub allocate_ip : IpAddress → LabStore → Text → ℕ → Outcome ℕ × LabStore
  allocate_ip ip store path n = allocate_target ip store (ipam_target store path n)

  -- `_release_ip`; `held` is `_lab_lock_held`.
  unfoldable pub release_ip :
      IpAddress → Bool → LabStore → Text → ℕ → Text → Outcome Bool × LabStore
  release_ip ip held store path n t = release_target ip held store t (ipam_target store path n)
