-- ===== src/Ipam.antt =====
-- `_allocate_ip` and `_release_ip` of backend/app/services/network_service.py. Python's
-- `ipaddress` is the parameter `IpAddress`: addresses as numbers, their texts, and the first and
-- last address of a valid IPv4 network.
pub mod Exhausted
pub mod Lowest
pub mod Release
pub mod Store
mod Tests
use Prim.Native.Nat.{min}
use nova_ve.Prelude.Dict
use nova_ve.Prelude.{
  ℕ, zero, suc, ◌+◌, ◌-◌, ◌^◌, ◌≤◌, ◌<◌, ◌≡◌, Bool, true, false, ◌&&◌, Option, none, some, List, [],
  ◌∷◌, map, Text, codes, text_eq, strip, ltb, leb, ◌==◌, if◌then◌else◌, any_of,
}
use nova_ve.Lab.{Network, Lab, network_at}

-- What the code relies on in `ipaddress`: an address is printed as a text that parses back.
pub record IpAddress : Type 0 where
  pub parse : Text → Option ℕ
  pub show : ℕ → Text
  pub subnet : Text → Option (ℕ × ℕ)
  pub parse-show : (n : ℕ) → n < 2 ^ 32 → parse (show n) ≡ some n
  pub subnet_bounds :
      (t : Text) (first last : ℕ) → subnet t ≡ some (first, last) → (first ≤ last) × (last < 2 ^ 32)

abbrev pub default_first_offset : ℕ
default_first_offset = 2

abbrev pub nat_cloud_static_last_offset : ℕ
nat_cloud_static_last_offset = 99

abbrev pub nat_cloud_type : Text
nat_cloud_type = codes "nat_cloud"

-- `NetworkServiceError`, by its code
pub data NetworkServiceError : Type 0 where
  lab_absent network_absent owner_absent not_applicable invalid_cidr subnet_exhausted :
      NetworkServiceError

pub data Outcome {ℓ} (A : Type ℓ) : Type ℓ where
  done : A → Outcome A
  raised : NetworkServiceError → Outcome A

-- A set of addresses as the sorted list of its members.
unfoldable pub insert_address : ℕ → List ℕ → List ℕ
insert_address a [] = a ∷ []
insert_address a (b ∷ bs) =
    if ltb a b then a ∷ b ∷ bs else if a == b then b ∷ bs else b ∷ insert_address a bs

abbrev pub is_used : ℕ → List ℕ → Bool
is_used a used = any_of (λ b. b == a) used

-- `first_offset`, with its default for a missing or zero value
unfoldable pub offset_of : Option ℕ → ℕ
offset_of none = default_first_offset
offset_of (some zero) = default_first_offset
offset_of (some (suc n)) = suc n

-- The loop over the candidates: the first that is free, among so many from the first on.
unfoldable pub first_free : List ℕ → ℕ → ℕ → Option ℕ
first_free used zero candidate = none
first_free used (suc count) candidate =
    let rest = first_free used count (candidate + 1) in
    if is_used candidate used then rest else some candidate

-- The last candidate: one below the broadcast address, and at most offset 99 on a NAT cloud.
unfoldable pub last_candidate : Network → ℕ → ℕ → ℕ
last_candidate w first last =
    if text_eq w.kind nat_cloud_type
    then min (last - 1) (first + nat_cloud_static_last_offset)
    else last - 1

unfoldable pub choose : Network → List ℕ → ℕ → ℕ → Option ℕ
choose w used first last =
    let start = first + offset_of w.first_offset in
    first_free used (last_candidate w first last + 1 - start) start

abbrev pub or_default : Option ℕ → Option ℕ → Option ℕ
or_default none d = d
or_default (some x) d = some x

abbrev pub add_used : ℕ → ℕ → Option ℕ → List ℕ → List ℕ
add_used first last none used = used
add_used first last (some a) used =
    if leb first a && leb a last then insert_address a used else used

module _ (ip : IpAddress) where
  -- The entries that parse and lie in the network.
  unfoldable pub used_addresses : ℕ → ℕ → List (Option Text) → List ℕ
  used_addresses first last [] = []
  used_addresses first last (none ∷ es) = used_addresses first last es
  used_addresses first last (some t ∷ es) =
      add_used first last (ip.parse t) (used_addresses first last es)

  unfoldable pub record_used : Network → List ℕ → Network
  record_used w used = record w {
    used_ips = map (λ a. some (ip.show a)) used;
    first_offset = or_default w.first_offset (some (offset_of w.first_offset));
  }

  abbrev pub allocated : Network → List ℕ → Option ℕ → Outcome (ℕ × Network)
  allocated w used none = raised subnet_exhausted
  allocated w used (some a) = done (a, record_used w (insert_address a used))

  -- The part of `_allocate_ip` on a network whose CIDR is read: the address, and the record with it.
  unfoldable pub allocate_in : Network → ℕ → ℕ → Outcome (ℕ × Network)
  allocate_in w first last =
      let used = used_addresses first last w.used_ips in allocated w used (choose w used first last)

  abbrev pub allocate_subnet : Network → Option (ℕ × ℕ) → Outcome (ℕ × Network)
  allocate_subnet w none = raised invalid_cidr
  allocate_subnet w (some (first, last)) = allocate_in w first last

  abbrev pub allocate_cidr : Network → Option Text → Outcome (ℕ × Network)
  allocate_cidr w none = raised not_applicable
  allocate_cidr w (some t) =
      if text_eq t [] then raised not_applicable else allocate_subnet w (ip.subnet (strip t))

  unfoldable pub allocate_network : Network → Outcome (ℕ × Network)
  allocate_network w = allocate_cidr w w.cidr

  -- `list.remove` of the first equal entry
  unfoldable pub remove_entry : Text → List (Option Text) → List (Option Text)
  remove_entry t [] = []
  remove_entry t (none ∷ es) = none ∷ remove_entry t es
  remove_entry t (some s ∷ es) =
      let rest = remove_entry t es in if text_eq s t then es else some s ∷ rest

  unfoldable pub has_entry : Text → List (Option Text) → Bool
  has_entry t [] = false
  has_entry t (none ∷ es) = has_entry t es
  has_entry t (some s ∷ es) = if text_eq s t then true else has_entry t es

  -- The sort key of an entry: its address, or 0.
  abbrev pub entry_key : Option Text → ℕ
  entry_key none = 0
  entry_key (some t) = elim (ip.parse t) [ none ↦ 0 | some a ↦ a ]

  -- `sorted(used, key=...)`, a stable sort by insertion
  unfoldable pub insert_entry : Option Text → List (Option Text) → List (Option Text)
  insert_entry e [] = e ∷ []
  insert_entry e (d ∷ es) =
      if ltb (entry_key d) (entry_key e) then d ∷ insert_entry e es else e ∷ d ∷ es

  unfoldable pub sort_entries : List (Option Text) → List (Option Text)
  sort_entries [] = []
  sort_entries (e ∷ es) = insert_entry e (sort_entries es)

  -- `_release_ip_from_owner` on the network record, with whether it was removed
  unfoldable pub release_network : Network → Text → Network × Bool
  release_network w t =
      if has_entry t w.used_ips
      then (record w { used_ips = sort_entries (remove_entry t w.used_ips) }, true)
      else (w, false)
