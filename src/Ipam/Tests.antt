-- ===== src/Ipam/Tests.antt =====
-- Allocations of backend/app/services/network_service.py on a network of eight addresses.
use nova_ve.Prelude.{
  ℕ, ◌≤◌, ◌<◌, ◌≡◌, refl, true, false, Option, none, some, List, [], ◌∷◌, Text, codes, arith,
  text_eq, if◌then◌else◌, ◌+◌, ◌&&◌,
}
use nova_ve.Lab.{Network}
use nova_ve.Ipam.{
  allocate_network, IpAddress, done, raised, subnet_exhausted, allocate_in, record_used, choose,
  used_addresses, insert_address, first_free, last_candidate, offset_of,
}
use nova_ve.Ipam.{has_entry, release_network}
use nova_ve.Ipam.Release.{entry_count, release_network-entry_count}
use nova_ve.Ipam.Lowest.{holds, first_candidate, allocate_in-Lowest}
use nova_ve.Ipam.Exhausted.{FullAt, allocate_ip-raised}
use nova_ve.Ipam.Store.{LabStore, allocate_ip, ipam_target, allocate_at}
use nova_ve.Prelude.Dict.{get}
use nova_ve.Prelude.{strip, lstrip, rstrip}

abbrev parse_one : Text → Option ℕ
parse_one (a ∷ []) = some a
parse_one _ = none

-- Addresses whose text is one character.
abbrev ip : IpAddress
ip = record {
  parse = parse_one;
  show = λ n. n ∷ [];
  subnet = λ t. some (8, 15);
  parse-show = λ n lt. refl;
  subnet_bounds = λ t first last h.
      let p : first ≡ 8 = ground arith in
      let q : last ≡ 15 = ground arith in (omega arith, omega arith);
}

abbrev lan : List (Option Text) → Network
lan used = record {
  id = 1;
  name = [];
  kind = codes "linux_bridge";
  implicit = false;
  visibility = true;
  cidr = some (codes "8/29");
  shared_cloud_id = none;
  bridge_name = none;
  first_offset = none;
  used_ips = used;
}

-- 8 is the network's address, 15 the broadcast address; 10 and 12 are used.
abbrev some_used : Network
some_used = lan (some (12 ∷ []) ∷ (none ∷ (some (10 ∷ []) ∷ [])))

abbrev after : Network
after = record_used ip some_used (10 ∷ (11 ∷ (12 ∷ [])))

takes_11 : allocate_in ip some_used 8 15 ≡ done (11, after)
unfolding allocate_in choose used_addresses insert_address first_free last_candidate offset_of
    text_eq
takes_11 = refl

allocate_in-Lowest_example :
    (first_candidate ip some_used 8 ≤ 11)
    × (11 ≤ last_candidate some_used 8 15)
    × (holds ip 11 some_used.used_ips ≡ false)
    × ((b : ℕ) → first_candidate ip some_used 8 ≤ b → b < 11 → holds ip b some_used.used_ips ≡ true)
allocate_in-Lowest_example = allocate_in-Lowest ip some_used 8 15 11 after takes_11

-- 10 to 14 are the candidates.
abbrev full : Network
full = lan (some (10 ∷ []) ∷ some (11 ∷ []) ∷ some (12 ∷ []) ∷ some (13 ∷ []) ∷ some (14 ∷ []) ∷ [])

abbrev store : LabStore
store =
    (codes "a.json", record { id = none; nodes = []; networks = (1, full) ∷ []; links = [] }) ∷ []

abbrev no_owner : LabStore → Text → Option (Text × ℕ)
no_owner s cloud = none

all_used : (allocate_ip no_owner ip store (codes "a.json") 1).0 ≡ raised subnet_exhausted
unfolding allocate_ip ipam_target allocate_at allocate_network allocate_in choose used_addresses
    insert_address first_free last_candidate offset_of text_eq strip lstrip rstrip get
all_used = refl

allocate_ip-raised_example :
    ((allocate_ip no_owner ip store (codes "a.json") 1).1 ≡ store)
    × (subnet_exhausted ≡ subnet_exhausted
        → (place : Text × ℕ) × (ipam_target no_owner store (codes "a.json") 1 ≡ done place)
          × FullAt ip store place)
allocate_ip-raised_example =
    allocate_ip-raised ip no_owner store (codes "a.json") 1 subnet_exhausted all_used

release_network-entry_count_example :
    ((release_network ip some_used (10 ∷ [])).1 ≡ has_entry ip (10 ∷ []) some_used.used_ips)
    × (entry_count (12 ∷ []) (release_network ip some_used (10 ∷ [])).0.used_ips
          + (if has_entry ip (10 ∷ []) some_used.used_ips && text_eq (10 ∷ []) (12 ∷ [])
              then 1
              else 0)
        ≡ entry_count (12 ∷ []) some_used.used_ips)
release_network-entry_count_example = release_network-entry_count ip some_used (10 ∷ []) (12 ∷ [])

-- 12 stands before 10 in the record.
abbrev both_used : Network
both_used = lan (some (12 ∷ []) ∷ (some (11 ∷ []) ∷ (some (10 ∷ []) ∷ [])))

releases_11 : (release_network ip both_used (11 ∷ [])).1 ≡ true
unfolding release_network has_entry text_eq
releases_11 = refl
