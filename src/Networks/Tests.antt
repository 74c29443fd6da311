-- ===== src/Networks/Tests.antt =====
-- A pool of two subnets, the first of which is in use.
use nova_ve.Prelude.{
  ℕ, ◌+◌, ◌≤◌, ◌<◌, ◌≡◌, ◌^◌, ◌-◌, ◌%◌, refl, true, false, none, some, Option, List, [], ◌∷◌, ◌++◌,
  Text, codes, text_eq, strip, lstrip, rstrip, arith, if◌then◌else◌, Bool, any_of,
}
use nova_ve.Networks.{
  Ipv4Network, size, overlaps, IpNetwork, v4, IpNetworks, ok, Field, absent, text,
  first_free_subnet, validate_cidr, settings_nat_cloud_pool, allocate_nat_cloud_cidr,
  existing_network_cidrs, normalize_nat_cloud_config, configure, is_inside,
}
use nova_ve.Networks.Allocation.{subnet_at, IsFirstFree, allocate_nat_cloud_cidr-IsFirstFree}
use nova_ve.Networks.Config.{IsServable, normalize_nat_cloud_config-IsServable}
use nova_ve.Networks.Defaults.{no_fields, default_config, normalize_nat_cloud_config-default_config}

-- 10.255.0.0
abbrev base : ℕ
base = 184483840

abbrev pool : Ipv4Network
pool = record { first = base; prefixlen = 23 }

abbrev pick : Bool → Option IpNetwork
pick b = if b then some (v4 pool) else some (v4 (subnet_at base 0))

abbrev parse : Text → Option IpNetwork
parse t = pick (text_eq t (codes "10.255.0.0/23"))

pick_bounds :
    (b : Bool) (n : Ipv4Network)
    → pick b ≡ some (v4 n)
    → (n.prefixlen ≤ 32) × (n.first + size n ≤ 2 ^ 32) × (n.first % size n ≡ 0)
pick_bounds true n e = let same : pool ≡ n = cc in rw (← same) (omega arith, omega arith, refl)
pick_bounds false n e =
    let same : subnet_at base 0 ≡ n = cc in rw (← same) (omega arith, omega arith, refl)

abbrev ip : IpNetworks
ip = record {
  parse_network = parse;
  parse_address = λ t. none;
  network_bounds = λ t n e. pick_bounds (text_eq t (codes "10.255.0.0/23")) n e;
}

abbrev raw_pool : Text
raw_pool = codes "10.255.0.0/23"

abbrev in_use : List Field
in_use = text (codes "10.255.0.0/24") ∷ absent ∷ []

allocates :
    allocate_nat_cloud_cidr ip raw_pool (existing_network_cidrs ip in_use ++ [])
    ≡ ok (subnet_at base 1)
unfolding allocate_nat_cloud_cidr settings_nat_cloud_pool existing_network_cidrs validate_cidr strip
    lstrip rstrip text_eq first_free_subnet overlaps
allocates = refl

allocate_nat_cloud_cidr-IsFirstFree_example :
    (p : Ipv4Network) × (k : ℕ) × (settings_nat_cloud_pool ip raw_pool ≡ ok p)
    × (k < 2 ^ (24 - p.prefixlen))
    × (subnet_at p.first k ≡ subnet_at base 1)
    × IsFirstFree (existing_network_cidrs ip in_use ++ []) p.first k
allocate_nat_cloud_cidr-IsFirstFree_example =
    allocate_nat_cloud_cidr-IsFirstFree ip raw_pool (existing_network_cidrs ip in_use ++ [])
      (subnet_at base 1) allocates

pool_found : settings_nat_cloud_pool ip raw_pool ≡ ok pool
unfolding settings_nat_cloud_pool strip lstrip rstrip text_eq
pool_found = refl

second_free : any_of (overlaps (subnet_at base 1)) (existing_network_cidrs ip in_use ++ []) ≡ false
unfolding existing_network_cidrs validate_cidr strip lstrip rstrip text_eq overlaps
second_free = refl

normalize_nat_cloud_config-default_config_example :
    (j : ℕ) × IsFirstFree (existing_network_cidrs ip in_use ++ []) base j
    × (normalize_nat_cloud_config ip raw_pool (no_fields true) in_use []
        ≡ ok (default_config true (subnet_at base j)))
normalize_nat_cloud_config-default_config_example =
    normalize_nat_cloud_config-default_config ip raw_pool true in_use [] pool 1 pool_found
      (omega arith) second_free

normalizes :
    normalize_nat_cloud_config ip raw_pool (no_fields true) in_use []
    ≡ ok (default_config true (subnet_at base 1))
unfolding normalize_nat_cloud_config configure is_inside allocate_nat_cloud_cidr
    settings_nat_cloud_pool existing_network_cidrs validate_cidr strip lstrip rstrip text_eq
    first_free_subnet overlaps
normalizes = refl

normalize_nat_cloud_config-IsServable_example :
    IsServable (existing_network_cidrs ip in_use ++ []) (default_config true (subnet_at base 1))
normalize_nat_cloud_config-IsServable_example =
    normalize_nat_cloud_config-IsServable ip raw_pool (no_fields true) in_use []
      (default_config true (subnet_at base 1)) normalizes
