-- ===== src/Networks/Defaults.antt =====
-- The configuration of a NAT cloud that is asked for with no field.
use nova_ve.Prelude.{
  ℕ, ◌+◌, ◌-◌, ◌*◌, ◌^◌, ◌<◌, ◌≡◌, refl, sym, ap, subst, ◌∙◌, Bool, true, false, ◌&&◌, ◌||◌, List,
  ◌++◌, Text, ltb, leb, ◌==◌, any_of, arith,
}
use nova_ve.Networks.{
  Ipv4Network, overlaps, is_inside, last, ok, ◌>>=◌, IpNetworks, Field, absent, RawConfig,
  NatCloudConfig, configure, normalize_nat_cloud_config, existing_network_cidrs,
  settings_nat_cloud_pool,
}
use nova_ve.Networks.Allocation.{
  subnet_at, IsFirstFree, allocate_nat_cloud_cidr-IsFirstFree, allocate_nat_cloud_cidr-ok,
}

-- A request with no field but `dhcp`
abbrev pub no_fields : Bool → RawConfig
no_fields dhcp = record {
  cidr = absent;
  gateway = absent;
  dhcp = dhcp;
  dhcp_start = absent;
  dhcp_end = absent;
}

-- The gateway is the first host, the DHCP range goes from offset 100 to the last host.
abbrev pub default_config : Bool → Ipv4Network → NatCloudConfig
default_config dhcp n = record {
  cidr = n;
  gateway = n.first + 1;
  dhcp = dhcp;
  dhcp_start = n.first + 100;
  dhcp_end = n.first + 254;
}

ok-injective : {p q : Ipv4Network} → ok p ≡ ok q → p ≡ q
ok-injective e = cc

module _ (ip : IpNetworks) where
  configure_subnet :
      (dhcp : Bool) (used : List Ipv4Network) (first k : ℕ)
      → any_of (overlaps (subnet_at first k)) used ≡ false
      → configure ip (no_fields dhcp) used (subnet_at first k)
        ≡ ok (default_config dhcp (subnet_at first k))
  unfolding configure is_inside
  configure_subnet dhcp used first k free =
      let a = first + 256 * k in
      let n = subnet_at first k in
      let host : (leb a (a + 1) && leb (a + 1) (last n)) ≡ true = ground arith in
      let neither : (a + 1 == a || a + 1 == last n) ≡ false = ground arith in
      let start : (leb a (a + 100) && leb (a + 100) (last n)) ≡ true = ground arith in
      let end : (leb a (last n - 1) && leb (last n - 1) (last n)) ≡ true = ground arith in
      let order : ltb (last n - 1) (a + 100) ≡ false = ground arith in
      let above : leb (a + 100) (a + 99) ≡ false = ground arith in
      let ending : last n - 1 ≡ a + 254 = omega arith in
      rw (free, host, neither, start, end, order, above, ending) refl

  -- Where the pool of the settings is valid and one of its subnets of 256 addresses is free, a NAT
  -- cloud that is asked for with no field is configured: it gets the first free subnet, with the
  -- first host as the gateway and the hosts from offset 100 for DHCP.
  pub normalize_nat_cloud_config-default_config :
      (raw_pool : Text) (dhcp : Bool) (networks : List Field) (host_used : List Ipv4Network)
      (pool : Ipv4Network) (k : ℕ)
      → settings_nat_cloud_pool ip raw_pool ≡ ok pool
      → k < 2 ^ (24 - pool.prefixlen)
      → any_of (overlaps (subnet_at pool.first k)) (existing_network_cidrs ip networks ++ host_used)
        ≡ false
      → (j : ℕ) × IsFirstFree (existing_network_cidrs ip networks ++ host_used) pool.first j
        × (normalize_nat_cloud_config ip raw_pool (no_fields dhcp) networks host_used
            ≡ ok (default_config dhcp (subnet_at pool.first j)))
  unfolding normalize_nat_cloud_config
  normalize_nat_cloud_config-default_config raw_pool dhcp networks host_used pool k found lt free =
      let used = existing_network_cidrs ip networks ++ host_used in
      let (n, h) = allocate_nat_cloud_cidr-ok ip raw_pool used pool k found lt free in
      let (pool', j, found', lt', same, (unused, before)) =
        allocate_nat_cloud_cidr-IsFirstFree ip raw_pool used n h in
      let pools : pool' ≡ pool = ok-injective (sym found' ∙ found) in
      let firsts = ap (λ (p : Ipv4Network). p.first) pools in
      (
        j,
        subst (λ a. IsFirstFree used a j) firsts (unused, before),
        ap (λ r. r >>= configure ip (no_fields dhcp) used) h
            ∙ subst (λ m. configure ip (no_fields dhcp) used m ≡ ok (default_config dhcp m)) same
                (configure_subnet dhcp used pool'.first j unused)
            ∙ ap (λ m. ok (default_config dhcp m)) (sym same ∙ ap (λ a. subnet_at a j) firsts),
      )
