-- ===== src/Networks/Config.antt =====
-- What the normalized configuration of a NAT cloud guarantees.
use nova_ve.Prelude.{
  ℕ, ◌+◌, ◌-◌, ◌≤◌, ◌<◌, ◌≡◌, subst, false, ◌||◌, not, List, ◌++◌, Text, ltb, leb, ◌==◌, any_of,
  arith,
}
use nova_ve.Networks.{
  Ipv4Network, overlaps, is_inside, last, ok, raise_if, IpNetworks, Field, RawConfig,
  NatCloudConfig, cidr_or_allocate, address_or, configure, normalize_nat_cloud_config,
  existing_network_cidrs, dhcp_first_offset,
}
use nova_ve.Networks.Allocation.{continue_with-ok, raise_if-ok}

-- A configuration that the bridge and dnsmasq can serve next to the networks in use: a CIDR of /24
-- or larger that overlaps none of them, a gateway that is a host of it, and a DHCP range in it
-- above the reserved static addresses.
pub record IsServable (used : List Ipv4Network) (c : NatCloudConfig) : Type 0 where
  pub large : c.cidr.prefixlen ≤ 24
  pub disjoint : any_of (overlaps c.cidr) used ≡ false
  pub gateway_low : c.cidr.first < c.gateway
  pub gateway_high : c.gateway < last c.cidr
  pub dhcp_low : c.cidr.first + dhcp_first_offset ≤ c.dhcp_start
  pub dhcp_range : c.dhcp_start ≤ c.dhcp_end
  pub dhcp_high : c.dhcp_end ≤ last c.cidr

served :
    (raw : RawConfig) (used : List Ipv4Network) (n : Ipv4Network) (c : NatCloudConfig) (g s e : ℕ)
    → ltb 24 n.prefixlen ≡ false
    → any_of (overlaps n) used ≡ false
    → not (is_inside g n) ≡ false
    → (g == n.first || g == last n) ≡ false
    → (not (is_inside s n) || not (is_inside e n)) ≡ false
    → ltb e s ≡ false
    → leb s (n.first + 99) ≡ false
    → ok (
        let d : NatCloudConfig = record {
          cidr = n;
          gateway = g;
          dhcp = raw.dhcp;
          dhcp_start = s;
          dhcp_end = e;
        } in
        d)
      ≡ ok c
    → IsServable used c
unfolding is_inside
served raw used n c g s e a b d f i j k h =
    let config : NatCloudConfig = record {
      cidr = n;
      gateway = g;
      dhcp = raw.dhcp;
      dhcp_start = s;
      dhcp_end = e;
    } in
    let same : config ≡ c = cc in
    let fine : IsServable used config = record {
      large = ground arith;
      disjoint = b;
      gateway_low = ground arith;
      gateway_high = ground arith;
      dhcp_low = ground arith;
      dhcp_range = ground arith;
      dhcp_high = ground arith;
    } in
    subst (IsServable used) same fine

module _ (ip : IpNetworks) where
  configure-IsServable :
      (raw : RawConfig) (used : List Ipv4Network) (n : Ipv4Network) (c : NatCloudConfig)
      → configure ip raw used n ≡ ok c
      → IsServable used c
  unfolding configure
  configure-IsServable raw used n c h =
      let (u1, e1, h1) = continue_with-ok _ (raise_if (ltb 24 n.prefixlen) 422) c h in
      let (u2, e2, h2) = continue_with-ok _ (raise_if (any_of (overlaps n) used) 409) c h1 in
      let (g, eg, h3) = continue_with-ok _ (address_or ip (n.first + 1) raw.gateway) c h2 in
      let (u4, e4, h4) = continue_with-ok _ (raise_if (not (is_inside g n)) 422) c h3 in
      let (u5, e5, h5) = continue_with-ok _ (raise_if (g == n.first || g == last n) 422) c h4 in
      let (s, es, h6) =
        continue_with-ok _ (address_or ip (n.first + dhcp_first_offset) raw.dhcp_start) c h5 in
      let (e, ee, h7) = continue_with-ok _ (address_or ip (last n - 1) raw.dhcp_end) c h6 in
      let (u8, e8, h8) =
        continue_with-ok _ (raise_if (not (is_inside s n) || not (is_inside e n)) 422) c h7 in
      let (u9, e9, h9) = continue_with-ok _ (raise_if (ltb e s) 422) c h8 in
      let (u0, e0, done) = continue_with-ok _ (raise_if (leb s (n.first + 99)) 422) c h9 in
      served raw used n c g s e (raise_if-ok _ _ u1 e1) (raise_if-ok _ _ u2 e2)
        (raise_if-ok _ _ u4 e4) (raise_if-ok _ _ u5 e5) (raise_if-ok _ _ u8 e8)
        (raise_if-ok _ _ u9 e9) (raise_if-ok _ _ u0 e0) done

  -- Where a configuration is returned, it is servable next to the networks of the lab that have a
  -- valid CIDR and those of the other NAT clouds, whatever fields the request had.
  pub normalize_nat_cloud_config-IsServable :
      (raw_pool : Text) (raw : RawConfig) (networks : List Field) (host_used : List Ipv4Network)
      (c : NatCloudConfig)
      → normalize_nat_cloud_config ip raw_pool raw networks host_used ≡ ok c
      → IsServable (existing_network_cidrs ip networks ++ host_used) c
  unfolding normalize_nat_cloud_config
  normalize_nat_cloud_config-IsServable raw_pool raw networks host_used c h =
      let used = existing_network_cidrs ip networks ++ host_used in
      let (n, found, rest) = continue_with-ok _ (cidr_or_allocate ip raw_pool used raw.cidr) c h in
      configure-IsServable raw used n c rest
