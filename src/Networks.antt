-- ===== src/Networks.antt =====
-- backend/app/services/network_service.py: the CIDR of a NAT cloud and its configuration. Python's
-- `ipaddress` is the parameter `IpNetworks`; addresses stand as numbers, which `str` prints.
pub mod Allocation
pub mod Config
pub mod Defaults
mod Tests
use nova_ve.Prelude.{
  ℕ, zero, suc, ◌+◌, ◌-◌, ◌*◌, ◌^◌, ◌≤◌, ◌%◌, ◌≡◌, Bool, true, false, ◌&&◌, ◌||◌, not, Option, none,
  some, List, [], ◌∷◌, ◌++◌, Text, text_eq, strip, ltb, leb, ◌==◌, if◌then◌else◌, any_of,
}

pub record Ipv4Network : Type 0 where
  pub first : ℕ
  pub prefixlen : ℕ

abbrev pub size : Ipv4Network → ℕ
size n = 2 ^ (32 - n.prefixlen)

-- `broadcast_address`
abbrev pub last : Ipv4Network → ℕ
last n = n.first + size n - 1

-- `a.overlaps(b)`
unfoldable pub overlaps : Ipv4Network → Ipv4Network → Bool
overlaps a b = leb a.first (last b) && leb b.first (last a)

-- `address in network`
unfoldable pub is_inside : ℕ → Ipv4Network → Bool
is_inside a n = leb n.first a && leb a (last n)

pub data IpNetwork : Type 0 where
  v4 : Ipv4Network → IpNetwork
  v6 : IpNetwork

-- What the code relies on in `ipaddress`: strict networks and addresses of 32 bits.
pub record IpNetworks : Type 0 where
  pub parse_network : Text → Option IpNetwork
  pub parse_address : Text → Option ℕ
  pub network_bounds :
      (t : Text) (n : Ipv4Network)
      → parse_network t ≡ some (v4 n)
      → (n.prefixlen ≤ 32) × (n.first + size n ≤ 2 ^ 32) × (n.first % size n ≡ 0)

-- The result of a call, or the code of the `NetworkServiceError` that it raises.
pub data Result {ℓ} (A : Type ℓ) : Type ℓ where
  ok : A → Result A
  error : ℕ → Result A

-- `do` blocks: an error ends the call.
module _ {ℓ κ} {A : Type ℓ} {B : Type κ} where
  abbrev pub continue_with : (A → Result B) → Result A → Result B
  continue_with next (error code) = error code
  continue_with next (ok value) = next value

infixl 5 ◌>>=◌
abbrev pub ◌>>=◌ {ℓ κ} : {A : Type ℓ} {B : Type κ} → Result A → (A → Result B) → Result B
call >>= next = continue_with next call

infixl 5 ◌>>◌
abbrev pub ◌>>◌ {ℓ} : {B : Type ℓ} → Result (Unit {0}) → Result B → Result B
check >> rest = continue_with (λ passed. rest) check

abbrev pub raise_if : Bool → ℕ → Result (Unit {0})
raise_if wrong code = if wrong then error code else ok tt

-- A value of the configuration: missing or falsy, a text that is not empty, or another truthy value.
pub data Field : Type 0 where
  absent other : Field
  text : Text → Field

-- The fields of `raw_config` that are read; `dhcp` is `bool(raw_config.get("dhcp", True))`.
pub record RawConfig : Type 0 where
  pub cidr : Field
  pub gateway : Field
  pub dhcp : Bool
  pub dhcp_start : Field
  pub dhcp_end : Field

pub record NatCloudConfig : Type 0 where
  pub cidr : Ipv4Network
  pub gateway : ℕ
  pub dhcp : Bool
  pub dhcp_start : ℕ
  pub dhcp_end : ℕ

abbrev pub dhcp_first_offset : ℕ
dhcp_first_offset = 100

abbrev pub static_last_offset : ℕ
static_last_offset = 99

abbrev v4_or_raise : ℕ → Option IpNetwork → Result Ipv4Network
v4_or_raise code none = error code
v4_or_raise code (some v6) = error code
v4_or_raise code (some (v4 n)) = ok n

abbrev address_or_raise : Option ℕ → Result ℕ
address_or_raise none = error 422
address_or_raise (some a) = ok a

-- The loop over `pool.subnets(new_prefix=24)`, with the number of subnets left and the first one
unfoldable pub first_free_subnet : List Ipv4Network → ℕ → ℕ → Result Ipv4Network
first_free_subnet used zero first = error 409
first_free_subnet used (suc count) first =
    let rest = first_free_subnet used count (first + 256) in
    let candidate : Ipv4Network = record { first = first; prefixlen = 24 } in
    if any_of (overlaps candidate) used then rest else ok candidate

module _ (ip : IpNetworks) where
  -- `_validate_cidr`
  unfoldable pub validate_cidr : Field → Result Ipv4Network
  validate_cidr absent = error 422
  validate_cidr other = error 422
  validate_cidr (text t) =
      if text_eq (strip t) [] then error 422 else v4_or_raise 422 (ip.parse_network (strip t))

  -- `_validate_ipv4`
  unfoldable pub validate_ipv4 : Field → Result ℕ
  validate_ipv4 absent = error 422
  validate_ipv4 other = error 422
  validate_ipv4 (text t) =
      if text_eq (strip t) [] then error 422 else address_or_raise (ip.parse_address (strip t))

  -- `_settings_nat_cloud_pool`
  unfoldable pub settings_nat_cloud_pool : Text → Result Ipv4Network
  settings_nat_cloud_pool raw = do
    pool ← v4_or_raise 500 (ip.parse_network (strip raw))
    raise_if (ltb 24 pool.prefixlen) 500
    ok pool

  abbrev add_valid : Result Ipv4Network → List Ipv4Network → List Ipv4Network
  add_valid (ok n) ns = n ∷ ns
  add_valid (error code) ns = ns

  -- `_existing_network_cidrs`, from the `cidr` of each network's configuration
  unfoldable pub existing_network_cidrs : List Field → List Ipv4Network
  existing_network_cidrs [] = []
  existing_network_cidrs (f ∷ fs) = add_valid (validate_cidr f) (existing_network_cidrs fs)

  unfoldable pub allocate_nat_cloud_cidr : Text → List Ipv4Network → Result Ipv4Network
  allocate_nat_cloud_cidr raw_pool used = do
    pool ← settings_nat_cloud_pool raw_pool
    first_free_subnet used (2 ^ (24 - pool.prefixlen)) pool.first

  abbrev cidr_or_allocate : Text → List Ipv4Network → Field → Result Ipv4Network
  cidr_or_allocate raw_pool used absent = allocate_nat_cloud_cidr raw_pool used
  cidr_or_allocate raw_pool used f = validate_cidr f

  abbrev address_or : ℕ → Field → Result ℕ
  address_or default absent = ok default
  address_or default f = validate_ipv4 f

  -- The rest of `_normalize_nat_cloud_config`, once there is a CIDR
  unfoldable pub configure : RawConfig → List Ipv4Network → Ipv4Network → Result NatCloudConfig
  configure raw used cidr = do
    raise_if (ltb 24 cidr.prefixlen) 422
    raise_if (any_of (overlaps cidr) used) 409
    gateway ← address_or (cidr.first + 1) raw.gateway
    raise_if (not (is_inside gateway cidr)) 422
    raise_if (gateway == cidr.first || gateway == last cidr) 422
    dhcp_start ← address_or (cidr.first + dhcp_first_offset) raw.dhcp_start
    dhcp_end ← address_or (last cidr - 1) raw.dhcp_end
    raise_if (not (is_inside dhcp_start cidr) || not (is_inside dhcp_end cidr)) 422
    raise_if (ltb dhcp_end dhcp_start) 422
    raise_if (leb dhcp_start (cidr.first + static_last_offset)) 422
    ok (record {
      cidr = cidr;
      gateway = gateway;
      dhcp = raw.dhcp;
      dhcp_start = dhcp_start;
      dhcp_end = dhcp_end;
    })

  -- `_normalize_nat_cloud_config`, with the setting of the pool
  unfoldable pub normalize_nat_cloud_config :
      Text → RawConfig → List Field → List Ipv4Network → Result NatCloudConfig
  normalize_nat_cloud_config raw_pool raw networks host_used = do
    let used = existing_network_cidrs networks ++ host_used
    cidr ← cidr_or_allocate raw_pool used raw.cidr
    configure raw used cidr
