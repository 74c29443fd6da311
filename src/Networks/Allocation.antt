-- ===== src/Networks/Allocation.antt =====
-- Which subnet `_allocate_nat_cloud_cidr` of backend/app/services/network_service.py takes.
use nova_ve.Prelude.{
  ℕ, zero, suc, ◌+◌, ◌-◌, ◌*◌, ◌^◌, ◌<◌, ◌≡◌, refl, sym, ap, ◌∙◌, inl, inr, Bool, true, false, List,
  Text, if◌then◌else◌, any_of, arith, Bool-cases,
}
use nova_ve.Networks.{
  Ipv4Network, overlaps, Result, ok, error, continue_with, raise_if, IpNetworks, first_free_subnet,
  settings_nat_cloud_pool, allocate_nat_cloud_cidr,
}

module _ {ℓ κ} {A : Type ℓ} {B : Type κ} where
  -- A call that is continued to a value has a value of its own.
  pub continue_with-ok :
      (next : A → Result B) (call : Result A) (value : B)
      → continue_with next call ≡ ok value
      → (first : A) × (call ≡ ok first) × (next first ≡ ok value)
  continue_with-ok next (error code) value h = cc
  continue_with-ok next (ok first) value h = (first, refl, h)

pub raise_if-ok : (wrong : Bool) (code : ℕ) (u : Unit) → raise_if wrong code ≡ ok u → wrong ≡ false
raise_if-ok false code u h = refl
raise_if-ok true code u h = cc

-- The subnet of 256 addresses at a place of the pool
abbrev pub subnet_at : ℕ → ℕ → Ipv4Network
subnet_at first k = record { first = first + 256 * k; prefixlen = 24 }

-- The subnet at place `k` is free, and those before it are not.
abbrev pub IsFirstFree : List Ipv4Network → ℕ → ℕ → Type 0
IsFirstFree used first k =
    (any_of (overlaps (subnet_at first k)) used ≡ false)
    × ((j : ℕ) → j < k → any_of (overlaps (subnet_at first j)) used ≡ true)

subnet_at_next : (first k : ℕ) → subnet_at (first + 256) k ≡ subnet_at first (suc k)
subnet_at_next first k =
    ap (λ a. let n : Ipv4Network = record { first = a; prefixlen = 24 } in n) (omega arith)

rest_of :
    (b : Bool) (rest : Result Ipv4Network) (n c : Ipv4Network)
    → b ≡ true
    → (if b then rest else ok n) ≡ ok c
    → rest ≡ ok c
rest_of true rest n c e h = h
rest_of false rest n c e h = absurd (ground arith)

taken_of :
    (b : Bool) (rest : Result Ipv4Network) (n c : Ipv4Network)
    → b ≡ false
    → (if b then rest else ok n) ≡ ok c
    → n ≡ c
taken_of true rest n c e h = absurd (ground arith)
taken_of false rest n c e h = cc

all_before :
    (used : List Ipv4Network) (first k : ℕ)
    → any_of (overlaps (subnet_at first 0)) used ≡ true
    → ((j : ℕ) → j < k → any_of (overlaps (subnet_at (first + 256) j)) used ≡ true)
    → (j : ℕ) → j < suc k
    → any_of (overlaps (subnet_at first j)) used ≡ true
all_before used first k e before zero lt = e
all_before used first k e before (suc j) lt =
    ap (λ n. any_of (overlaps n) used) (sym (subnet_at_next first j)) ∙ before j (omega arith)

first_free_subnet-IsFirstFree :
    (used : List Ipv4Network) (count first : ℕ) (c : Ipv4Network)
    → first_free_subnet used count first ≡ ok c
    → (k : ℕ) × (k < count) × (subnet_at first k ≡ c) × IsFirstFree used first k
unfolding first_free_subnet
first_free_subnet-IsFirstFree used zero first c h = cc
first_free_subnet-IsFirstFree used (suc count) first c h =
    let at_zero : subnet_at first 0 ≡ record { first = first; prefixlen = 24 } =
      ap (λ a. let n : Ipv4Network = record { first = a; prefixlen = 24 } in n) (omega arith) in
    elim (Bool-cases (any_of (overlaps (subnet_at first 0)) used)) [
      | inl e ↦
          let (k, lt, same, (free, before)) =
            first_free_subnet-IsFirstFree used count (first + 256) c
              (rest_of _ _ _ _ (ap (λ n. any_of (overlaps n) used) (sym at_zero) ∙ e) h) in
          (
            suc k,
            omega arith,
            sym (subnet_at_next first k) ∙ same,
            (
              ap (λ n. any_of (overlaps n) used) (sym (subnet_at_next first k)) ∙ free,
              all_before used first k e before,
            ),
          )
      | inr e ↦
          let here = taken_of _ _ _ _ (ap (λ n. any_of (overlaps n) used) (sym at_zero) ∙ e) h in
          (0, omega arith, at_zero ∙ here, (e, λ j lt. absurd (omega arith)))
    ]

at_first :
    (used : List Ipv4Network) (first : ℕ)
    → any_of (overlaps (subnet_at first 0)) used ≡ false
    → any_of (overlaps (let n : Ipv4Network = record { first = first; prefixlen = 24 } in n)) used
      ≡ false
at_first used first free =
    ap
      (λ a.
        any_of (overlaps (let n : Ipv4Network = record { first = a; prefixlen = 24 } in n)) used)
      (let e : first ≡ first + 256 * 0 = omega arith in e)
    ∙ free

-- Where a subnet among those left is free, the loop finds one.
first_free_subnet-ok :
    (used : List Ipv4Network) (count first k : ℕ)
    → k < count
    → any_of (overlaps (subnet_at first k)) used ≡ false
    → (c : Ipv4Network) × (first_free_subnet used count first ≡ ok c)
unfolding first_free_subnet
first_free_subnet-ok used zero first k lt free = absurd (omega arith)
first_free_subnet-ok used (suc count) first zero lt free =
    let here : Ipv4Network = record { first = first; prefixlen = 24 } in
    let e : any_of (overlaps here) used ≡ false = at_first used first free in (here, rw e refl)
first_free_subnet-ok used (suc count) first (suc j) lt free =
    let here : Ipv4Network = record { first = first; prefixlen = 24 } in
    elim (Bool-cases (any_of (overlaps here) used)) [
      | inr e ↦ (here, rw e refl)
      | inl e ↦ rw e (
          first_free_subnet-ok used count (first + 256) j (omega arith)
            (ap (λ n. any_of (overlaps n) used) (subnet_at_next first j) ∙ free))
    ]

-- Where the pool of the settings has a free subnet, one is allocated.
pub allocate_nat_cloud_cidr-ok :
    (ip : IpNetworks) (raw_pool : Text) (used : List Ipv4Network) (pool : Ipv4Network) (k : ℕ)
    → settings_nat_cloud_pool ip raw_pool ≡ ok pool
    → k < 2 ^ (24 - pool.prefixlen)
    → any_of (overlaps (subnet_at pool.first k)) used ≡ false
    → (c : Ipv4Network) × (allocate_nat_cloud_cidr ip raw_pool used ≡ ok c)
unfolding allocate_nat_cloud_cidr
allocate_nat_cloud_cidr-ok ip raw_pool used pool k found lt free =
    let (c, e) = first_free_subnet-ok used (2 ^ (24 - pool.prefixlen)) pool.first k lt free in
    (c, rw found e)

-- An allocated CIDR is the /24 at some place of the pool of the settings, it overlaps none of the
-- networks in use, and every /24 of the pool before it overlaps one.
pub allocate_nat_cloud_cidr-IsFirstFree :
    (ip : IpNetworks) (raw_pool : Text) (used : List Ipv4Network) (c : Ipv4Network)
    → allocate_nat_cloud_cidr ip raw_pool used ≡ ok c
    → (pool : Ipv4Network) × (k : ℕ) × (settings_nat_cloud_pool ip raw_pool ≡ ok pool)
      × (k < 2 ^ (24 - pool.prefixlen))
      × (subnet_at pool.first k ≡ c)
      × IsFirstFree used pool.first k
unfolding allocate_nat_cloud_cidr
allocate_nat_cloud_cidr-IsFirstFree ip raw_pool used c h =
    let (pool, found, rest) = continue_with-ok _ (settings_nat_cloud_pool ip raw_pool) c h in
    let (k, lt, same, free) =
      first_free_subnet-IsFirstFree used (2 ^ (24 - pool.prefixlen)) pool.first c rest in
    (pool, k, found, lt, same, free)
