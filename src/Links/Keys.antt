-- ===== src/Links/Keys.antt =====
-- backend/app/services/link_utils.py, and `_normalize_endpoint` of link_service.py: endpoints and
-- the canonical key of a pair of them.
use nova_ve.Prelude.{
  ℕ, ◌≡◌, refl, ◌↔◌, ◌⊎◌, inl, inr, Bool, true, false, ◌&&◌, ◌||◌, Option, none, some, arith, ltb,
  ◌==◌, if◌then◌else◌,
}
use nova_ve.Lab.{Endpoint, node, network, malformed}

-- `_endpoint_key`: the tuple of an endpoint, "network" before "node".
pub data EndpointKey : Type 0 where
  network_key : ℕ → EndpointKey
  node_key : ℕ → ℕ → EndpointKey

-- `int(ep.get("interface_index", 0))`
abbrev pub index_or_zero : Option ℕ → ℕ
index_or_zero none = 0
index_or_zero (some i) = i

-- `_normalize_endpoint`, with `none` for its `ValueError`; the result is a key and an endpoint at once.
unfoldable pub normalize_endpoint : Endpoint → Option EndpointKey
normalize_endpoint (network n) = some (network_key n)
normalize_endpoint (node n i) = some (node_key n (index_or_zero i))
normalize_endpoint malformed = none

-- The normalized endpoint as it is stored.
unfoldable pub endpoint_of : EndpointKey → Endpoint
endpoint_of (network_key n) = network n
endpoint_of (node_key n i) = node n (some i)

-- The order of Python's tuples on the keys.
unfoldable pub key_lt : EndpointKey → EndpointKey → Bool
key_lt (network_key a) (network_key b) = ltb a b
key_lt (network_key a) (node_key b j) = true
key_lt (node_key a i) (network_key b) = false
key_lt (node_key a i) (node_key b j) = ltb a b || (a == b && ltb i j)

unfoldable pub endpoint_key_eq : EndpointKey → EndpointKey → Bool
endpoint_key_eq (network_key a) (network_key b) = a == b
endpoint_key_eq (node_key a i) (node_key b j) = a == b && i == j
endpoint_key_eq _ _ = false

-- `_link_pair_key`: `(min(ka, kb), max(ka, kb))`
unfoldable pub link_pair_key : EndpointKey → EndpointKey → EndpointKey × EndpointKey
link_pair_key a b = (if key_lt b a then b else a, if key_lt a b then b else a)

unfoldable pub pair_key_eq : EndpointKey × EndpointKey → EndpointKey × EndpointKey → Bool
pair_key_eq (a, b) (c, d) = endpoint_key_eq a c && endpoint_key_eq b d

pub endpoint_key_eq_iff : (a b : EndpointKey) → (endpoint_key_eq a b ≡ true) ↔ (a ≡ b)
unfolding endpoint_key_eq
endpoint_key_eq_iff (network_key a) (network_key b) = ground arith
endpoint_key_eq_iff (network_key a) (node_key b j) = ground arith
endpoint_key_eq_iff (node_key a i) (network_key b) = ground arith
endpoint_key_eq_iff (node_key a i) (node_key b j) = ground arith

key_lt_asym : (a b : EndpointKey) → key_lt a b ≡ true → key_lt b a ≡ false
unfolding key_lt
key_lt_asym (network_key a) (network_key b) h = ground arith
key_lt_asym (network_key a) (node_key b j) h = refl
key_lt_asym (node_key a i) (network_key b) h = ground arith
key_lt_asym (node_key a i) (node_key b j) h = ground arith

key_lt_total : (a b : EndpointKey) → key_lt a b ≡ false → key_lt b a ≡ false → a ≡ b
unfolding key_lt
key_lt_total (network_key a) (network_key b) h k = ground arith
key_lt_total (network_key a) (node_key b j) h k = ground arith
key_lt_total (node_key a i) (network_key b) h k = ground arith
key_lt_total (node_key a i) (node_key b j) h k = ground arith

pair_key_eq_refl : (p : EndpointKey × EndpointKey) → pair_key_eq p p ≡ true
unfolding pair_key_eq
pair_key_eq_refl (a, b) =
    rw ((endpoint_key_eq_iff a a).1 refl, (endpoint_key_eq_iff b b).1 refl) refl

both_of : {p q : EndpointKey × EndpointKey} → pair_key_eq p q ≡ true → (p.0 ≡ q.0) × (p.1 ≡ q.1)
unfolding pair_key_eq
both_of {p} {q} h = ground (arith, endpoint_key_eq_iff p.0 q.0, endpoint_key_eq_iff p.1 q.1)

pub pair_key_eq_iff : (p q : EndpointKey × EndpointKey) → (pair_key_eq p q ≡ true) ↔ (p ≡ q)
pair_key_eq_iff p q = (λ h. let (a, b) = both_of h in cc, λ e. rw e (pair_key_eq_refl q))

link_pair_key_comm : (a b : EndpointKey) → link_pair_key a b ≡ link_pair_key b a
unfolding link_pair_key
link_pair_key_comm a b = ground (arith, key_lt_total a b, key_lt_asym a b, key_lt_asym b a)

-- Two pairs of endpoints have the same key exactly when they are the same pair, in one order or
-- the other.
pub link_pair_key-eq_iff :
    (a b c d : EndpointKey)
    → (pair_key_eq (link_pair_key a b) (link_pair_key c d) ≡ true)
      ↔ (((a ≡ c) × (b ≡ d)) ⊎ ((a ≡ d) × (b ≡ c)))
unfolding link_pair_key
link_pair_key-eq_iff a b c d = (
  λ h.
      let (p, q) = both_of h in
      ground (arith, p, q, key_lt_total a b, key_lt_total c d, key_lt_asym a b, key_lt_asym c d),
  elim [
    | inl (p, q) ↦ rw (p, q) (pair_key_eq_refl (link_pair_key c d))
    | inr (p, q) ↦ rw (p, q, link_pair_key_comm d c) (pair_key_eq_refl (link_pair_key c d))
  ],
)
