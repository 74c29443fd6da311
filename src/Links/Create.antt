-- ===== src/Links/Create.antt =====
-- The lab.json part of `_create_link_locked` in backend/app/services/link_service.py: conflicts,
-- the implicit bridge of a link between two nodes, and the promotion of an implicit network.
use nova_ve.Prelude.Dict
use nova_ve.Prelude.Decimal.{str}
use nova_ve.Prelude.{
  ℕ, Bool, true, false, ◌&&◌, ◌||◌, Option, none, some, List, [], ◌∷◌, ◌++◌, Text, codes, text_eq,
  ◌==◌, if◌then◌else◌,
}
use nova_ve.Lab.{network, Link, Network, Lab, network_at}
use nova_ve.Links.Keys.{
  EndpointKey, network_key, node_key, normalize_endpoint, endpoint_of, link_pair_key, pair_key_eq,
}
use nova_ve.Links.Ids.{refcount, next_link_id, next_network_id}
use nova_ve.Links.Records.{
  LinkPayload, link_with_state, build_link, build_implicit_network, LabEvent, network_event,
  link_event,
}

-- The exceptions that `create_link` raises on its way.
pub data LinkError : Type 0 where
  invalid_path : LinkError
  invalid_endpoint : LinkError
  lab_missing : LinkError
  link_contention : LinkError
  duplicate_link : LinkPayload → LinkError
  interface_already_attached : LinkPayload → ℕ → ℕ → LinkError
  network_missing : ℕ → LinkError
  attach_failed : LinkError
  detach_failed : LinkError
  release_failed : LinkError

pub data Result {ℓ} (A : Type ℓ) : Type ℓ where
  ok : A → Result A
  err : LinkError → Result A

-- `(node_id, interface_index) in new_iface_keys`, for one of the two new endpoints
unfoldable pub is_node_key : ℕ → ℕ → EndpointKey → Bool
is_node_key n i (node_key m j) = m == n && j == i
is_node_key n i (network_key m) = false

-- The check of one endpoint of an existing link against the new interfaces.
unfoldable pub interface_conflict :
    EndpointKey → EndpointKey → Link → EndpointKey → Option LinkError
interface_conflict a b l (network_key m) = none
interface_conflict a b l (node_key n i) =
    if is_node_key n i a || is_node_key n i b
    then some (interface_already_attached (link_with_state l) n i)
    else none

abbrev pub first_error : Option LinkError → Option LinkError → Option LinkError
first_error none e = e
first_error (some d) e = some d

abbrev pub link_conflict :
    EndpointKey → EndpointKey → Link → Option EndpointKey → Option EndpointKey → Option LinkError
link_conflict a b l (some x) (some y) =
    if pair_key_eq (link_pair_key x y) (link_pair_key a b)
    then some (duplicate_link (link_with_state l))
    else first_error (interface_conflict a b l x) (interface_conflict a b l y)
link_conflict a b l _ _ = none

-- The loop over the existing links.
unfoldable pub find_conflict : EndpointKey → EndpointKey → List Link → Option LinkError
find_conflict a b [] = none
find_conflict a b (l ∷ ls) =
    first_error (link_conflict a b l (normalize_endpoint l.from) (normalize_endpoint l.to))
      (find_conflict a b ls)

-- What the mutation leaves: the lab to write, the link and the network of the answer, the events,
-- the implicit network to provision, and the links to attach.
pub record Created : Type 0 where
  pub lab : Lab
  pub link : Link
  pub network : Option Network
  pub events : List LabEvent
  pub implicit_bridge : Option ℕ
  pub concrete_links : List Link

-- The branch where both endpoints are nodes: a new implicit network, and a link for each half.
unfoldable pub create_implicit : Lab → EndpointKey → EndpointKey → Option Text → Created
create_implicit lab a b style =
    let net_id = next_network_id lab in
    let implicit_net = build_implicit_network net_id in
    let first_link = build_link (next_link_id lab.links) (endpoint_of a) (network net_id) style in
    let links = lab.links ++ (first_link ∷ []) in
    let second_link = build_link (next_link_id links) (endpoint_of b) (network net_id) style in
    record {
      lab = record lab {
        networks = Dict.put ◌==◌ net_id implicit_net lab.networks;
        links = links ++ (second_link ∷ []);
      };
      link = first_link;
      network = some implicit_net;
      events =
          network_event (codes "network_created") implicit_net
          ∷ (link_event (codes "link_created") (link_with_state first_link)
              ∷ (link_event (codes "link_created") (link_with_state second_link) ∷ []));
      implicit_bridge = some net_id;
      concrete_links = first_link ∷ (second_link ∷ []);
    }

-- An implicit network that a third link reaches becomes an ordinary one.
unfoldable pub promoted : ℕ → Network → Network
promoted n w = record w {
  implicit = false;
  visibility = true;
  name = if text_eq w.name [] then codes "bridge-" ++ str n else w.name;
}

abbrev pub promotion_of : Lab → ℕ → Option Network → Option Network
promotion_of lab n none = none
promotion_of lab n (some w) =
    if w.implicit && (refcount lab n == 3) then some (promoted n w) else none

-- The promotion check on the lab with the new link, for the target network.
unfoldable pub promotion : Lab → ℕ → Option Network
promotion lab n = promotion_of lab n (network_at n lab)

unfoldable pub store_promotion : ℕ → Option Network → Lab → Lab
store_promotion n none lab = lab
store_promotion n (some w) lab = record lab { networks = Dict.put ◌==◌ n w lab.networks }

unfoldable pub promotion_events : Option Network → List LabEvent
promotion_events none = []
promotion_events (some w) = network_event (codes "network_promoted") w ∷ []

-- The branch where a network takes part, the first of the two being the target.
unfoldable pub create_attached : Lab → EndpointKey → EndpointKey → ℕ → Option Text → Created
create_attached lab a b target style =
    let new_link = build_link (next_link_id lab.links) (endpoint_of a) (endpoint_of b) style in
    let lab' : Lab = record lab { links = lab.links ++ (new_link ∷ []) } in
    let w = promotion lab' target in
    record {
      lab = store_promotion target w lab';
      link = new_link;
      network = w;
      events =
          promotion_events w ++ (link_event (codes "link_created") (link_with_state new_link) ∷ []);
      implicit_bridge = none;
      concrete_links = new_link ∷ [];
    }

abbrev pub create_if_there :
    Lab → EndpointKey → EndpointKey → ℕ → Option Text → Option Network → Result Created
create_if_there lab a b target style none = err (network_missing target)
create_if_there lab a b target style (some w) = ok (create_attached lab a b target style)

unfoldable pub create_in_networks :
    Lab → EndpointKey → EndpointKey → ℕ → Option Text → Result Created
create_in_networks lab a b target style =
    create_if_there lab a b target style (network_at target lab)

unfoldable pub create_branch : Lab → EndpointKey → EndpointKey → Option Text → Result Created
create_branch lab (node_key n i) (node_key m j) style =
    ok (create_implicit lab (node_key n i) (node_key m j) style)
create_branch lab (network_key t) b style = create_in_networks lab (network_key t) b t style
create_branch lab (node_key n i) (network_key t) style =
    create_in_networks lab (node_key n i) (network_key t) t style

abbrev pub create_unless :
    Lab → EndpointKey → EndpointKey → Option Text → Option LinkError → Result Created
create_unless lab a b style (some e) = err e
create_unless lab a b style none = create_branch lab a b style

-- From the lab as it is read to the lab as it is written, before the hot-attach.
unfoldable pub plan_create : Lab → EndpointKey → EndpointKey → Option Text → Result Created
plan_create lab a b style = create_unless lab a b style (find_conflict a b lab.links)
