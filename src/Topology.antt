-- ===== src/Topology.antt =====
-- The legacy topology of a lab in backend/app/services/lab_service.py: the view of the links that a
-- read adds, and the links that a write makes of such a view.
pub mod Relinked
mod Tests
use nova_ve.Prelude.Dict
use nova_ve.Prelude.Decimal.{str, pad3, all_digits, value_from}
use nova_ve.Prelude.{
  ℕ, zero, suc, ◌+◌, Bool, true, false, Option, none, some, List, [], ◌∷◌, ◌++◌, Text, codes,
  text_eq, ◌==◌, if◌then◌else◌, strip_prefix,
}
use nova_ve.Lab.{Endpoint, node, network, malformed, Link, Metrics, Node}

-- An entry of `topology`. A missing text is empty, a missing number 0; a `destination_interfaceId`
-- that is no number is `none`.
pub record TopologyEntry : Type 0 where
  pub id : Text
  pub source : Text
  pub source_node_name : Text
  pub source_interface_id : ℕ
  pub destination : Text
  pub destination_node_name : Text
  pub destination_type : Text
  pub destination_interface_id : Option ℕ
  pub network_id : ℕ
  pub label : Text
  pub color : Text
  pub width : Text
  pub source_metrics : Metrics

abbrev pub no_metrics : Metrics
no_metrics = record { delay_ms = 0; loss_pct = 0; bandwidth_kbps = 0; jitter_ms = 0 }

abbrev pub node_text : ℕ → Text
node_text n = codes "node" ++ str n

abbrev pub network_text : ℕ → Text
network_text n = codes "network" ++ str n

-- `int(endpoint.get("interface_index", 0))`, and a width with its default
abbrev pub or_zero : Option ℕ → ℕ
or_zero none = 0
or_zero (some i) = i

abbrev pub or_one : Text → Text
or_one w = if text_eq w [] then codes "1" else w

abbrev name_of : Option Node → Text
name_of none = []
name_of (some n) = n.name

abbrev node_name : List (ℕ × Node) → ℕ → Text
node_name nodes n = name_of (Dict.get ◌==◌ n nodes)

abbrev pub node_entry : List (ℕ × Node) → Link → ℕ → Option ℕ → ℕ → Option ℕ → TopologyEntry
node_entry nodes l a i b j = record {
  id = [];
  source = node_text a;
  source_node_name = node_name nodes a;
  source_interface_id = or_zero i;
  destination = node_text b;
  destination_node_name = node_name nodes b;
  destination_type = codes "node";
  destination_interface_id = some (or_zero j);
  network_id = 0;
  label = l.label;
  color = l.color;
  width = or_one l.width;
  source_metrics = no_metrics;
}

abbrev pub network_entry : List (ℕ × Node) → Link → ℕ → Option ℕ → ℕ → TopologyEntry
network_entry nodes l a i w = record {
  id = [];
  source = node_text a;
  source_node_name = node_name nodes a;
  source_interface_id = or_zero i;
  destination = network_text w;
  destination_node_name = [];
  destination_type = codes "network";
  destination_interface_id = none;
  network_id = w;
  label = l.label;
  color = l.color;
  width = or_one l.width;
  source_metrics = no_metrics;
}

-- One round of the loop of `_derive_legacy_topology`: the entry of a link, if it has one.
abbrev pub entry_of : List (ℕ × Node) → Link → Endpoint → Endpoint → Option TopologyEntry
entry_of nodes l (node a i) (node b j) = some (node_entry nodes l a i b j)
entry_of nodes l (node a i) (network w) = some (network_entry nodes l a i w)
entry_of nodes l (network w) (node a i) = some (network_entry nodes l a i w)
entry_of nodes l _ _ = none

abbrev pub add_some {ℓ} : {A : Type ℓ} → Option A → List A → List A
add_some none xs = xs
add_some (some x) xs = x ∷ xs

unfoldable pub derive_legacy_topology : List (ℕ × Node) → List Link → List TopologyEntry
derive_legacy_topology nodes [] = []
derive_legacy_topology nodes (l ∷ ls) =
    add_some (entry_of nodes l l.from l.to) (derive_legacy_topology nodes ls)

abbrev digits_of : Text → Option ℕ
digits_of [] = none
digits_of (c ∷ s) = if all_digits (c ∷ s) then some (value_from 0 (c ∷ s)) else none

abbrev tail_id : Option Text → Option ℕ
tail_id none = none
tail_id (some tail) = digits_of tail

-- `_node_id`
unfoldable pub node_id_of : Text → Option ℕ
node_id_of value = tail_id (strip_prefix (codes "node") value)

-- `entry.get("id") or f"lnk_{index + 1:03d}"`
abbrev pub id_or_number : Text → ℕ → Text
id_or_number id index = if text_eq id [] then codes "lnk_" ++ pad3 (str (index + 1)) else id

abbrev pub link_of : ℕ → TopologyEntry → Endpoint → Endpoint → Link
link_of index e a b = record {
  id = id_or_number e.id index;
  from = a;
  to = b;
  style_override = none;
  endpoint_positions = [];
  label = e.label;
  color = e.color;
  width = or_one e.width;
  metrics = e.source_metrics;
  runtime = none;
}

-- The three cases of the loop of `_legacy_topology_to_links`, by the node ids of both ends
abbrev pub endpoints_of : Option ℕ → Option ℕ → ℕ → ℕ → Option ℕ → Option (Endpoint × Endpoint)
endpoints_of (some a) (some b) zero i j = some (node a (some i), node b (some (or_zero j)))
endpoints_of (some a) d (suc w) i j = some (node a (some i), network (suc w))
endpoints_of none (some b) (suc w) i j = some (node b (some (or_zero j)), network (suc w))
endpoints_of _ _ _ i j = none

abbrev pub link_if : ℕ → TopologyEntry → Option (Endpoint × Endpoint) → Option Link
link_if index e none = none
link_if index e (some (a, b)) = some (link_of index e a b)

abbrev pub link_of_entry : ℕ → TopologyEntry → Option Link
link_of_entry index e = link_if index e (
    endpoints_of (node_id_of e.source) (node_id_of e.destination) e.network_id e.source_interface_id
      e.destination_interface_id)

-- The loop over `enumerate(topology)`, from an index on.
unfoldable pub topology_to_links : ℕ → List TopologyEntry → List Link
topology_to_links index [] = []
topology_to_links index (e ∷ es) =
    add_some (link_of_entry index e) (topology_to_links (index + 1) es)

unfoldable pub legacy_topology_to_links : List TopologyEntry → List Link
legacy_topology_to_links es = topology_to_links 0 es

abbrev made_links : Option (List TopologyEntry) → List Link
made_links none = []
made_links (some es) = legacy_topology_to_links es

-- The links that `write_lab_json_static` writes: those of the lab, or where it has none, those of a
-- topology that it has.
unfoldable pub written_links : Option (List TopologyEntry) → List Link → List Link
written_links topology [] = made_links topology
written_links topology (l ∷ ls) = l ∷ ls
