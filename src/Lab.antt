-- ===== src/Lab.antt =====
-- A lab as `LabService.read_lab_json_static` returns it (backend/app/services/lab_service.py),
-- with the parts of lab.json that the services read or write. The keys of `nodes` and `networks`
-- are the decimal texts of numbers, and stand here as those numbers.
use nova_ve.Prelude.Dict
use nova_ve.Prelude.{ℕ, Bool, Option, List, Text, ◌==◌}

-- A link endpoint: `{"node_id", "interface_index"}` with the index possibly absent,
-- `{"network_id"}`, or anything that is neither.
pub data Endpoint : Type 0 where
  node : ℕ → Option ℕ → Endpoint
  network : ℕ → Endpoint
  malformed : Endpoint

-- `link["metrics"]`
pub record Metrics : Type 0 where
  pub delay_ms : ℕ
  pub loss_pct : ℕ
  pub bandwidth_kbps : ℕ
  pub jitter_ms : ℕ

-- `link["runtime"]`
pub record LinkRuntime : Type 0 where
  pub attach_generation : ℕ
  pub ip : Option Text

-- A link; `endpoint_positions` is the JSON text of a value that the services only carry.
pub record Link : Type 0 where
  pub id : Text
  pub from : Endpoint
  pub to : Endpoint
  pub style_override : Option Text
  pub endpoint_positions : Text
  pub label : Text
  pub color : Text
  pub width : Text
  pub metrics : Metrics
  pub runtime : Option LinkRuntime

pub record Interface : Type 0 where
  pub index : ℕ
  pub planned_mac : Option Text
  pub current_attach_generation : ℕ

pub record Node : Type 0 where
  pub name : Text
  pub kind : Text
  pub interfaces : List Interface

-- A network with the fields of its `config` (`cidr`, `shared_cloud_id`) and its `runtime`
-- (`bridge_name`, `first_offset`, `used_ips`) that are read; an entry of `used_ips` that is no
-- text is `none`.
pub record Network : Type 0 where
  pub id : ℕ
  pub name : Text
  pub kind : Text
  pub implicit : Bool
  pub visibility : Bool
  pub cidr : Option Text
  pub shared_cloud_id : Option Text
  pub bridge_name : Option Text
  pub first_offset : Option ℕ
  pub used_ips : List (Option Text)

pub record Lab : Type 0 where
  pub id : Option Text
  pub nodes : List (ℕ × Node)
  pub networks : List (ℕ × Network)
  pub links : List Link

-- `networks.get(str(network_id))`
abbrev pub network_at : ℕ → Lab → Option Network
network_at n lab = Dict.get ◌==◌ n lab.networks
