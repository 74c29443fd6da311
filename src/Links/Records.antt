-- ===== src/Links/Records.antt =====
-- The records that backend/app/services/link_service.py builds: links, implicit networks, the
-- payloads of responses and of events.
use nova_ve.Prelude.{true, false, ℕ, Option, none, some, [], Text, codes}
use nova_ve.Lab.{Endpoint, Link, LinkRuntime, Network}

-- `_link_with_state`: the link as it is answered, with its runtime filled in.
pub record LinkPayload : Type 0 where
  pub link : Link
  pub state : Text

abbrev no_runtime : LinkRuntime
no_runtime = record { attach_generation = 0; ip = none }

unfoldable pub link_with_state : Link → LinkPayload
link_with_state l = record {
  link = record l { runtime = some (elim l.runtime [ none ↦ no_runtime | some r ↦ r ]) };
  state = codes "configured";
}

-- `_build_link`, with the defaults of its other arguments
unfoldable pub build_link : Text → Endpoint → Endpoint → Option Text → Link
build_link link_id a b style_override = record {
  id = link_id;
  from = a;
  to = b;
  style_override = style_override;
  endpoint_positions = codes "{}";
  label = [];
  color = [];
  width = codes "1";
  metrics = record { delay_ms = 0; loss_pct = 0; bandwidth_kbps = 0; jitter_ms = 0 };
  runtime = none;
}

-- `_build_implicit_network`
unfoldable pub build_implicit_network : ℕ → Network
build_implicit_network n = record {
  id = n;
  name = [];
  kind = codes "linux_bridge";
  implicit = true;
  visibility = false;
  cidr = none;
  shared_cloud_id = none;
  bridge_name = none;
  first_offset = none;
  used_ips = [];
}

pub data EventPayload : Type 0 where
  network_payload : Network → EventPayload
  link_payload : LinkPayload → EventPayload
  deleted_payload : Text → EventPayload

-- An entry of `ws_events`
pub record LabEvent : Type 0 where
  pub event_type : Text
  pub payload : EventPayload

abbrev pub network_event : Text → Network → LabEvent
network_event t w = record { event_type = t; payload = network_payload w }

abbrev pub link_event : Text → LinkPayload → LabEvent
link_event t l = record { event_type = t; payload = link_payload l }

abbrev pub deleted_event : Text → LabEvent
deleted_event id = record { event_type = codes "link_deleted"; payload = deleted_payload id }
