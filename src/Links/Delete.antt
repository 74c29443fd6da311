-- ===== src/Links/Delete.antt =====
-- The lab.json part of `_delete_link_locked` in backend/app/services/link_service.py: the link
-- goes, with the other half of its implicit bridge and the bridge itself.
use nova_ve.Prelude.Dict
use nova_ve.Prelude.{
  ℕ, Bool, false, ◌&&◌, ◌||◌, Option, none, some, List, [], ◌∷◌, ◌++◌, Text, codes, text_eq, ◌==◌,
  if◌then◌else◌,
}
use nova_ve.Lab.{Endpoint, node, network, malformed, Link, Network, Lab}
use nova_ve.Links.Ids.{refcount_links, is_network}
use nova_ve.Links.Records.{LabEvent, network_event, deleted_event}

-- The first link that passes a test, and the links without it: a search that ends at the first
-- match, and `links.pop` of the index found.
unfoldable pub find_first : (Link → Bool) → List Link → Option Link
find_first test [] = none
find_first test (l ∷ ls) = if test l then some l else find_first test ls

unfoldable pub pop_first : (Link → Bool) → List Link → List Link
pop_first test [] = []
pop_first test (l ∷ ls) = let rest = pop_first test ls in if test l then ls else l ∷ rest

abbrev pub has_id : Text → Link → Bool
has_id id l = text_eq l.id id

abbrev pub find_link : Text → List Link → Option Link
find_link id = find_first (has_id id)

unfoldable pub network_ids : Endpoint → List ℕ
network_ids (network n) = n ∷ []
network_ids (node n i) = []
network_ids malformed = []

-- `referenced_network_ids`
unfoldable pub referenced_network_ids : Link → List ℕ
referenced_network_ids l = network_ids l.from ++ network_ids l.to

-- Whether one of the link's endpoints is the network.
abbrev pub touches : ℕ → Link → Bool
touches n l = is_network n l.from || is_network n l.to

-- `record.get("implicit") is True`, of a record that is there
abbrev pub is_implicit : Option Network → Bool
is_implicit none = false
is_implicit (some w) = w.implicit

-- `data["links"].pop(orphan_index)`, where there is an orphan
abbrev pub drop_orphan : ℕ → List Link → List LabEvent → Option Link → List Link × List LabEvent
drop_orphan n links events none = (links, events)
drop_orphan n links events (some o) =
    (pop_first (touches n) links, events ++ (deleted_event o.id ∷ []))

-- One round of the cascade: an implicit network left with one endpoint loses that link too.
unfoldable pub cascade_step :
    List (ℕ × Network) → ℕ → List Link × List LabEvent → List Link × List LabEvent
cascade_step networks n (links, events) =
    if is_implicit (Dict.get ◌==◌ n networks) && (refcount_links links n == 1)
    then drop_orphan n links events (find_first (touches n) links)
    else (links, events)

unfoldable pub cascade :
    List (ℕ × Network) → List ℕ → List Link × List LabEvent → List Link × List LabEvent
cascade networks [] s = s
cascade networks (n ∷ ns) s = cascade networks ns (cascade_step networks n s)

-- What the collection of implicit networks carries: the networks left, the last one deleted, and
-- the events.
pub record Collected : Type 0 where
  pub networks : List (ℕ × Network)
  pub deleted : Option Network
  pub events : List LabEvent

abbrev pub collect_network : List Link → ℕ → Collected → Option Network → Collected
collect_network links n c none = c
collect_network links n c (some w) =
    if w.implicit && (refcount_links links n == 0)
    then record {
      networks = Dict.remove ◌==◌ n c.networks;
      deleted = some w;
      events = c.events ++ (network_event (codes "network_deleted") w ∷ []);
    }
    else c

-- One round of the collection: an implicit network with no endpoint left goes.
unfoldable pub collect_step : List Link → ℕ → Collected → Collected
collect_step links n c = collect_network links n c (Dict.get ◌==◌ n c.networks)

unfoldable pub collect : List Link → List ℕ → Collected → Collected
collect links [] c = c
collect links (n ∷ ns) c = collect links ns (collect_step links n c)

pub record Deleted : Type 0 where
  pub lab : Lab
  pub deleted_implicit : Option Network
  pub events : List LabEvent

-- The link is there: `removed` is what `links.pop` returns.
unfoldable pub delete_found : Lab → Text → Link → Deleted
delete_found lab id removed =
    let nets = referenced_network_ids removed in
    let s = cascade lab.networks nets (pop_first (has_id id) lab.links, []) in
    let c = collect s.0 nets (record { networks = lab.networks; deleted = none; events = s.1 }) in
    record {
      lab = record lab { networks = c.networks; links = s.0 };
      deleted_implicit = c.deleted;
      events = c.events ++ (deleted_event id ∷ []);
    }

abbrev pub delete_target : Lab → Text → Option Link → Option Deleted
delete_target lab id none = none
delete_target lab id (some removed) = some (delete_found lab id removed)

-- `none` where no link has the id: nothing is written then.
unfoldable pub plan_delete : Lab → Text → Option Deleted
plan_delete lab id = delete_target lab id (find_link id lab.links)
