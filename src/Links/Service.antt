-- ===== src/Links/Service.antt =====
-- `LinkService` of backend/app/services/link_service.py over the whole state that it works on. A
-- call runs with the runtime mutexes and the lab lock held; what the rest of the program does to
-- it from outside is `Environment`.
pub mod CreateLink
pub mod DeleteLink
pub mod PatchLink
pub mod Failure
pub mod Replay
pub mod Keeps
pub mod DeleteKeeps
pub mod SelfLoop
pub mod PatchKeeps
mod Tests
use nova_ve.Prelude.Dict
use nova_ve.Prelude.{
  ℕ, suc, Bool, true, false, not, ◌&&◌, ◌||◌, Option, none, some, List, [], ◌∷◌, ◌++◌, map, Text,
  codes, text_eq, ltb, ◌==◌, if◌then◌else◌,
}
use nova_ve.Lab.{
  Endpoint, node, network, malformed, Link, LinkRuntime, Interface, Node, Network, Lab, network_at,
}
use nova_ve.LabPath.{normalize_relative_lab_path}
use nova_ve.WsHub
use nova_ve.WsHub.{WsHub}
use nova_ve.MacRegistry.{MacRegistry, recompute_for_lab}
use nova_ve.RuntimeMutex
use nova_ve.RuntimeMutex.{RuntimeMutexRegistry, MutexKey, Acquired, entered, timed_out, release}
use nova_ve.Ipam.{IpAddress, Outcome, done, raised}
use nova_ve.Ipam.Store.{LabStore, read_lab, write_lab, release_ip}
use nova_ve.Links.Keys.{EndpointKey, network_key, node_key, index_or_zero, normalize_endpoint}
use nova_ve.Links.Ids.{refcount, is_network}
use nova_ve.Links.Records.{LinkPayload, link_with_state, EventPayload, LabEvent}
use nova_ve.Links.Create.{
  LinkError, invalid_path, invalid_endpoint, lab_missing, link_contention, attach_failed,
  detach_failed, Result, ok, err, Created, plan_create,
}
use nova_ve.Links.Delete.{Deleted, find_link, plan_delete}
use nova_ve.Links.Cache.{Cache, CacheEntry, cache_get, cache_set}

-- What the hot-attach pass stamps: an interface, its network, and the generation.
pub record Stamp : Type 0 where
  pub node_id : ℕ
  pub interface_index : ℕ
  pub network_id : ℕ
  pub generation : ℕ

-- The state that the service reads and writes.
pub record World : Type 0 where
  pub labs : LabStore
  pub mac : MacRegistry
  pub hub : WsHub EventPayload
  pub cache : Cache
  pub mutex : RuntimeMutexRegistry

-- The runtime and the host, as a call sees them: what the other threads leave when a wait for a
-- mutex ends, beside the mutexes that the call holds; which sockets take a message; the hot-attach
-- pass (`none` where it raises) and the hot-detach of the node endpoints (false where it raises);
-- the owner of a shared cloud; and Python's `ipaddress`.
pub record Environment : Type 0 where
  pub waited : List MutexKey → RuntimeMutexRegistry → RuntimeMutexRegistry
  pub send : ℕ → Bool
  pub hot_attach : Text → Lab → Option ℕ → List Link → Option (List Stamp)
  pub hot_detach : Text → Text → List (ℕ × ℕ) → ℕ → Bool
  pub find_owner : LabStore → Text → Option (Text × ℕ)
  pub ip : IpAddress

-- `_runtime_mutex_lab_id`
unfoldable pub runtime_mutex_lab_id : Option Lab → Text → Text
runtime_mutex_lab_id none normalized = normalized
runtime_mutex_lab_id (some lab) normalized = elim lab.id [
  | none ↦ normalized
  | some id ↦ if text_eq id [] then normalized else id
]

-- The node keys of the endpoints.
unfoldable pub node_keys : List EndpointKey → List (ℕ × ℕ)
node_keys [] = []
node_keys (node_key n i ∷ eps) = (n, i) ∷ node_keys eps
node_keys (network_key n ∷ eps) = node_keys eps

abbrev pub pair_lt : ℕ × ℕ → ℕ × ℕ → Bool
pair_lt (a, i) (b, j) = ltb a b || (a == b && ltb i j)

-- `node_keys.sort()`, by insertion
unfoldable pub insert_pair : ℕ × ℕ → List (ℕ × ℕ) → List (ℕ × ℕ)
insert_pair p [] = p ∷ []
insert_pair p (q ∷ qs) = if pair_lt q p then q ∷ insert_pair p qs else p ∷ q ∷ qs

unfoldable pub sort_pairs : List (ℕ × ℕ) → List (ℕ × ℕ)
sort_pairs [] = []
sort_pairs (p ∷ ps) = insert_pair p (sort_pairs ps)

abbrev pub mutex_key : Text → ℕ × ℕ → MutexKey
mutex_key lab_id (n, i) = (lab_id, n, i)

-- The `AsyncExitStack`: either every mutex is entered, or one times out and those entered before
-- it are released.
pub data Stacked : Type 0 where
  all_entered : RuntimeMutexRegistry → Stacked
  contended : RuntimeMutexRegistry → Stacked

-- Where a later mutex times out, the one entered before it is released.
abbrev pub released_if_contended : MutexKey → Stacked → Stacked
released_if_contended k (all_entered r) = all_entered r
released_if_contended k (contended r) = contended (release r k)

unfoldable pub acquire_all :
    Environment → List MutexKey → RuntimeMutexRegistry → List MutexKey → Stacked
acquire_all env held r [] = all_entered r
acquire_all env held r (k ∷ ks) = elim (RuntimeMutex.acquire (env.waited held) r k) [
  | timed_out c r' ↦ contended r'
  | entered r' ↦ released_if_contended k (acquire_all env (k ∷ held) r' ks)
]

-- The stack unwinds: the last mutex entered is the first released.
unfoldable pub release_all : RuntimeMutexRegistry → List MutexKey → RuntimeMutexRegistry
release_all r [] = r
release_all r (k ∷ ks) = release (release_all r ks) k

-- The two matches of an endpoint in `_stamp_link_attach_generation`, where a missing index is -1.
abbrev stamped_node : Stamp → Endpoint → Bool
stamped_node s (node n (some i)) = n == s.node_id && i == s.interface_index
stamped_node s _ = false

abbrev stamp_runtime : ℕ → Option LinkRuntime → LinkRuntime
stamp_runtime g none = record { attach_generation = g; ip = none }
stamp_runtime g (some r) = record r { attach_generation = g }

-- `node_match and network_match`
abbrev pub is_stamped : Stamp → Link → Bool
is_stamped s l =
    (stamped_node s l.from || stamped_node s l.to)
    && (is_network s.network_id l.from || is_network s.network_id l.to)

-- The first link on the stamp's interface and network gets the generation.
unfoldable pub stamp_links : Stamp → List Link → List Link
stamp_links s [] = []
stamp_links s (l ∷ ls) =
    let rest = stamp_links s ls in
    if is_stamped s l
    then record l { runtime = some (stamp_runtime s.generation l.runtime) } ∷ ls
    else l ∷ rest

unfoldable pub stamp_interfaces : Stamp → List Interface → List Interface
stamp_interfaces s [] = []
stamp_interfaces s (i ∷ is) =
    let rest = stamp_interfaces s is in
    if i.index == s.interface_index
    then record i { current_attach_generation = s.generation } ∷ is
    else i ∷ rest

abbrev stamp_nodes : Stamp → List (ℕ × Node) → Option Node → List (ℕ × Node)
stamp_nodes s nodes none = nodes
stamp_nodes s nodes (some n) =
    Dict.put ◌==◌ s.node_id (record n { interfaces = stamp_interfaces s n.interfaces }) nodes

-- `_stamp_link_attach_generation`
unfoldable pub stamp : Stamp → Lab → Lab
stamp s lab = record lab {
  nodes = stamp_nodes s lab.nodes (Dict.get ◌==◌ s.node_id lab.nodes);
  links = stamp_links s lab.links;
}

unfoldable pub stamp_all : List Stamp → Lab → Lab
stamp_all [] lab = lab
stamp_all (s ∷ ss) lab = stamp_all ss (stamp s lab)

-- `write_lab_json_static` and `_recompute_mac_registry`
unfoldable pub save : Text → Lab → World → World
save path lab w = record w {
  labs = write_lab path lab w.labs;
  mac = recompute_for_lab path lab w.mac;
}

-- `for event_type, payload in ws_events: await ws_hub.publish(...)`
unfoldable pub publish_all :
    Environment → Text → List LabEvent → WsHub EventPayload → WsHub EventPayload
publish_all env path [] hub = hub
publish_all env path (e ∷ es) hub =
    publish_all env path es (WsHub.publish env.send hub path e.event_type e.payload []).0
