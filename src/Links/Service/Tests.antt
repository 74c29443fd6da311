-- ===== src/Links/Service/Tests.antt =====
-- Calls of `create_link` (backend/app/services/link_service.py) in a lab with one network, on a host
-- where the hot-attach works and on one where it raises.
use nova_ve.Prelude.Dict.{get, put}
use nova_ve.Prelude.{
  ◌==◌, Bool-cases, inl, inr, arith, ℕ, ◌≡◌, refl, true, false, Option, none, some, List, [], ◌∷◌,
  Text, codes, text_eq, strip, lstrip, rstrip, split_on, join_with,
}
use nova_ve.Lab.{node, network, Network, Lab, network_at}
use nova_ve.LabPath.{
  forward_slashes, lstrip_slash, rstrip_slash, is_part, join_parts, normalize_relative_lab_path,
}
use nova_ve.Ipam.{IpAddress}
use nova_ve.RuntimeMutex.{acquire, get_or_create, try_lock, is_held}
use nova_ve.Links.Keys.{node_key, network_key, normalize_endpoint, endpoint_of}
use nova_ve.Links.Ids.{next_link_id, refcount, refcount_links, counts_for}
use nova_ve.Links.Records.{link_with_state, build_link}
use nova_ve.Links.Cache.{cache_get, cache_find}
use nova_ve.Links.Create.{
  attach_failed, ok, err, plan_create, create_branch, create_in_networks, find_conflict,
  create_attached, promotion,
}
use nova_ve.Links.Service.{
  World, Environment, Stamp, acquire_all, node_keys, sort_pairs, insert_pair, runtime_mutex_lab_id,
}
use nova_ve.Links.Service.CreateLink.{
  Answer, create_link, create_link_locked, mutex_keys, finish_create,
}
use nova_ve.Links.WellFormed.{interface_count, IsWellFormed}
use nova_ve.Links.Service.DeleteLink.{delete_link}
use nova_ve.Links.Service.Keeps.{AllWellFormed, create_link-AllWellFormed}
use nova_ve.Links.Service.DeleteKeeps.{delete_link-AllWellFormed}
use nova_ve.Links.Service.SelfLoop.{create_link-self_loop}
use nova_ve.Links.Create.{link_contention}
use nova_ve.Links.Service.PatchLink.{label, not_allowed, patch_link}
use nova_ve.Links.Service.PatchKeeps.{patch_link-AllWellFormed}
use nova_ve.Links.Service.Failure.{Unchanged, create_link-err}
use nova_ve.Links.Service.Replay.{Replayed, create_link-Replayed}

abbrev lan : Network
lan = record {
  id = 1;
  name = codes "lan";
  kind = codes "linux_bridge";
  implicit = false;
  visibility = true;
  cidr = none;
  shared_cloud_id = none;
  bridge_name = none;
  first_offset = none;
  used_ips = [];
}

abbrev lab : Lab
lab = record { id = none; nodes = []; networks = (1, lan) ∷ []; links = [] }

abbrev world : World
world = record {
  labs = (codes "a.json", lab) ∷ [];
  mac = record { entries = [] };
  hub = record { ring_size = 8; labs = [] };
  cache = [];
  mutex = record { locks = []; node_locks = [] };
}

-- Addresses whose text is one character.
abbrev parse_one : Text → Option ℕ
parse_one (a ∷ []) = some a
parse_one _ = none

abbrev ip : IpAddress
ip = record {
  parse = parse_one;
  show = λ n. n ∷ [];
  subnet = λ t. none;
  parse-show = λ n lt. refl;
  subnet_bounds = λ t first last h. cc;
}

abbrev host : Option (List Stamp) → Environment
host stamps = record {
  waited = λ held r. r;
  send = λ ws. true;
  hot_attach = λ path l bridge links. stamps;
  hot_detach = λ id path pairs g. true;
  find_owner = λ labs id. none;
  ip = ip;
}

attach_fails :
    (create_link (host none) world (codes "a.json") (node 1 (some 0)) (network 1) none none).0
    ≡ err attach_failed
unfolding create_link create_link_locked mutex_keys acquire_all acquire get_or_create try_lock
    is_held node_keys sort_pairs insert_pair runtime_mutex_lab_id normalize_relative_lab_path
    forward_slashes lstrip_slash rstrip_slash is_part join_parts text_eq strip lstrip rstrip
    split_on join_with normalize_endpoint plan_create create_branch create_in_networks find_conflict
    get put cache_get
attach_fails = refl

create_link-err_example :
    Unchanged world
      (create_link (host none) world (codes "a.json") (node 1 (some 0)) (network 1) none none).1
create_link-err_example =
    create_link-err (host none) world (codes "a.json") (node 1 (some 0)) (network 1) none none
      attach_failed attach_fails

abbrev answer : Answer
answer = record {
  link = link_with_state (build_link (next_link_id []) (node 1 (some 0)) (network 1) none);
  network = none;
  replayed = false;
}

link_created :
    (create_link
      (host (some []))
      world
      (codes "a.json")
      (node 1 (some 0))
      (network 1)
      none
      (some (codes "k"))).0
    ≡ ok answer
unfolding create_link create_link_locked mutex_keys acquire_all acquire get_or_create try_lock
    is_held node_keys sort_pairs insert_pair runtime_mutex_lab_id normalize_relative_lab_path
    forward_slashes lstrip_slash rstrip_slash is_part join_parts text_eq strip lstrip rstrip
    split_on join_with normalize_endpoint plan_create create_branch create_in_networks find_conflict
    get put cache_get finish_create create_attached endpoint_of promotion refcount refcount_links
    build_link counts_for cache_find
link_created = refl

-- The second call asks for another link, on a host where the attach would raise.
create_link-Replayed_example :
    Replayed
      (create_link
        (host (some []))
        world
        (codes "a.json")
        (node 1 (some 0))
        (network 1)
        none
        (some (codes "k"))).1
      answer
      (create_link
        (host none)
        (create_link
          (host (some []))
          world
          (codes "a.json")
          (node 1 (some 0))
          (network 1)
          none
          (some (codes "k"))).1
        (codes "a.json")
        (node 2 (some 0))
        (network 1)
        none
        (some (codes "k")))
create_link-Replayed_example =
    create_link-Replayed (host (some [])) (host none) world (codes "a.json") (codes "k")
      (node 1 (some 0)) (network 1) (node 2 (some 0)) (network 1) none none answer (λ e. cc)
      link_created

lan_ordinary : (n : ℕ) (w : Network) → network_at n lab ≡ some w → w.implicit ≡ false
unfolding get
lan_ordinary n w at = elim (Bool-cases (1 == n)) [
  | inl e ↦ let same : lan ≡ w = ground (arith, at, e) in rw (← same) refl
  | inr e ↦ absurd (ground (arith, at, e))
]

lab-IsWellFormed : IsWellFormed lab
unfolding get refcount refcount_links
lab-IsWellFormed = record {
  halves = tt;
  once = λ n i. (unfold interface_count in omega arith);
  ids = tt;
  bridges = λ n w at imp. absurd (let plain = lan_ordinary n w at in cc);
  targets = λ n pos gone. refl;
  no_zero = refl;
}

world-AllWellFormed : AllWellFormed world.labs
unfolding get
world-AllWellFormed q found h = elim (Bool-cases (text_eq (codes "a.json") q)) [
  | inl e ↦ let same : lab ≡ found = ground (arith, h, e) in rw (← same) lab-IsWellFormed
  | inr e ↦ absurd (ground (arith, h, e))
]

abbrev linked : World
linked =
    (create_link (host (some [])) world (codes "a.json") (node 1 (some 0)) (network 1) none
      (some (codes "k"))).1

create_link-AllWellFormed_example : AllWellFormed linked.labs
unfolding normalize_endpoint
create_link-AllWellFormed_example =
    create_link-AllWellFormed (host (some [])) world (codes "a.json") (node 1 (some 0)) (network 1)
      none (some (codes "k")) (node_key 1 0) (network_key 1) world-AllWellFormed refl refl refl
      (λ e. cc)

linked-AllWellFormed : AllWellFormed linked.labs
unfolding normalize_endpoint
linked-AllWellFormed =
    create_link-AllWellFormed (host (some [])) world (codes "a.json") (node 1 (some 0)) (network 1)
      none (some (codes "k")) (node_key 1 0) (network_key 1) world-AllWellFormed refl refl refl
      (λ e. cc)

delete_link-AllWellFormed_example :
    AllWellFormed (delete_link (host none) false linked (codes "a.json") (codes "lnk_001")).1.labs
delete_link-AllWellFormed_example =
    delete_link-AllWellFormed (host none) false linked (codes "a.json") (codes "lnk_001")
      linked-AllWellFormed

path_normal : normalize_relative_lab_path (codes "/a.json") ≡ some (codes "a.json")
unfolding normalize_relative_lab_path forward_slashes lstrip_slash rstrip_slash is_part join_parts
    text_eq strip lstrip rstrip split_on join_with
path_normal = refl

interface_normal : normalize_endpoint (node 1 (some 0)) ≡ some (node_key 1 0)
unfolding normalize_endpoint
interface_normal = refl

nothing_cached : (cache_get (codes "a.json") (some (codes "k")) []).0 ≡ none
unfolding cache_get cache_find get text_eq
nothing_cached = refl

create_link-self_loop_example :
    ((create_link
        (host none)
        world
        (codes "/a.json")
        (node 1 (some 0))
        (node 1 (some 0))
        none
        (some (codes "k"))).0
      ≡ err link_contention)
    × ((create_link
          (host none)
          world
          (codes "/a.json")
          (node 1 (some 0))
          (node 1 (some 0))
          none
          (some (codes "k"))).1.labs
        ≡ world.labs)
create_link-self_loop_example =
    create_link-self_loop (host none) world (codes "/a.json") (codes "a.json") (node 1 (some 0))
      (node 1 (some 0)) none (some (codes "k")) 1 0 (λ k r held. held) nothing_cached path_normal
      interface_normal interface_normal

patch_link-AllWellFormed_example :
    AllWellFormed
      (patch_link
        (host none)
        linked
        (codes "a.json")
        (codes "lnk_001")
        (label (codes "uplink") ∷ (not_allowed (codes "from") ∷ []))).1.labs
patch_link-AllWellFormed_example =
    patch_link-AllWellFormed (host none) linked (codes "a.json") (codes "lnk_001")
      (label (codes "uplink") ∷ (not_allowed (codes "from") ∷ [])) linked-AllWellFormed
