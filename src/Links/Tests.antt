-- ===== src/Links/Tests.antt =====
-- Runs of the link operations of backend/app/services/link_service.py: a lab with an ordinary
-- network, a link to it, and a link between two nodes.
use nova_ve.Prelude.Dict.{get}
use nova_ve.Prelude.Decimal.{pad3, str, all_digits, value_from}
use nova_ve.Prelude.{
  ℕ, ◌≤◌, ◌≡◌, ◌≢◌, refl, ap, true, false, none, some, [], ◌∷◌, codes, text_eq, strip_prefix, arith,
  length, ◌==◌, inl, inr, Bool-cases,
}
use nova_ve.Lab.{Link, Network, Lab, network_at}
use nova_ve.Links.Keys.{
  node_key, network_key, link_pair_key, pair_key_eq, key_lt, endpoint_key_eq, endpoint_of,
  normalize_endpoint,
}
use nova_ve.Links.Ids.{
  refcount, refcount_links, next_link_id, counts_for, max_link_number, link_number, digits_value,
}
use nova_ve.Links.Records.{build_link, link_with_state}
use nova_ve.Links.Create.{
  ok, Created, create_attached, create_implicit, create_branch, create_in_networks, store_promotion,
  promotion, find_conflict, plan_create, interface_conflict, is_node_key,
}
use nova_ve.Links.Delete.{Deleted, find_first, find_link, delete_found, delete_target, plan_delete}
use nova_ve.Links.Cache.{CacheEntry, cache_get, cache_set, cache_max}
use nova_ve.Links.Cache.Retention.{cache_get-cache_set}
use nova_ve.Links.WellFormed.{IsWellFormed, interface_count}
use nova_ve.Links.WellFormed.Create.{plan_create-IsWellFormed}
use nova_ve.Links.WellFormed.Delete.{plan_delete-IsWellFormed}
use nova_ve.Links.WellFormed.RoundTrip.{lab_of, plan_delete-plan_create}

abbrev lan : Network
lan = record {
  id = 1;
  name = codes "lan";
  kind = codes "linux_bridge";
  implicit = false;
  visibility = true;
  cidr = none;
  shared_cloud_id = none;
  bridge_name = none;
  first_offset = none;
  used_ips = [];
}

abbrev bare : Lab
bare = record { id = none; nodes = []; networks = (1, lan) ∷ []; links = [] }

bare_ordinary : (n : ℕ) (w : Network) → network_at n bare ≡ some w → w.implicit ≡ false
unfolding get
bare_ordinary n w at = elim (Bool-cases (1 == n)) [
  | inl e ↦ let same : lan ≡ w = ground (arith, at, e) in rw (← same) refl
  | inr e ↦ absurd (ground (arith, at, e))
]

bare-IsWellFormed : IsWellFormed bare
unfolding get refcount refcount_links
bare-IsWellFormed = record {
  halves = tt;
  once = λ n i. (unfold interface_count in omega arith);
  ids = tt;
  bridges = λ n w at imp. let plain = bare_ordinary n w at in cc;
  targets = λ n pos gone. refl;
  no_zero = refl;
}

abbrev to_lan : Created
to_lan = create_attached bare (node_key 1 0) (network_key 1) 1 none

plan_to_lan : plan_create bare (node_key 1 0) (network_key 1) none ≡ ok to_lan
unfolding plan_create create_branch create_in_networks find_conflict get
plan_to_lan = refl

plan_create-IsWellFormed_example : IsWellFormed to_lan.lab
plan_create-IsWellFormed_example =
    plan_create-IsWellFormed bare (node_key 1 0) (network_key 1) none to_lan bare-IsWellFormed refl
      (λ e. cc) plan_to_lan

wired-IsWellFormed : IsWellFormed to_lan.lab
wired-IsWellFormed =
    plan_create-IsWellFormed bare (node_key 1 0) (network_key 1) none to_lan bare-IsWellFormed refl
      (λ e. cc) plan_to_lan

abbrev between : Created
between = create_implicit to_lan.lab (node_key 1 1) (node_key 2 0) none

plan_between : plan_create to_lan.lab (node_key 1 1) (node_key 2 0) none ≡ ok between
unfolding plan_create create_attached create_branch store_promotion promotion get refcount
    refcount_links counts_for build_link endpoint_of find_conflict normalize_endpoint
    interface_conflict is_node_key link_pair_key key_lt pair_key_eq endpoint_key_eq
plan_between = refl

apart : node_key 1 1 ≢ node_key 2 0
apart e = absurd (ground (arith, e))

between-IsWellFormed : IsWellFormed between.lab
between-IsWellFormed =
    plan_create-IsWellFormed to_lan.lab (node_key 1 1) (node_key 2 0) none between
      wired-IsWellFormed refl apart plan_between

abbrev half : Link
half = between.link

half_found : find_link between.link.id between.lab.links ≡ some half
unfolding find_first text_eq create_implicit create_attached store_promotion promotion get refcount
    refcount_links counts_for build_link next_link_id pad3 str max_link_number link_number
    strip_prefix digits_value all_digits value_from
half_found = refl

abbrev deleted : Deleted
deleted = delete_found between.lab between.link.id half

plan_deleted : plan_delete between.lab between.link.id ≡ some deleted
unfolding plan_delete
plan_deleted = ap (delete_target between.lab between.link.id) half_found

plan_delete-IsWellFormed_example : IsWellFormed deleted.lab
plan_delete-IsWellFormed_example =
    plan_delete-IsWellFormed between.lab between.link.id deleted between-IsWellFormed plan_deleted

plan_delete-plan_create_example : lab_of (plan_delete between.lab between.link.id) ≡ some to_lan.lab
plan_delete-plan_create_example =
    plan_delete-plan_create to_lan.lab 1 1 2 0 none between wired-IsWellFormed apart plan_between

abbrev reply : CacheEntry
reply = record { link_id = half.id; link = link_with_state half; network = none; ws_events = [] }

cache_get-cache_set_example :
    ((cache_get
        (codes "a.json")
        (some (codes "k"))
        (cache_set (codes "a.json") (some (codes "k")) reply [])).0
      ≡ some reply)
    × (length (cache_set (codes "a.json") (some (codes "k")) reply []) ≤ cache_max)
    × (cache_set (codes "a.json") none reply [] ≡ [])
    × (cache_set (codes "a.json") (some []) reply [] ≡ [])
cache_get-cache_set_example = cache_get-cache_set (codes "a.json") (codes "k") reply [] (λ e. cc)
