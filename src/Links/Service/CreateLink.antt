-- ===== src/Links/Service/CreateLink.antt =====
-- `create_link` of `LinkService` in backend/app/services/link_service.py. A call returns its result
-- and the state that it leaves.
use nova_ve.Prelude.{
  ℕ, Bool, true, false, Option, none, some, List, [], ◌∷◌, map, Text, if◌then◌else◌,
}
use nova_ve.Lab.{Endpoint, Link, Network, Lab}
use nova_ve.LabPath.{normalize_relative_lab_path}
use nova_ve.RuntimeMutex.{MutexKey}
use nova_ve.Ipam.Store.{read_lab, write_lab}
use nova_ve.Links.Keys.{EndpointKey, normalize_endpoint}
use nova_ve.Links.Records.{LinkPayload, link_with_state}
use nova_ve.Links.Create.{
  invalid_path, invalid_endpoint, lab_missing, link_contention, attach_failed, Result, ok, err,
  Created, plan_create,
}
use nova_ve.Links.Delete.{find_link}
use nova_ve.Links.Cache.{CacheEntry, Cache, cache_get, cache_set}
use nova_ve.Links.Service.{
  Stamp, World, Environment, runtime_mutex_lab_id, node_keys, sort_pairs, mutex_key, Stacked,
  all_entered, contended, acquire_all, release_all, stamp_all, save, publish_all,
}

-- `(link_payload, network_payload, replayed)`
pub record Answer : Type 0 where
  pub link : LinkPayload
  pub network : Option Network
  pub replayed : Bool

-- The payload after the stamps: that of the stamped record with the link's id.
abbrev stamped_payload : Created → Option Link → LinkPayload
stamped_payload c none = link_with_state c.link
stamped_payload c (some l) = link_with_state l

abbrev pub is_empty {ℓ} : {A : Type ℓ} → List A → Bool
is_empty [] = true
is_empty (x ∷ xs) = false

-- After the hot-attach: the stamps are written, the events published, the answer cached.
unfoldable pub finish_create :
    Environment → World → Text → Option Text → Created → List Stamp → Answer × World
finish_create env w path key c stamps =
    let lab = stamp_all stamps c.lab in
    let payload =
      if is_empty stamps
      then link_with_state c.link
      else stamped_payload c (find_link c.link.id lab.links) in
    let entry : CacheEntry = record {
      link_id = c.link.id;
      link = payload;
      network = c.network;
      ws_events = c.events;
    } in
    (
      record { link = payload; network = c.network; replayed = false },
      record w {
        labs = if is_empty stamps then w.labs else write_lab path lab w.labs;
        hub = publish_all env path c.events w.hub;
        cache = cache_set path key entry w.cache;
      },
    )

-- Where the hot-attach raises, lab.json goes back to the lab as it was read.
abbrev pub create_attached :
    Environment
    → World
    → Text
    → Option Text
    → Lab
    → Created
    → Option (List Stamp)
    → Result Answer × World
create_attached env w path key original c none = (err attach_failed, save path original w)
create_attached env w path key original c (some stamps) =
    let (answer, w') = finish_create env w path key c stamps in (ok answer, w')

abbrev pub create_planned :
    Environment → World → Text → Option Text → Lab → Result Created → Result Answer × World
create_planned env w path key original (err e) = (err e, w)
create_planned env w path key original (ok c) =
    create_attached env (save path c.lab w) path key original c
      (env.hot_attach path c.lab c.implicit_bridge c.concrete_links)

abbrev pub create_read :
    Environment
    → World
    → Text
    → EndpointKey
    → EndpointKey
    → Option Text
    → Option Text
    → Option Lab
    → Result Answer × World
create_read env w path a b style key none = (err lab_missing, w)
create_read env w path a b style key (some lab) =
    create_planned env w path key lab (plan_create lab a b style)

-- `_create_link_locked`
unfoldable pub create_link_locked :
    Environment
    → World
    → Text
    → EndpointKey
    → EndpointKey
    → Option Text
    → Option Text
    → Result Answer × World
create_link_locked env w path a b style key =
    create_read env w path a b style key (read_lab path w.labs)

-- The mutexes of a call, in the order in which it acquires them.
unfoldable pub mutex_keys : World → Text → List (ℕ × ℕ) → List MutexKey
mutex_keys w path pairs =
    map (mutex_key (runtime_mutex_lab_id (read_lab path w.labs) path)) (sort_pairs pairs)

abbrev pub under_mutexes {ℓ} :
    {A : Type ℓ} → World → List MutexKey → Stacked → (World → Result A × World) → Result A × World
under_mutexes w keys (contended r) body = (err link_contention, record w { mutex = r })
under_mutexes w keys (all_entered r) body =
    let (result, w') = body (record w { mutex = r }) in
    (result, record w' { mutex = release_all w'.mutex keys })

abbrev pub create_normalized :
    Environment
    → World
    → Text
    → Option EndpointKey
    → Option EndpointKey
    → Option Text
    → Option Text
    → Result Answer × World
create_normalized env w path (some a) (some b) style key =
    let keys = mutex_keys w path (node_keys (a ∷ (b ∷ []))) in
    under_mutexes w keys (acquire_all env [] w.mutex keys)
      (λ w'. create_link_locked env w' path a b style key)
create_normalized env w path _ _ style key = (err invalid_endpoint, w)

abbrev pub create_looked_up :
    Environment
    → World
    → Text
    → Endpoint
    → Endpoint
    → Option Text
    → Option Text
    → Option CacheEntry × Cache
    → Result Answer × World
create_looked_up env w path from to style key (some e, cache) = (
  ok (record { link = e.link; network = e.network; replayed = true }),
  record w { cache = cache },
)
create_looked_up env w path from to style key (none, cache) =
    create_normalized env w path (normalize_endpoint from) (normalize_endpoint to) style key

abbrev pub create_at :
    Environment
    → World
    → Endpoint
    → Endpoint
    → Option Text
    → Option Text
    → Option Text
    → Result Answer × World
create_at env w from to style key none = (err invalid_path, w)
create_at env w from to style key (some path) =
    create_looked_up env w path from to style key (cache_get path key w.cache)

-- `create_link`
unfoldable pub create_link :
    Environment
    → World
    → Text
    → Endpoint
    → Endpoint
    → Option Text
    → Option Text
    → Result Answer × World
create_link env w lab_path from to style key =
    create_at env w from to style key (normalize_relative_lab_path lab_path)
