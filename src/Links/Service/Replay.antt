-- ===== src/Links/Service/Replay.antt =====
-- A `create_link` that is asked again with its idempotency key
-- (backend/app/services/link_service.py).
use nova_ve.Prelude.Dict
use nova_ve.Prelude.{◌≡◌, ◌≢◌, refl, ap, ◌∙◌, true, Option, none, some, List, [], Text}
use nova_ve.Lab.{Endpoint, Lab}
use nova_ve.LabPath.{normalize_relative_lab_path}
use nova_ve.RuntimeMutex.{MutexKey}
use nova_ve.Ipam.Store.{read_lab}
use nova_ve.Links.Keys.{EndpointKey, normalize_endpoint}
use nova_ve.Links.Create.{Result, ok, err, Created, plan_create}
use nova_ve.Links.Cache.{CacheKey, CacheEntry, Cache, cache_key_eq, cache_get}
use nova_ve.Links.Cache.Retention.{cache_get-cache_set, cache_get-again, cache_get-keeps}
use nova_ve.Links.Service.{Stamp, World, Environment, Stacked, all_entered, contended}
use nova_ve.Links.Service.CreateLink.{
  Answer, finish_create, create_attached, create_planned, create_read, create_link_locked,
  under_mutexes, create_normalized, create_looked_up, create_at, create_link,
}

-- The cache answers the key as the call did.
abbrev Remembers : Text → Text → Answer → Cache → Type 0
Remembers path key a cache =
    (e : CacheEntry) × ((cache_get path (some key) cache).0 ≡ some e)
    × (e.link ≡ a.link)
    × (e.network ≡ a.network)

answered : {a b : Answer} → ok a ≡ ok b → a ≡ b
answered e = cc

module _ (env : Environment) (path key : Text) (given : key ≢ []) (style : Option Text)
    (a : Answer) where
  finish-Remembers :
      (w : World) (c : Created) (stamps : List Stamp)
      → (finish_create env w path (some key) c stamps).0 ≡ a
      → Remembers path key a (finish_create env w path (some key) c stamps).1.cache
  unfolding finish_create
  finish-Remembers w c stamps h = (
    _,
    (cache_get-cache_set path key _ w.cache given).0,
    ap (λ (x : Answer). x.link) h,
    ap (λ (x : Answer). x.network) h,
  )

  attached-Remembers :
      (w : World) (original : Lab) (c : Created) (stamps : Option (List Stamp))
      → (create_attached env w path (some key) original c stamps).0 ≡ ok a
      → Remembers path key a (create_attached env w path (some key) original c stamps).1.cache
  attached-Remembers w original c none h = cc
  attached-Remembers w original c (some stamps) h = finish-Remembers w c stamps (answered h)

  planned-Remembers :
      (w : World) (original : Lab) (plan : Result Created)
      → (create_planned env w path (some key) original plan).0 ≡ ok a
      → Remembers path key a (create_planned env w path (some key) original plan).1.cache
  planned-Remembers w original (err x) h = cc
  planned-Remembers w original (ok c) h = attached-Remembers _ original c _ h

  read-Remembers :
      (w : World) (x y : EndpointKey) (o : Option Lab)
      → (create_read env w path x y style (some key) o).0 ≡ ok a
      → Remembers path key a (create_read env w path x y style (some key) o).1.cache
  read-Remembers w x y none h = cc
  read-Remembers w x y (some lab) h = planned-Remembers w lab (plan_create lab x y style) h

  mutexes-Remembers :
      (w : World) (keys : List MutexKey) (s : Stacked) (x y : EndpointKey)
      → (under_mutexes w keys s (λ v. create_link_locked env v path x y style (some key))).0 ≡ ok a
      → Remembers path key a
          (under_mutexes w keys s (λ v. create_link_locked env v path x y style (some key))).1.cache
  unfolding create_link_locked
  mutexes-Remembers w keys (contended r) x y h = cc
  mutexes-Remembers w keys (all_entered r) x y h =
      read-Remembers (record w { mutex = r }) x y (read_lab path w.labs) h

  normalized-Remembers :
      (w : World) (x y : Option EndpointKey)
      → (create_normalized env w path x y style (some key)).0 ≡ ok a
      → Remembers path key a (create_normalized env w path x y style (some key)).1.cache
  normalized-Remembers w (some x) (some y) h = mutexes-Remembers w _ _ x y h
  normalized-Remembers w none y h = cc
  normalized-Remembers w (some x) none h = cc

  looked_up-Remembers :
      (w : World) (from to : Endpoint) (found : Option CacheEntry × Cache)
      → cache_get path (some key) w.cache ≡ found
      → (create_looked_up env w path from to style (some key) found).0 ≡ ok a
      → Remembers path key a (create_looked_up env w path from to style (some key) found).1.cache
  looked_up-Remembers w from to (some e, cache) q h =
      let again = cache_get-again path key w.cache e (ap (λ p. p.0) q) in
      (
        e,
        rw q at again,
        ap (λ (x : Answer). x.link) (answered h),
        ap (λ (x : Answer). x.network) (answered h),
      )
  looked_up-Remembers w from to (none, cache) q h =
      normalized-Remembers w (normalize_endpoint from) (normalize_endpoint to) h

-- A cache that remembers an answer gives it, and no more happens: only the order of the cache may
-- change, not what it finds.
abbrev pub Replayed : World → Answer → Result Answer × World → Type 0
Replayed w a r =
    (r.0 ≡ ok (record a { replayed = true }))
    × (r.1.labs ≡ w.labs)
    × (r.1.hub ≡ w.hub)
    × (r.1.mac ≡ w.mac)
    × (r.1.mutex ≡ w.mutex)
    × ((j : CacheKey) → Dict.get cache_key_eq j r.1.cache ≡ Dict.get cache_key_eq j w.cache)

looked_up-Replayed :
    (env : Environment) (w : World) (path key : Text) (from to : Endpoint) (style : Option Text)
    (a : Answer) (e : CacheEntry) (found : Option CacheEntry × Cache)
    → found ≡ cache_get path (some key) w.cache
    → found.0 ≡ some e
    → e.link ≡ a.link
    → e.network ≡ a.network
    → Replayed w a (create_looked_up env w path from to style (some key) found)
looked_up-Replayed env w path key from to style a e (none, cache) s h p q = cc
looked_up-Replayed env w path key from to style a e (some x, cache) s h p q =
    let same : x ≡ e = cc in
    (
      rw (same, p, q) refl,
      refl,
      refl,
      refl,
      refl,
      λ j.
          ap (λ (f : Option CacheEntry × Cache). Dict.get cache_key_eq j f.1) s
          ∙ cache_get-keeps path key w.cache j,
    )

at-Replayed :
    (env env' : Environment) (w : World) (key : Text) (from to from' to' : Endpoint)
    (style style' : Option Text) (a : Answer) (path : Option Text)
    → key ≢ []
    → (create_at env w from to style (some key) path).0 ≡ ok a
    → Replayed (create_at env w from to style (some key) path).1 a (
        create_at env'
          (create_at env w from to style (some key) path).1
          from'
          to'
          style'
          (some key)
          path)
at-Replayed env env' w key from to from' to' style style' a none given h = cc
at-Replayed env env' w key from to from' to' style style' a (some path) given h =
    let u : World = (create_at env w from to style (some key) (some path)).1 in
    let (e, hit, p, q) =
      looked_up-Remembers env path key given style a w from to (cache_get path (some key) w.cache)
        refl h in
    looked_up-Replayed env' u path key from' to' style' a e (cache_get path (some key) u.cache) refl
      hit p q

-- A `create_link` that is asked again with the idempotency key of one that has succeeded answers
-- with its link and network, marked as replayed, whatever else it asks for; it changes no lab
-- file, no planned MAC and no mutex, publishes nothing, and the cache finds under every key what it
-- found before.
pub create_link-Replayed :
    (env env' : Environment) (w : World) (lab_path key : Text) (from to from' to' : Endpoint)
    (style style' : Option Text) (a : Answer)
    → key ≢ []
    → (create_link env w lab_path from to style (some key)).0 ≡ ok a
    → Replayed (create_link env w lab_path from to style (some key)).1 a (
        create_link env'
          (create_link env w lab_path from to style (some key)).1
          lab_path
          from'
          to'
          style'
          (some key))
unfolding create_link
create_link-Replayed env env' w lab_path key from to from' to' style style' a given h =
    at-Replayed env env' w key from to from' to' style style' a
      (normalize_relative_lab_path lab_path) given h
