-- ===== src/Links/Cache.antt =====
-- The idempotency cache of `LinkService` in backend/app/services/link_service.py: an ordered
-- dict, the oldest entry first.
pub mod Retention
use nova_ve.Prelude.Dict
use nova_ve.Prelude.{
  ℕ, suc, ◌+◌, ◌≤◌, ◌<◌, ◌≡◌, ◌≢◌, ◌↔◌, refl, sym, ap, ◌∙◌, Bool, true, false, ◌&&◌, Option, none,
  some, List, [], ◌∷◌, ◌++◌, inl, inr, arith, Text, text_eq, text_eq_iff, ltb, if◌then◌else◌,
  length, length-append, Bool-cases,
}
use nova_ve.Lab.{Network}
use nova_ve.Links.Records.{LinkPayload, LabEvent}

abbrev pub CacheKey : Type 0
CacheKey = Text × Text

abbrev pub cache_key_eq : CacheKey → CacheKey → Bool
cache_key_eq (p, k) (q, j) = text_eq p q && text_eq k j

pub record CacheEntry : Type 0 where
  pub link_id : Text
  pub link : LinkPayload
  pub network : Option Network
  pub ws_events : List LabEvent

abbrev pub Cache : Type 0
Cache = List (CacheKey × CacheEntry)

-- `_IDEMPOTENCY_CACHE_MAX`
abbrev pub cache_max : ℕ
cache_max = 1024

-- `move_to_end` of a key with its value
unfoldable pub move_to_end : CacheKey → CacheEntry → Cache → Cache
move_to_end k e cache = Dict.remove cache_key_eq k cache ++ ((k, e) ∷ [])

abbrev pub cache_hit : CacheKey → Cache → Option CacheEntry → Option CacheEntry × Cache
cache_hit k cache none = (none, cache)
cache_hit k cache (some e) = (some e, move_to_end k e cache)

-- `if cache_key in self._idempotency`, of a key that is given
unfoldable pub cache_find : CacheKey → Cache → Option CacheEntry × Cache
cache_find k cache = cache_hit k cache (Dict.get cache_key_eq k cache)

-- `_cache_get`
unfoldable pub cache_get : Text → Option Text → Cache → Option CacheEntry × Cache
cache_get path none cache = (none, cache)
cache_get path (some key) cache =
    if text_eq key [] then (none, cache) else cache_find (path, key) cache

-- `while len(...) > max: popitem(last=False)`
unfoldable pub evict : ℕ → Cache → Cache
evict max [] = []
evict max (x ∷ cache) =
    let rest = evict max cache in if ltb max (length (x ∷ cache)) then rest else x ∷ cache

-- `_cache_set`
unfoldable pub cache_set : Text → Option Text → CacheEntry → Cache → Cache
cache_set path none e cache = cache
cache_set path (some key) e cache =
    let stored = move_to_end (path, key) e (Dict.put cache_key_eq (path, key) e cache) in
    if text_eq key [] then cache else evict cache_max stored

pub cache_key_eq_iff : (a b : CacheKey) → (cache_key_eq a b ≡ true) ↔ (a ≡ b)
cache_key_eq_iff (p, k) (q, j) = ground (arith, text_eq_iff p q, text_eq_iff k j)
