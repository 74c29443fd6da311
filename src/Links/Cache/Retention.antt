-- ===== src/Links/Cache/Retention.antt =====
-- What the idempotency cache of link_service.py keeps.
use nova_ve.Prelude.Dict
use nova_ve.Prelude.Dict.{get-remove}
use nova_ve.Prelude.{
  ◌≡◌, ◌≢◌, ◌<◌, ◌≤◌, ℕ, refl, sym, ap, ◌∙◌, false, Option, none, some, [], ◌∷◌, ◌++◌, inl, inr,
  arith, Text, text_eq, text_eq_iff, text_eq_refl, ltb, if◌then◌else◌, length, Bool-cases,
}
use nova_ve.Links.Cache.{
  CacheKey, CacheEntry, Cache, cache_key_eq, cache_key_eq_iff, cache_max, cache_hit, move_to_end,
  cache_find, cache_get, evict, cache_set,
}

get-append :
    (k j : CacheKey) (e : CacheEntry) (cache : Cache)
    → Dict.get cache_key_eq k cache ≡ none
    → Dict.get cache_key_eq k (cache ++ ((j, e) ∷ [])) ≡ (if cache_key_eq j k then some e else none)
unfolding Dict.get
get-append k j e [] h = refl
get-append k j e ((i, x) ∷ cache) h = ground (arith, get-append k j e cache)

get-append_other :
    (k j : CacheKey) (e : CacheEntry) (cache : Cache)
    → cache_key_eq j k ≡ false
    → Dict.get cache_key_eq k (cache ++ ((j, e) ∷ [])) ≡ Dict.get cache_key_eq k cache
unfolding Dict.get
get-append_other k j e [] h = rw h refl
get-append_other k j e ((i, x) ∷ cache) h = ground (arith, get-append_other k j e cache)

evict-snoc :
    (max : ℕ) (k : CacheKey) (e : CacheEntry) (cache : Cache)
    → Dict.get cache_key_eq k cache ≡ none
    → 0 < max
    → Dict.get cache_key_eq k (evict max (cache ++ ((k, e) ∷ []))) ≡ some e
unfolding evict Dict.get
evict-snoc max k e [] h pos = ground (arith, cache_key_eq_iff k k)
evict-snoc max k e ((i, x) ∷ cache) h pos =
    elim (Bool-cases (ltb max (length ((i, x) ∷ (cache ++ ((k, e) ∷ [])))))) [
      | inl over ↦ rw over (evict-snoc max k e cache (ground (arith, h)) pos)
      | inr fits ↦
          rw fits (get-append k k e ((i, x) ∷ cache) h ∙ ground (arith, cache_key_eq_iff k k))
    ]

length-evict-le : (max : ℕ) (cache : Cache) → length (evict max cache) ≤ max
unfolding evict
length-evict-le max [] = omega arith
length-evict-le max (x ∷ cache) = ground (arith, length-evict-le max cache)

-- A set under a key leaves at most `_IDEMPOTENCY_CACHE_MAX` entries, and the next get under that
-- path and key finds the entry; with no key, or an empty one, nothing is kept.
pub cache_get-cache_set :
    (path key : Text) (e : CacheEntry) (cache : Cache)
    → key ≢ []
    → ((cache_get path (some key) (cache_set path (some key) e cache)).0 ≡ some e)
      × (length (cache_set path (some key) e cache) ≤ cache_max)
      × (cache_set path none e cache ≡ cache)
      × (cache_set path (some []) e cache ≡ cache)
unfolding cache_get cache_set cache_find move_to_end
cache_get-cache_set path key e cache ne =
    let k : CacheKey = (path, key) in
    let gone : text_eq key [] ≡ false = ground (arith, text_eq_iff key []) in
    let stored = Dict.put cache_key_eq k e cache in
    let absent =
      get-remove cache_key_eq cache_key_eq_iff k k stored ∙ ground (arith, cache_key_eq_iff k k) in
    let found = evict-snoc cache_max k e (Dict.remove cache_key_eq k stored) absent (omega arith) in
    (
      rw gone (ap (λ o. (cache_hit k (evict cache_max (move_to_end k e stored)) o).0) found),
      rw gone (length-evict-le cache_max (move_to_end k e stored)),
      refl,
      rw (text_eq_refl []) refl,
    )

hit_again :
    (k : CacheKey) (cache : Cache) (o : Option CacheEntry) (e : CacheEntry)
    → (cache_hit k cache o).0 ≡ some e
    → Dict.get cache_key_eq k (cache_hit k cache o).1 ≡ some e
unfolding move_to_end
hit_again k cache none e h = cc
hit_again k cache (some x) e h =
    get-append k k x (Dict.remove cache_key_eq k cache)
      (get-remove cache_key_eq cache_key_eq_iff k k cache ∙ ground (arith, cache_key_eq_iff k k))
    ∙ ground (arith, cache_key_eq_iff k k, h)

-- An entry that is put at the end after it is removed leaves what each key finds.
get-move_to_end :
    (k j : CacheKey) (e : CacheEntry) (cache : Cache)
    → Dict.get cache_key_eq k cache ≡ some e
    → Dict.get cache_key_eq j (move_to_end k e cache) ≡ Dict.get cache_key_eq j cache
unfolding move_to_end
get-move_to_end k j e cache h =
    let removed = get-remove cache_key_eq cache_key_eq_iff k j cache in
    elim (Bool-cases (cache_key_eq k j)) [
      | inl q ↦
          let same : k ≡ j = (cache_key_eq_iff k j).0 q in
          get-append j k e (Dict.remove cache_key_eq k cache) (removed ∙ rw q refl)
          ∙ (rw q (sym h ∙ ap (λ i. Dict.get cache_key_eq i cache) same))
      | inr q ↦ get-append_other j k e (Dict.remove cache_key_eq k cache) q ∙ removed ∙ rw q refl
    ]

hit_keeps :
    (k j : CacheKey) (cache : Cache) (o : Option CacheEntry)
    → Dict.get cache_key_eq k cache ≡ o
    → Dict.get cache_key_eq j (cache_hit k cache o).1 ≡ Dict.get cache_key_eq j cache
hit_keeps k j cache none h = refl
hit_keeps k j cache (some e) h = get-move_to_end k j e cache h

-- A get leaves what each key finds.
pub cache_get-keeps :
    (path key : Text) (cache : Cache) (j : CacheKey)
    → Dict.get cache_key_eq j (cache_get path (some key) cache).1 ≡ Dict.get cache_key_eq j cache
unfolding cache_get cache_find
cache_get-keeps path key cache j = elim (Bool-cases (text_eq key [])) [
  | inl empty ↦ rw empty refl
  | inr given ↦ rw given (hit_keeps (path, key) j cache _ refl)
]

-- What a get finds, the next get under the path and key finds too.
pub cache_get-again :
    (path : Text) (key : Text) (cache : Cache) (e : CacheEntry)
    → (cache_get path (some key) cache).0 ≡ some e
    → (cache_get path (some key) (cache_get path (some key) cache).1).0 ≡ some e
unfolding cache_get cache_find
cache_get-again path key cache e h = elim (Bool-cases (text_eq key [])) [
  | inl empty ↦ let h' = rw empty at h in cc
  | inr given ↦
      let k : CacheKey = (path, key) in
      let o = Dict.get cache_key_eq k cache in
      let h' : (cache_hit k cache o).0 ≡ some e = rw given at h in
      let next = (cache_hit k cache o).1 in
      rw given (ap (λ (x : Option CacheEntry). (cache_hit k next x).0) (hit_again k cache o e h'))
]
