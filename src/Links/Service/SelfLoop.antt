-- ===== src/Links/Service/SelfLoop.antt =====
-- A link from an interface to itself (`create_link` of backend/app/services/link_service.py).
use nova_ve.Prelude.{
  ℕ, ◌≡◌, refl, ◌∙◌, inl, inr, true, false, Option, none, some, List, [], ◌∷◌, arith, Text,
}
use nova_ve.Lab.{Endpoint}
use nova_ve.LabPath.{normalize_relative_lab_path}
use nova_ve.RuntimeMutex.{
  MutexKey, key_eq_iff, RuntimeMutexRegistry, Acquired, entered, timed_out, acquire, get_or_create,
  is_held,
}
use nova_ve.RuntimeMutex.Brackets.{Tells, acquire-Tells, is_held-get_or_create}
use nova_ve.Ipam.Store.{read_lab}
use nova_ve.Links.Keys.{node_key, normalize_endpoint}
use nova_ve.Links.Create.{link_contention, Result, err}
use nova_ve.Links.Cache.{CacheEntry, Cache, cache_get}
use nova_ve.Links.Service.{
  World, Environment, runtime_mutex_lab_id, node_keys, pair_lt, insert_pair, sort_pairs, mutex_key,
  Stacked, all_entered, contended, released_if_contended, acquire_all,
}
use nova_ve.Links.Service.CreateLink.{
  create_looked_up, create_normalized, create_link, under_mutexes, mutex_keys, create_link_locked,
}

-- What the other threads do while a call waits leaves the mutexes that the call holds.
abbrev pub RespectsHeld : Environment → Type 0
RespectsHeld env =
    (k : MutexKey) (r : RuntimeMutexRegistry)
    → is_held r k ≡ true
    → is_held (env.waited (k ∷ []) r) k ≡ true

abbrev IsContended : Stacked → Type 0
IsContended (all_entered r) = ⊥
IsContended (contended r) = Unit

IsContended-released_if_contended :
    (k : MutexKey) (s : Stacked) → IsContended s → IsContended (released_if_contended k s)
IsContended-released_if_contended k (all_entered r) h = absurd h
IsContended-released_if_contended k (contended r) h = tt

-- An acquire of a mutex that the call holds times out.
no_entry :
    (env : Environment) (r : RuntimeMutexRegistry) (k : MutexKey) (a : Acquired)
    → RespectsHeld env
    → is_held r k ≡ true
    → Tells (env.waited (k ∷ [])) r k a
    → IsContended (elim a [
      | timed_out c r' ↦ contended r'
      | entered r' ↦ released_if_contended k (acquire_all env (k ∷ (k ∷ [])) r' [])
    ])
no_entry env r k (timed_out c r') law held t = tt
no_entry env r k (entered r') law held (inl t) =
    let free = t.was_free in absurd (ground (arith, free, held))
no_entry env r k (entered r') law held (inr (busy, t)) =
    let free = t.was_free in
    let still = law k (get_or_create r k) (is_held-get_or_create r k k ∙ held) in
    absurd (ground (arith, free, still))

first_entry :
    (env : Environment) (r : RuntimeMutexRegistry) (k : MutexKey) (a : Acquired)
    → RespectsHeld env
    → Tells (env.waited []) r k a
    → IsContended (elim a [
      | timed_out c r' ↦ contended r'
      | entered r' ↦ released_if_contended k (acquire_all env (k ∷ []) r' (k ∷ []))
    ])
unfolding acquire_all
first_entry env r k (timed_out c r') law t = tt
first_entry env r k (entered r') law t = IsContended-released_if_contended k _ (
    no_entry env r' k (acquire (env.waited (k ∷ [])) r' k) law (now_held t)
      (acquire-Tells (env.waited (k ∷ [])) r' k))
  where
    now_held : Tells (env.waited []) r k (entered r') → is_held r' k ≡ true
    now_held (inl l) = l.held k ∙ ground (arith, key_eq_iff k k)
    now_held (inr (busy, l)) = l.held k ∙ ground (arith, key_eq_iff k k)

twice :
    (env : Environment) (r : RuntimeMutexRegistry) (k : MutexKey)
    → RespectsHeld env
    → IsContended (acquire_all env [] r (k ∷ (k ∷ [])))
unfolding acquire_all
twice env r k law =
    first_entry env r k (acquire (env.waited []) r k) law (acquire-Tells (env.waited []) r k)

mutexes_contended :
    {A : Type 0} (w : World) (keys : List MutexKey) (s : Stacked) (body : World → Result A × World)
    → IsContended s
    → ((under_mutexes w keys s body).0 ≡ err link_contention)
      × ((under_mutexes w keys s body).1.labs ≡ w.labs)
mutexes_contended w keys (all_entered r) body h = absurd h
mutexes_contended w keys (contended r) body h = (refl, refl)

same_keys :
    (n i : ℕ) → sort_pairs (node_keys (node_key n i ∷ (node_key n i ∷ []))) ≡ (n, i) ∷ ((n, i) ∷ [])
unfolding sort_pairs insert_pair node_keys
same_keys n i = let e : pair_lt (n, i) (n, i) ≡ false = ground arith in rw e refl

-- A call whose key is not in the cache goes on.
missed :
    (env : Environment) (w : World) (path : Text) (from to : Endpoint) (style key : Option Text)
    (found : Option CacheEntry × Cache)
    → found.0 ≡ none
    → create_looked_up env w path from to style key found
      ≡ create_normalized env w path (normalize_endpoint from) (normalize_endpoint to) style key
missed env w path from to style key (none, cache) h = refl
missed env w path from to style key (some e, cache) h = cc

-- A link from an interface to itself that is asked for with no idempotency key, or with one that the
-- cache does not hold, is refused with a contention, and writes no lab file, on every lab and
-- whether or not the interface is free, where the other threads leave a mutex that the call holds:
-- the call acquires the interface's mutex twice.
pub create_link-self_loop :
    (env : Environment) (w : World) (lab_path path : Text) (from to : Endpoint)
    (style key : Option Text) (n i : ℕ)
    → RespectsHeld env
    → (cache_get path key w.cache).0 ≡ none
    → normalize_relative_lab_path lab_path ≡ some path
    → normalize_endpoint from ≡ some (node_key n i)
    → normalize_endpoint to ≡ some (node_key n i)
    → ((create_link env w lab_path from to style key).0 ≡ err link_contention)
      × ((create_link env w lab_path from to style key).1.labs ≡ w.labs)
unfolding create_link mutex_keys
create_link-self_loop env w lab_path path from to style key n i law miss p q q' =
    rw
      (
        p,
        missed env w path from to style key (cache_get path key w.cache) miss,
        q,
        q',
        same_keys n i,
      )
      (mutexes_contended w _ _
        (λ v. create_link_locked env v path (node_key n i) (node_key n i) style key)
        (twice env w.mutex (mutex_key (runtime_mutex_lab_id (read_lab path w.labs) path) (n, i))
          law))
