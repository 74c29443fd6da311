-- ===== src/RuntimeMutex/Tests.antt =====
-- Runs of the mutexes of backend/app/services/runtime_mutex.py.
use nova_ve.Prelude.{◌≡◌, refl, true, none, some, [], ◌∷◌, codes, arith, text_eq}
use nova_ve.Prelude.Dict.{get, put}
use nova_ve.RuntimeMutex.{
  MutexKey, RuntimeMutexRegistry, free_lock, get_or_create, is_held, try_lock, acquire, NodeKey,
  node_lock_at, acquire_node, entered, timed_out, contention,
}
use nova_ve.RuntimeMutex.Brackets.{Tells, acquire-Tells}
use nova_ve.RuntimeMutex.Exclusion.{
  Threads, start, enter, here, next, IsExclusive, Reach-IsExclusive,
}
use nova_ve.RuntimeMutex.Reentry.{acquire_times, release_times, reentry}

abbrev eth0 : MutexKey
eth0 = (codes "a.json", 1, 0)

abbrev free : RuntimeMutexRegistry
free = record { locks = []; node_locks = [] }

abbrev taken : RuntimeMutexRegistry
taken = record { locks = (eth0, true) ∷ []; node_locks = [] }

try_eth0 : try_lock (get_or_create free eth0) eth0 ≡ some taken
unfolding try_lock get_or_create is_held get put text_eq
try_eth0 = refl

acquire-Tells_example : Tells (λ r. r) taken eth0 (acquire (λ r. r) taken eth0)
acquire-Tells_example = acquire-Tells (λ r. r) taken eth0

abbrev one_inside : Threads
one_inside = record { registry = taken; holders = (eth0, 5) ∷ [] }

Reach-IsExclusive_example : IsExclusive one_inside
Reach-IsExclusive_example =
    Reach-IsExclusive {s = one_inside} (next {s = start} here (enter 5 eth0 taken try_eth0 refl))

abbrev node_1 : NodeKey
node_1 = (codes "a.json", 1)

-- The lock of another node is held.
abbrev elsewhere : RuntimeMutexRegistry
elsewhere = record {
  locks = [];
  node_locks = ((codes "a.json", 2), record { owner = some 6; depth = 1 }) ∷ [];
}

node_1_free : node_lock_at elsewhere node_1 ≡ free_lock
unfolding node_lock_at get text_eq
node_1_free = refl

reentry_example :
    (s : RuntimeMutexRegistry) × (acquire_times 2 (λ r. r) 5 elsewhere node_1 ≡ entered s)
    × ((u : RuntimeMutexRegistry) × (acquire_node (λ r. r) 6 (release_times 1 s node_1) node_1
          ≡ timed_out (contention (codes "a.json") 1 none) u))
    × (node_lock_at (release_times 2 s node_1) node_1 ≡ free_lock)
reentry_example =
    reentry (λ r. r) 1 1 5 6 elsewhere node_1 (omega arith) (λ e. omega arith) (λ r d h. h)
      node_1_free
