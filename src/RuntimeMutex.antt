-- ===== src/RuntimeMutex.antt =====
-- backend/app/services/runtime_mutex.py: the registry of the mutexes of (lab, node, interface) and
-- of the re-entrant locks of (lab, node). A blocking acquire with a timeout tries at once, and
-- again on the registry that the other threads leave when the wait ends, `waited`.
pub mod Brackets
pub mod Exclusion
pub mod Reentry
mod Tests
use nova_ve.Prelude.Dict
use nova_ve.Prelude.{
  ℕ, suc, ◌-◌, ◌+◌, ◌≡◌, ◌↔◌, Bool, true, false, ◌&&◌, Option, none, some, List, [], ◌∷◌, arith,
  Text, text_eq, text_eq_iff, ◌==◌, if◌then◌else◌,
}

abbrev pub MutexKey : Type 0
MutexKey = Text × ℕ × ℕ

abbrev pub NodeKey : Type 0
NodeKey = Text × ℕ

abbrev pub key_eq : MutexKey → MutexKey → Bool
key_eq (l, n, i) (m, o, j) = text_eq l m && (n == o && i == j)

abbrev pub node_key_eq : NodeKey → NodeKey → Bool
node_key_eq (l, n) (m, o) = text_eq l m && n == o

pub key_eq_iff : (a b : MutexKey) → (key_eq a b ≡ true) ↔ (a ≡ b)
key_eq_iff (l, n, i) (m, o, j) = ground (arith, text_eq_iff l m)

pub node_key_eq_iff : (a b : NodeKey) → (node_key_eq a b ≡ true) ↔ (a ≡ b)
node_key_eq_iff (l, n) (m, o) = ground (arith, text_eq_iff l m)

-- `threading.RLock`: the thread that owns it, and how often it has entered.
pub record NodeLock : Type 0 where
  pub owner : Option ℕ
  pub depth : ℕ

-- A `threading.Lock` is whether it is locked.
pub record RuntimeMutexRegistry : Type 0 where
  pub locks : List (MutexKey × Bool)
  pub node_locks : List (NodeKey × NodeLock)

-- `RuntimeMutexContention`, with its interface index; the node-scoped lock has none.
pub data RuntimeMutexContention : Type 0 where
  contention : Text → ℕ → Option ℕ → RuntimeMutexContention

pub data Acquired : Type 0 where
  entered : RuntimeMutexRegistry → Acquired
  timed_out : RuntimeMutexContention → RuntimeMutexRegistry → Acquired

-- `_get_or_create`
unfoldable pub get_or_create : RuntimeMutexRegistry → MutexKey → RuntimeMutexRegistry
get_or_create r k = elim (Dict.get key_eq k r.locks) [
  | none ↦ record r { locks = Dict.put key_eq k false r.locks }
  | some _ ↦ r
]

abbrev pub held_in : Option Bool → Bool
held_in none = false
held_in (some locked) = locked

-- `is_held`
unfoldable pub is_held : RuntimeMutexRegistry → MutexKey → Bool
is_held r k = held_in (Dict.get key_eq k r.locks)

-- `lock.acquire(blocking=False)`, with the registry in which it has succeeded
unfoldable pub try_lock : RuntimeMutexRegistry → MutexKey → Option RuntimeMutexRegistry
try_lock r k =
    if is_held r k then none else some (record r { locks = Dict.put key_eq k true r.locks })

-- `acquire_sync` and `acquire`: one more try when the wait has ended, then contention.
unfoldable pub acquire :
    (RuntimeMutexRegistry → RuntimeMutexRegistry) → RuntimeMutexRegistry → MutexKey → Acquired
acquire waited r k =
    let created = get_or_create r k in
    elim (try_lock created k) [
      | some r' ↦ entered r'
      | none ↦ elim (try_lock (waited created) k) [
        | some r' ↦ entered r'
        | none ↦ timed_out (contention k.0 k.1 (some k.2)) (waited created)
      ]
    ]

-- `lock.release()` at the end of the with block
unfoldable pub release : RuntimeMutexRegistry → MutexKey → RuntimeMutexRegistry
release r k = record r { locks = Dict.put key_eq k false r.locks }

abbrev pub free_lock : NodeLock
free_lock = record { owner = none; depth = 0 }

-- `_get_or_create_node_lock`, the lock found or made
unfoldable pub node_lock_at : RuntimeMutexRegistry → NodeKey → NodeLock
node_lock_at r k = elim (Dict.get node_key_eq k r.node_locks) [ none ↦ free_lock | some l ↦ l ]

-- `RLock.acquire(blocking=False)` by a thread
unfoldable pub enter_node_lock : ℕ → NodeLock → Option NodeLock
enter_node_lock thread l = elim l.owner [
  | none ↦ some (record { owner = some thread; depth = 1 })
  | some t ↦ if t == thread then some (record l { depth = l.depth + 1 }) else none
]

-- `RLock.release()`
unfoldable pub leave_node_lock : NodeLock → NodeLock
leave_node_lock l = if l.depth == 1 then free_lock else record l { depth = l.depth - 1 }

unfoldable pub store_node_lock : RuntimeMutexRegistry → NodeKey → NodeLock → RuntimeMutexRegistry
store_node_lock r k l = record r { node_locks = Dict.put node_key_eq k l r.node_locks }

abbrev pub node_tried_again : RuntimeMutexRegistry → NodeKey → Option NodeLock → Acquired
node_tried_again r k (some l) = entered (store_node_lock r k l)
node_tried_again r k none = timed_out (contention k.0 k.1 none) r

abbrev pub node_tried :
    (RuntimeMutexRegistry → RuntimeMutexRegistry)
    → ℕ
    → RuntimeMutexRegistry
    → NodeKey
    → Option NodeLock
    → Acquired
node_tried waited thread r k (some l) = entered (store_node_lock r k l)
node_tried waited thread r k none =
    node_tried_again (waited r) k (enter_node_lock thread (node_lock_at (waited r) k))

-- `acquire_node_sync`
unfoldable pub acquire_node :
    (RuntimeMutexRegistry → RuntimeMutexRegistry) → ℕ → RuntimeMutexRegistry → NodeKey → Acquired
acquire_node waited thread r k =
    let created = store_node_lock r k (node_lock_at r k) in
    node_tried waited thread created k (enter_node_lock thread (node_lock_at created k))

unfoldable pub release_node : RuntimeMutexRegistry → NodeKey → RuntimeMutexRegistry
release_node r k = store_node_lock r k (leave_node_lock (node_lock_at r k))

-- `reset`
unfoldable pub reset : RuntimeMutexRegistry → RuntimeMutexRegistry
reset r = record { locks = []; node_locks = [] }
