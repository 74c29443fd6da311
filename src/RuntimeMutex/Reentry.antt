-- ===== src/RuntimeMutex/Reentry.antt =====
-- Nested with blocks on a node-scoped lock of backend/app/services/runtime_mutex.py, as runs of
-- `acquire_node` and `release_node` on the registry.
use nova_ve.Prelude.Dict.{get-put}
use nova_ve.Prelude.{
  ℕ, zero, suc, ◌+◌, ◌-◌, ◌≤◌, ◌≡◌, ◌≢◌, refl, ap, ◌∙◌, true, false, Option, none, some, arith,
  ◌==◌,
}
use nova_ve.RuntimeMutex.{
  NodeKey, node_key_eq, node_key_eq_iff, RuntimeMutexRegistry, Acquired, entered, timed_out,
  contention, NodeLock, free_lock, node_lock_at, enter_node_lock, leave_node_lock, store_node_lock,
  node_tried, node_tried_again, acquire_node, release_node,
}

abbrev pub owned : ℕ → ℕ → NodeLock
owned thread depth = record { owner = some thread; depth = depth }

abbrev pub Waited : Type 0
Waited = RuntimeMutexRegistry → RuntimeMutexRegistry

-- `n` nested with blocks are entered, and `n` are left.
abbrev acquire_again : (RuntimeMutexRegistry → Acquired) → Acquired → Acquired
acquire_again next (entered r) = next r
acquire_again next (timed_out c r) = timed_out c r

unfoldable pub acquire_times : ℕ → Waited → ℕ → RuntimeMutexRegistry → NodeKey → Acquired
acquire_times zero waited thread r k = entered r
acquire_times (suc n) waited thread r k =
    acquire_again (λ s. acquire_times n waited thread s k) (acquire_node waited thread r k)

unfoldable pub release_times : ℕ → RuntimeMutexRegistry → NodeKey → RuntimeMutexRegistry
release_times zero r k = r
release_times (suc n) r k = release_times n (release_node r k) k

abbrev lock_of : Option NodeLock → NodeLock
lock_of none = free_lock
lock_of (some l) = l

node_lock_at-store :
    (r : RuntimeMutexRegistry) (k : NodeKey) (l : NodeLock)
    → node_lock_at (store_node_lock r k l) k ≡ l
unfolding node_lock_at store_node_lock
node_lock_at-store r k l =
    let same : node_key_eq k k ≡ true = (node_key_eq_iff k k).1 refl in
    ap lock_of (get-put node_key_eq node_key_eq_iff k k l r.node_locks) ∙ rw same refl

-- An acquire that the lock lets in
acquire_node-enters :
    (waited : Waited) (thread : ℕ) (r : RuntimeMutexRegistry) (k : NodeKey) (l : NodeLock)
    → enter_node_lock thread (node_lock_at r k) ≡ some l
    → (s : RuntimeMutexRegistry) × (acquire_node waited thread r k ≡ entered s)
      × (node_lock_at s k ≡ l)
unfolding acquire_node
acquire_node-enters waited thread r k l h =
    let created = store_node_lock r k (node_lock_at r k) in
    let e : enter_node_lock thread (node_lock_at created k) ≡ some l =
      ap (enter_node_lock thread) (node_lock_at-store r k (node_lock_at r k)) ∙ h in
    (
      store_node_lock created k l,
      ap (node_tried waited thread created k) e,
      node_lock_at-store created k l,
    )

enter_owned : (thread d : ℕ) → enter_node_lock thread (owned thread d) ≡ some (owned thread (d + 1))
unfolding enter_node_lock
enter_owned thread d = let e : (thread == thread) ≡ true = ground arith in rw e refl

enter_free : (thread : ℕ) → enter_node_lock thread free_lock ≡ some (owned thread 1)
unfolding enter_node_lock
enter_free thread = refl

acquire_times-owned :
    (n : ℕ) (waited : Waited) (thread d : ℕ) (r : RuntimeMutexRegistry) (k : NodeKey)
    → node_lock_at r k ≡ owned thread d
    → (s : RuntimeMutexRegistry) × (acquire_times n waited thread r k ≡ entered s)
      × (node_lock_at s k ≡ owned thread (d + n))
unfolding acquire_times
acquire_times-owned zero waited thread d r k h = (r, refl, h ∙ ap (owned thread) (omega arith))
acquire_times-owned (suc n) waited thread d r k h =
    let (s, e, at) =
      acquire_node-enters waited thread r k (owned thread (d + 1))
        (ap (enter_node_lock thread) h ∙ enter_owned thread d) in
    let (u, f, last) = acquire_times-owned n waited thread (d + 1) s k at in
    (
      u,
      ap (acquire_again (λ s. acquire_times n waited thread s k)) e ∙ f,
      last ∙ ap (owned thread) (omega arith),
    )

leave_owned : (thread d : ℕ) → leave_node_lock (owned thread (suc (suc d))) ≡ owned thread (suc d)
unfolding leave_node_lock
leave_owned thread d =
    let e : (suc (suc d) == 1) ≡ false = ground arith in
    let p : suc (suc d) - 1 ≡ suc d = omega arith in rw (e, p) refl

release_times-owned :
    (m thread d : ℕ) (r : RuntimeMutexRegistry) (k : NodeKey)
    → node_lock_at r k ≡ owned thread (suc d + m)
    → node_lock_at (release_times m r k) k ≡ owned thread (suc d)
unfolding release_times release_node
release_times-owned zero thread d r k h = h ∙ ap (owned thread) (omega arith)
release_times-owned (suc m) thread d r k h = release_times-owned m thread d (release_node r k) k (
    node_lock_at-store r k (leave_node_lock (node_lock_at r k))
    ∙ ap leave_node_lock
        (h ∙ ap (owned thread) (let e : suc d + suc m ≡ suc (suc (d + m)) = omega arith in e))
    ∙ leave_owned thread (d + m)
    ∙ ap (owned thread) (let e : suc (d + m) ≡ suc d + m = omega arith in e))

release_times-suc :
    (n : ℕ) (r : RuntimeMutexRegistry) (k : NodeKey)
    → release_times (suc n) r k ≡ release_node (release_times n r k) k
unfolding release_times
release_times-suc zero r k = refl
release_times-suc (suc n) r k = release_times-suc n (release_node r k) k

node_lock_at-release :
    (r : RuntimeMutexRegistry) (k : NodeKey)
    → node_lock_at (release_node r k) k ≡ leave_node_lock (node_lock_at r k)
unfolding release_node
node_lock_at-release r k = node_lock_at-store r k (leave_node_lock (node_lock_at r k))

leave_last : (thread : ℕ) → leave_node_lock (owned thread 1) ≡ free_lock
unfolding leave_node_lock
leave_last thread = refl

enter_other : (other thread d : ℕ) → other ≢ thread → enter_node_lock other (owned thread d) ≡ none
unfolding enter_node_lock
enter_other other thread d ne = let e : (thread == other) ≡ false = ground arith in rw e refl

-- The owner is inside during the whole wait of another thread.
abbrev pub StaysOwned : NodeKey → ℕ → Waited → Type 0
StaysOwned k thread waited =
    (r : RuntimeMutexRegistry) (d : ℕ)
    → node_lock_at r k ≡ owned thread d
    → node_lock_at (waited r) k ≡ owned thread d

acquire_node-contention :
    (waited : Waited) (thread other d : ℕ) (r : RuntimeMutexRegistry) (k : NodeKey)
    → other ≢ thread
    → StaysOwned k thread waited
    → node_lock_at r k ≡ owned thread d
    → (s : RuntimeMutexRegistry) × (acquire_node waited other r k
        ≡ timed_out (contention k.0 k.1 none) s)
unfolding acquire_node
acquire_node-contention waited thread other d r k ne stays h =
    let created = store_node_lock r k (node_lock_at r k) in
    let at : node_lock_at created k ≡ owned thread d =
      node_lock_at-store r k (node_lock_at r k) ∙ h in
    let e = ap (enter_node_lock other) at ∙ enter_other other thread d ne in
    let f = ap (enter_node_lock other) (stays created d at) ∙ enter_other other thread d ne in
    (
      waited created,
      ap (node_tried waited other created k) e ∙ ap (node_tried_again (waited created) k) f,
    )

-- A thread that finds the lock of a node free can acquire it any number of times, one with block in
-- the other; until it has released as often, an acquire of another thread ends in a contention,
-- where the owner stays inside during its wait; and then the lock is free again.
pub reentry :
    (waited : Waited) (n m thread other : ℕ) (r : RuntimeMutexRegistry) (k : NodeKey)
    → m ≤ n
    → other ≢ thread
    → StaysOwned k thread waited
    → node_lock_at r k ≡ free_lock
    → (s : RuntimeMutexRegistry) × (acquire_times (suc n) waited thread r k ≡ entered s)
      × ((u : RuntimeMutexRegistry) × (acquire_node waited other (release_times m s k) k
            ≡ timed_out (contention k.0 k.1 none) u))
      × (node_lock_at (release_times (suc n) s k) k ≡ free_lock)
unfolding acquire_times
reentry waited n m thread other r k le ne stays free =
    let (first, e, at) =
      acquire_node-enters waited thread r k (owned thread 1)
        (ap (enter_node_lock thread) free ∙ enter_free thread) in
    let (s, f, depth) = acquire_times-owned n waited thread 1 first k at in
    let inner =
      release_times-owned m thread (n - m) s k (depth ∙ ap (owned thread) (omega arith)) in
    let last = release_times-owned n thread 0 s k (depth ∙ ap (owned thread) (omega arith)) in
    (
      s,
      ap (acquire_again (λ u. acquire_times n waited thread u k)) e ∙ f,
      acquire_node-contention waited thread other (suc (n - m)) (release_times m s k) k ne stays
          inner,
      ap (λ u. node_lock_at u k) (release_times-suc n s k)
          ∙ node_lock_at-release (release_times n s k) k
          ∙ ap leave_node_lock last
          ∙ leave_last thread,
    )
