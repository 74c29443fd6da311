-- ===== src/RuntimeMutex/Exclusion.antt =====
-- The interleavings of threads: a state is the registry of backend/app/services/runtime_mutex.py
-- with the holders, each a mutex and the thread inside its with block.
use nova_ve.Prelude.Dict.{get, remove, get-remove, Distinct, Distinct-remove}
use nova_ve.Prelude.{
  ℕ, ◌≡◌, refl, sym, ap, ◌∙◌, Bool, true, false, Option, none, some, List, [], ◌∷◌, arith,
  if◌then◌else◌,
}
use nova_ve.RuntimeMutex.{
  MutexKey, key_eq, key_eq_iff, RuntimeMutexRegistry, get_or_create, is_held, try_lock, release,
}
use nova_ve.RuntimeMutex.Brackets.{is_held-get_or_create, is_held-release, try_lock-Locks}

pub record Threads : Type 0 where
  pub registry : RuntimeMutexRegistry
  pub holders : List (MutexKey × ℕ)

abbrev pub start : Threads
start = record { registry = record { locks = []; node_locks = [] }; holders = [] }

-- What a thread may do: enter where its try succeeds, fail to enter, or leave the block it is in.
pub data Step (s : Threads) (u : Threads) : Type 0 where
  enter :
      (thread : ℕ) (k : MutexKey) (r : RuntimeMutexRegistry)
      → try_lock (get_or_create s.registry k) k ≡ some r
      → u ≡ record { registry = r; holders = (k, thread) ∷ s.holders }
      → Step s u
  fail : (k : MutexKey) → u ≡ record s { registry = get_or_create s.registry k } → Step s u
  leave :
      (thread : ℕ) (k : MutexKey)
      → get key_eq k s.holders ≡ some thread
      → u ≡ record { registry = release s.registry k; holders = remove key_eq k s.holders }
      → Step s u

pub data Reach : Threads → Type 0 where
  here : Reach start
  next : {s u : Threads} → Reach s → Step s u → Reach u

abbrev pub is_some : Option ℕ → Bool
is_some none = false
is_some (some t) = true

-- No mutex has two holders, and a mutex is held exactly where some thread is inside.
pub record IsExclusive (s : Threads) : Type 0 where
  pub alone : Distinct key_eq s.holders
  pub agrees : (k : MutexKey) → is_held s.registry k ≡ is_some (get key_eq k s.holders)

Step-IsExclusive : {s u : Threads} → Step s u → IsExclusive s → IsExclusive u
Step-IsExclusive {s} {u} (enter thread k r e q) x =
    let locks = try_lock-Locks (get_or_create s.registry k) k r e in
    let free : is_held s.registry k ≡ false =
      sym (is_held-get_or_create s.registry k k) ∙ locks.was_free in
    rw q (record {
      alone = (ground (arith, free, x.agrees k), x.alone);
      agrees = λ j.
          locks.held j
          ∙ ap (λ b. if key_eq k j then true else b)
              (is_held-get_or_create s.registry k j ∙ x.agrees j)
          ∙ (unfold get in ground arith);
    })
Step-IsExclusive {s} {u} (fail k q) x =
    rw q
      (record { alone = x.alone; agrees = λ j. is_held-get_or_create s.registry k j ∙ x.agrees j })
Step-IsExclusive {s} {u} (leave thread k e q) x = rw q (record {
  alone = Distinct-remove key_eq key_eq_iff k s.holders x.alone;
  agrees = λ j.
      is_held-release s.registry k j
      ∙ ap (λ b. if key_eq k j then false else b) (x.agrees j)
      ∙ sym (ap is_some (get-remove key_eq key_eq_iff k j s.holders) ∙ ground arith);
})

-- However the threads interleave, at most one thread is inside the block of each mutex, and
-- `is_held` is true of a mutex exactly while one is.
pub Reach-IsExclusive : {s : Threads} → Reach s → IsExclusive s
Reach-IsExclusive here = record { alone = tt; agrees = λ k. (unfold is_held get in refl) }
Reach-IsExclusive (next r st) = Step-IsExclusive st (Reach-IsExclusive r)
