-- ===== src/RuntimeMutex/Brackets.antt =====
-- What `acquire` and `release` of runtime_mutex.py do to what is held.
use nova_ve.Prelude.Dict.{get, put, get-put}
use nova_ve.Prelude.{
  ◌≡◌, refl, sym, ap, ◌∙◌, ◌⊎◌, Bool, true, false, Option, none, some, inl, inr, arith,
  if◌then◌else◌, Bool-cases,
}
use nova_ve.RuntimeMutex.{
  MutexKey, key_eq, key_eq_iff, RuntimeMutexRegistry, Acquired, entered, timed_out, contention,
  held_in, get_or_create, is_held, try_lock, acquire, release,
}

is_held-put :
    (r : RuntimeMutexRegistry) (k j : MutexKey) (b : Bool)
    → is_held (record r { locks = put key_eq k b r.locks }) j
      ≡ (if key_eq k j then b else is_held r j)
unfolding is_held
is_held-put r k j b =
    ap held_in (get-put key_eq key_eq_iff k j b r.locks)
    ∙ elim (Bool-cases (key_eq k j)) [ inl e ↦ rw e refl | inr e ↦ rw e refl ]

pub is_held-get_or_create :
    (r : RuntimeMutexRegistry) (k j : MutexKey) → is_held (get_or_create r k) j ≡ is_held r j
unfolding is_held get_or_create
is_held-get_or_create r k j = go (get key_eq k r.locks) refl
  where
    go :
        (o : Option Bool)
        → get key_eq k r.locks ≡ o
        → (let r' : RuntimeMutexRegistry = elim o [
          | none ↦ record r { locks = put key_eq k false r.locks }
          | some _ ↦ r
        ] in
            is_held r' j)
          ≡ is_held r j
    go none e = is_held-put r k j false ∙ elim (Bool-cases (key_eq k j)) [
      | inl same ↦
          rw same (sym (ap (λ i. is_held r i) (sym ((key_eq_iff k j).0 same)) ∙ ap held_in e))
      | inr other ↦ rw other refl
    ]
    go (some b) e = refl

pub is_held-release :
    (r : RuntimeMutexRegistry) (k j : MutexKey)
    → is_held (release r k) j ≡ (if key_eq k j then false else is_held r j)
unfolding release
is_held-release r k j = is_held-put r k j false

-- `r'` holds what `r` holds and `k`, which was free.
pub record Locks (r : RuntimeMutexRegistry) (k : MutexKey) (r' : RuntimeMutexRegistry)
    : Type 0 where
  pub was_free : is_held r k ≡ false
  pub held : (j : MutexKey) → is_held r' j ≡ (if key_eq k j then true else is_held r j)

-- A successful try was on a free mutex, and takes that one and no other.
pub try_lock-Locks :
    (r : RuntimeMutexRegistry) (k : MutexKey) (r' : RuntimeMutexRegistry)
    → try_lock r k ≡ some r'
    → Locks r k r'
unfolding try_lock
try_lock-Locks r k r' h = elim (Bool-cases (is_held r k)) [
  | inl busy ↦ absurd (ground (arith, busy))
  | inr idle ↦
      let e : record r { locks = put key_eq k true r.locks } ≡ r' = ground (arith, idle) in
      rw (← e) (record { was_free = idle; held = λ j. is_held-put r k j true })
]

pub try_lock-none :
    (r : RuntimeMutexRegistry) (k : MutexKey) → try_lock r k ≡ none → is_held r k ≡ true
unfolding try_lock
try_lock-none r k h = ground arith

-- What each outcome of `acquire` tells of what was held before the call, and after the wait.
abbrev pub Tells :
    (RuntimeMutexRegistry → RuntimeMutexRegistry)
    → RuntimeMutexRegistry
    → MutexKey
    → Acquired
    → Type 0
Tells waited r k (entered r') =
    Locks r k r' ⊎ ((is_held r k ≡ true) × Locks (waited (get_or_create r k)) k r')
Tells waited r k (timed_out c r') =
    (is_held r k ≡ true)
    × (is_held (waited (get_or_create r k)) k ≡ true)
    × (r' ≡ waited (get_or_create r k))
    × (c ≡ contention k.0 k.1 (some k.2))

Locks-created :
    (r : RuntimeMutexRegistry) (k : MutexKey) (r' : RuntimeMutexRegistry)
    → Locks (get_or_create r k) k r'
    → Locks r k r'
Locks-created r k r' l = record {
  was_free = sym (is_held-get_or_create r k k) ∙ l.was_free;
  held = λ j. l.held j ∙ ap (λ b. if key_eq k j then true else b) (is_held-get_or_create r k j);
}

-- An acquire enters with the mutex held and every other mutex as it was, at once where the mutex
-- was free and after the wait where it has become free; and it times out exactly where the mutex
-- is held at the call and still held when the wait ends, naming that interface and taking nothing.
pub acquire-Tells :
    (waited : RuntimeMutexRegistry → RuntimeMutexRegistry) (r : RuntimeMutexRegistry) (k : MutexKey)
    → Tells waited r k (acquire waited r k)
unfolding acquire
acquire-Tells waited r k = first (try_lock created k) refl
  where
    created : RuntimeMutexRegistry
    created = get_or_create r k

    second :
        (o : Option RuntimeMutexRegistry)
        → try_lock (waited created) k ≡ o
        → is_held r k ≡ true
        → Tells waited r k (elim o [
          | some r' ↦ entered r'
          | none ↦ timed_out (contention k.0 k.1 (some k.2)) (waited created)
        ])
    second none e busy = (busy, try_lock-none (waited created) k e, refl, refl)
    second (some r') e busy = inr (busy, try_lock-Locks (waited created) k r' e)

    first :
        (o : Option RuntimeMutexRegistry)
        → try_lock created k ≡ o
        → Tells waited r k (elim o [
          | some r' ↦ entered r'
          | none ↦ elim (try_lock (waited created) k) [
            | some r' ↦ entered r'
            | none ↦ timed_out (contention k.0 k.1 (some k.2)) (waited created)
          ]
        ])
    first none e =
        second (try_lock (waited created) k) refl
          (sym (is_held-get_or_create r k k) ∙ try_lock-none created k e)
    first (some r') e = inl (Locks-created r k r' (try_lock-Locks created k r' e))

-- A with block on a free mutex leaves every mutex as it was.
pub release-Locks :
    (r r' : RuntimeMutexRegistry) (k j : MutexKey)
    → Locks r k r'
    → is_held (release r' k) j ≡ is_held r j
release-Locks r r' k j l = is_held-release r' k j ∙ elim (Bool-cases (key_eq k j)) [
  | inl same ↦ rw same (sym l.was_free ∙ ap (is_held r) ((key_eq_iff k j).0 same))
  | inr other ↦ rw other (l.held j ∙ (rw other refl))
]
