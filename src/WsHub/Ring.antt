-- ===== src/WsHub/Ring.antt =====
-- The ring of a lab (ws_hub.py) against the list of every event published to that lab, over any
-- interleaving of the critical sections of `publish`, `subscribe` and `unsubscribe`.
use mathlib.Core.List.{append-nil, append_assoc}
use mathlib.Core.Path.{subst}
use nova_ve.Prelude.Dict.{get, get-put}
use nova_ve.Prelude.{
  ℕ, zero, suc, ◌+◌, ◌-◌, ◌≡◌, refl, sym, ap, ◌∙◌, true, false, Option, none, some, List, [], ◌∷◌,
  ◌++◌, inl, inr, arith, Text, text_eq, text_eq_iff, if◌then◌else◌, length, drop, length-append,
  length-drop, drop-append, drop-drop, drop_all, Bool-cases,
}
use nova_ve.WsHub.{
  WsEvent, LabState, WsHub, fresh_state, push_ring, discard_all, set_discard, state_of,
  get_or_create, store_state, publish_locked, drop_dead, subscribe, unsubscribe,
}

-- One critical section, whole; between two of them any other coroutine may run.
pub data Op (P : Type 0) : Type 0 where
  publish_section : Text → Text → P → Text → Op P
  drop_section : Text → List ℕ → Op P
  subscribe_section : Text → ℕ → Op P
  unsubscribe_section : Text → ℕ → Op P

-- The events are numbered from `n` on, with no gap.
abbrev pub Numbered : {P : Type 0} → ℕ → List (WsEvent P) → Type 0
Numbered n [] = Unit
Numbered n (e ∷ es) = (e.seq ≡ n) × Numbered (suc n) es

pub record Tracks {P : Type 0} (size : ℕ) (h : List (WsEvent P)) (s : LabState P) : Type 0 where
  pub window : s.events ≡ drop (length h - size) h
  pub next : s.next_seq ≡ length h + 1
  pub numbered : Numbered 1 h

abbrev pub TracksIn : {P : Type 0} → ℕ → List (WsEvent P) → Option (LabState P) → Type 0
TracksIn size h none = h ≡ []
TracksIn size h (some s) = Tracks size h s

module _ {P : Type 0} where
  pub Numbered-drop : (k n : ℕ) (h : List (WsEvent P)) → Numbered n h → Numbered (k + n) (drop k h)
  Numbered-drop zero n h d = let e : n ≡ 0 + n = omega arith in rw e at d
  Numbered-drop (suc k) n [] d = tt
  Numbered-drop (suc k) n (x ∷ h) d =
      let e : k + suc n ≡ suc k + n = omega arith in rw e at (Numbered-drop k (suc n) h d.1)

  Numbered-append :
      (n : ℕ) (h : List (WsEvent P)) (e : WsEvent P)
      → Numbered n h
      → e.seq ≡ length h + n
      → Numbered n (h ++ (e ∷ []))
  Numbered-append n [] e d q = (omega arith, tt)
  Numbered-append n (x ∷ h) e d q = (d.0, Numbered-append (suc n) h e d.1 (omega arith))

  -- To keep the last `size` of the kept and the new event is to keep the last `size` of them all.
  push_ring-drop :
      (size : ℕ) (h : List (WsEvent P)) (e : WsEvent P)
      → push_ring size (drop (length h - size) h) e
        ≡ drop (length (h ++ (e ∷ [])) - size) (h ++ (e ∷ []))
  unfolding push_ring
  push_ring-drop size h e =
      let k = length h - size in
      let le : k + length (drop k h) ≡ length h = omega (arith, length-drop k h) in
      let all = drop k h ++ (e ∷ []) in
      let m : length all ≡ length (drop k h) + 1 = length-append (drop k h) (e ∷ []) in
      let n : length (h ++ (e ∷ [])) ≡ length h + 1 = length-append h (e ∷ []) in
      ap (drop (length all - size)) (sym (drop-append k h (e ∷ []) (omega arith)))
      ∙ drop-drop (length all - size) k (h ++ (e ∷ []))
      ∙ ap (λ j. drop j (h ++ (e ∷ []))) (omega arith)

  unfoldable pub apply : WsHub P → Op P → WsHub P
  unfolding publish_locked drop_dead subscribe unsubscribe
  apply hub (publish_section lab t p rev) = (publish_locked hub lab t p rev).0
  apply hub (drop_section lab dead) = drop_dead hub lab dead
  apply hub (subscribe_section lab ws) = subscribe hub lab ws
  apply hub (unsubscribe_section lab ws) = unsubscribe hub lab ws

  unfoldable pub run : WsHub P → List (Op P) → WsHub P
  run hub [] = hub
  run hub (op ∷ ops) = run (apply hub op) ops

  -- What the operation publishes to the lab, under the number `n`.
  unfoldable pub published_by : Text → ℕ → Op P → List (WsEvent P)
  published_by lab n (publish_section l t p r) =
      if text_eq l lab then record { seq = n; event_type = t; rev = r; payload = p } ∷ [] else []
  published_by lab n _ = []

  -- The history of a lab: all that is published to it, numbered from `n` on.
  unfoldable pub published : Text → ℕ → List (Op P) → List (WsEvent P)
  unfolding published_by
  published lab n [] = []
  published lab n (op ∷ ops) =
      let now = published_by lab n op in now ++ published lab (length now + n) ops

  abbrev At : Text → List (WsEvent P) → WsHub P → Type 0
  At lab h hub = TracksIn hub.ring_size h (state_of hub lab)

  At-store :
      (lab l : Text) (h : List (WsEvent P)) (hub : WsHub P) (s : LabState P)
      → (text_eq l lab ≡ false → At lab h hub)
      → (text_eq l lab ≡ true → Tracks hub.ring_size h s)
      → At lab h (store_state hub l s)
  unfolding state_of store_state
  At-store lab l h hub s a t = elim (Bool-cases (text_eq l lab)) [
    | inl e ↦ rw (get-put text_eq text_eq_iff l lab s hub.labs, e) (t e)
    | inr e ↦ rw (get-put text_eq text_eq_iff l lab s hub.labs, e) (a e)
  ]

  Tracks-found :
      (lab l : Text) (h : List (WsEvent P)) (hub : WsHub P)
      → At lab h hub
      → text_eq l lab ≡ true
      → Tracks hub.ring_size h (get_or_create hub l)
  unfolding get_or_create
  Tracks-found lab l h hub a same = rw ((text_eq_iff l lab).0 same) (go (state_of hub lab) a)
    where
      go :
          (o : Option (LabState P))
          → TracksIn hub.ring_size h o
          → Tracks hub.ring_size h (elim o [ none ↦ fresh_state | some s ↦ s ])
      go none e =
          rw e (record { window = sym (drop_all _ [] (omega arith)); next = refl; numbered = tt })
      go (some s) t = t

  Tracks-publish :
      (size : ℕ) (h : List (WsEvent P)) (s : LabState P) (e : WsEvent P) (n : ℕ)
      → Tracks size h s
      → e.seq ≡ length h + 1
      → n ≡ length h + 1 + 1
      → Tracks size (h ++ (e ∷ [])) (record s { events = push_ring size s.events e; next_seq = n })
  Tracks-publish size h s e n tr q r = record {
    window = ap (λ w. push_ring size w e) tr.window ∙ push_ring-drop size h e;
    next = omega (arith, length-append h (e ∷ []));
    numbered = Numbered-append 1 h e tr.numbered q;
  }

  At-publish :
      (lab l t : Text) (p : P) (rev : Text) (h : List (WsEvent P)) (hub : WsHub P)
      → At lab h hub
      → At lab
          (h ++ published_by lab (length h + 1) (publish_section l t p rev))
          (publish_locked hub l t p rev).0
  unfolding publish_locked published_by push_ring
  At-publish lab l t p rev h hub a = elim (Bool-cases (text_eq l lab)) [
    | inl e ↦ rw e (
        At-store lab l _ hub _ (λ f. cc)
          (λ _.
            let tr = Tracks-found lab l h hub a e in
            rw tr.next (Tracks-publish hub.ring_size h (get_or_create hub l) _ _ tr refl refl)))
    | inr e ↦ rw (e, append-nil) (At-store lab l _ hub _ (λ _. a) (λ f. cc))
  ]

  -- A found state that is stored back with other subscribers.
  At-update :
      (lab l : Text) (h : List (WsEvent P)) (hub : WsHub P) (f : List ℕ → List ℕ)
      → At lab h hub
      → At lab h (elim (state_of hub l) [
        | none ↦ hub
        | some s ↦ store_state hub l (record s { subscribers = f s.subscribers })
      ])
  At-update lab l h hub f a = go (state_of hub l) refl
    where
      go :
          (o : Option (LabState P))
          → state_of hub l ≡ o
          → At lab h (elim o [
            | none ↦ hub
            | some s ↦ store_state hub l (record s { subscribers = f s.subscribers })
          ])
      go none e = a
      go (some s) e =
          At-store lab l h hub _ (λ _. a)
            (λ same.
              let found : TracksIn hub.ring_size h (some s) =
                subst (TracksIn hub.ring_size h)
                  (ap (state_of hub) (sym ((text_eq_iff l lab).0 same)) ∙ e) a in
              record { window = found.window; next = found.next; numbered = found.numbered })

  At-apply :
      (lab : Text) (op : Op P) (h : List (WsEvent P)) (hub : WsHub P)
      → At lab h hub
      → At lab (h ++ published_by lab (length h + 1) op) (apply hub op)
  unfolding apply published_by
  At-apply lab (publish_section l t p rev) h hub a = At-publish lab l t p rev h hub a
  At-apply lab (drop_section l []) h hub a = rw append-nil a
  At-apply lab (drop_section l (ws ∷ dead)) h hub a =
      rw append-nil (At-update lab l h hub (discard_all (ws ∷ dead)) a)
  At-apply lab (subscribe_section l ws) h hub a = rw append-nil (
      At-store lab l h hub _ (λ _. a)
        (λ same.
          let found = Tracks-found lab l h hub a same in
          record { window = found.window; next = found.next; numbered = found.numbered }))
  At-apply lab (unsubscribe_section l ws) h hub a =
      rw append-nil (At-update lab l h hub (set_discard ws) a)

  ring_size-apply : (hub : WsHub P) (op : Op P) → (apply hub op).ring_size ≡ hub.ring_size
  unfolding apply store_state
  ring_size-apply hub (drop_section l []) = refl
  ring_size-apply hub _ = ground arith

  ring_size-run : (ops : List (Op P)) (hub : WsHub P) → (run hub ops).ring_size ≡ hub.ring_size
  unfolding run
  ring_size-run [] hub = refl
  ring_size-run (op ∷ ops) hub = ring_size-run ops (apply hub op) ∙ ring_size-apply hub op

  At-run :
      (lab : Text) (ops : List (Op P)) (h : List (WsEvent P)) (hub : WsHub P)
      → At lab h hub
      → At lab (h ++ published lab (length h + 1) ops) (run hub ops)
  unfolding run published
  At-run lab [] h hub a = rw append-nil a
  At-run lab (op ∷ ops) h hub a =
      let now = published_by lab (length h + 1) op in
      let e : length (h ++ now) + 1 ≡ length now + (length h + 1) =
        omega (arith, length-append h now) in
      rw (← append_assoc, ← e) (At-run lab ops (h ++ now) (apply hub op) (At-apply lab op h hub a))

  -- `WsHub(ring_size)`
  abbrev pub new_hub : ℕ → WsHub P
  new_hub size = record { ring_size = size; labs = [] }

  -- Whatever critical sections have run, in whatever order, the ring of a lab holds exactly the
  -- last `ring_size` events published to that lab, the history is numbered from 1 with no gap,
  -- and the next number is one more than the number of events published; a lab with no state has
  -- had no event.
  pub run-TracksIn :
      (size : ℕ) (ops : List (Op P)) (lab : Text)
      → TracksIn size (published lab 1 ops) (state_of (run (new_hub size) ops) lab)
  unfolding state_of get
  run-TracksIn size ops lab =
      let e : (run (new_hub size) ops).ring_size ≡ size = ring_size-run ops (new_hub size) in
      rw e at (At-run lab ops [] (new_hub size) refl)
