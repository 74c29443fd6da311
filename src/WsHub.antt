-- ===== src/WsHub.antt =====
-- backend/app/services/ws_hub.py: the per-lab event ring, its subscribers and the replay of missed
-- events. Sockets are numbers, and `send` says which of them accept a message.
pub mod Ring
pub mod Replay
pub mod Subscribers
mod Tests
use nova_ve.Prelude.Dict
use nova_ve.Prelude.{
  ℕ, suc, ◌+◌, ◌-◌, Bool, true, false, not, Option, none, some, List, [], ◌∷◌, ◌++◌, Text, text_eq,
  ltb, ◌==◌, if◌then◌else◌, length, drop, keep_if, any_of,
}

-- `WsEvent`; the payload is carried unread.
pub record WsEvent (P : Type 0) : Type 0 where
  pub seq : ℕ
  pub event_type : Text
  pub rev : Text
  pub payload : P

-- `_LabState`; the set of subscribers is a list without repetition.
pub record LabState (P : Type 0) : Type 0 where
  pub events : List (WsEvent P)
  pub next_seq : ℕ
  pub subscribers : List ℕ

pub record WsHub (P : Type 0) : Type 0 where
  pub ring_size : ℕ
  pub labs : List (Text × LabState P)

-- `deque.append` with `maxlen`: what overflows is dropped from the left.
unfoldable pub push_ring {ℓ} : {A : Type ℓ} → ℕ → List A → A → List A
push_ring maxlen events e = let all = events ++ (e ∷ []) in drop (length all - maxlen) all

abbrev pub has_member : ℕ → List ℕ → Bool
has_member ws subs = any_of (λ s. s == ws) subs

-- `set.add` and `set.discard`
unfoldable pub set_add : ℕ → List ℕ → List ℕ
set_add ws subs = if has_member ws subs then subs else ws ∷ subs

unfoldable pub set_discard : ℕ → List ℕ → List ℕ
set_discard ws subs = keep_if (λ s. not (s == ws)) subs

-- `for ws in dead: state.subscribers.discard(ws)`
unfoldable pub discard_all : List ℕ → List ℕ → List ℕ
discard_all [] subs = subs
discard_all (ws ∷ dead) subs = discard_all dead (set_discard ws subs)

module _ {P : Type 0} where
  unfoldable pub state_of : WsHub P → Text → Option (LabState P)
  state_of hub lab_id = Dict.get text_eq lab_id hub.labs

  abbrev pub fresh_state : LabState P
  fresh_state = record { events = []; next_seq = 1; subscribers = [] }

  -- `_get_or_create`: the state found or made; the writers below store it back.
  unfoldable pub get_or_create : WsHub P → Text → LabState P
  get_or_create hub lab_id = elim (state_of hub lab_id) [ none ↦ fresh_state | some s ↦ s ]

  unfoldable pub store_state : WsHub P → Text → LabState P → WsHub P
  store_state hub lab_id s = record hub { labs = Dict.put text_eq lab_id s hub.labs }

  -- The first critical section of `publish`: number the event, append it, copy the subscribers.
  unfoldable pub publish_locked : WsHub P → Text → Text → P → Text → WsHub P × WsEvent P × List ℕ
  publish_locked hub lab_id event_type payload rev =
      let state = get_or_create hub lab_id in
      let event : WsEvent P = record {
        seq = state.next_seq;
        event_type = event_type;
        rev = rev;
        payload = payload;
      } in
      let state' : LabState P = record {
        events = push_ring hub.ring_size state.events event;
        next_seq = state.next_seq + 1;
        subscribers = state.subscribers;
      } in
      (store_state hub lab_id state', event, state.subscribers)

  -- The last critical section of `publish`: the sockets whose send failed are dropped.
  unfoldable pub drop_dead : WsHub P → Text → List ℕ → WsHub P
  drop_dead hub lab_id [] = hub
  drop_dead hub lab_id (ws ∷ dead) = elim (state_of hub lab_id) [
    | none ↦ hub
    | some state ↦
        store_state hub lab_id
          (record state { subscribers = discard_all (ws ∷ dead) state.subscribers })
  ]

  unfoldable pub publish : (ℕ → Bool) → WsHub P → Text → Text → P → Text → WsHub P × WsEvent P
  publish send hub lab_id event_type payload rev =
      let (hub', event, subscribers) = publish_locked hub lab_id event_type payload rev in
      (drop_dead hub' lab_id (keep_if (λ ws. not (send ws)) subscribers), event)

  unfoldable pub subscribe : WsHub P → Text → ℕ → WsHub P
  subscribe hub lab_id ws =
      let state = get_or_create hub lab_id in
      store_state hub lab_id (record state { subscribers = set_add ws state.subscribers })

  unfoldable pub unsubscribe : WsHub P → Text → ℕ → WsHub P
  unsubscribe hub lab_id ws = elim (state_of hub lab_id) [
    | none ↦ hub
    | some state ↦
        store_state hub lab_id (record state { subscribers = set_discard ws state.subscribers })
  ]

  -- The body of `replay_since` on a lab's events: the events to replay, and whether the client
  -- must take a new snapshot.
  unfoldable pub replay_events : List (WsEvent P) → ℕ → List (WsEvent P) × Bool
  replay_events [] last_seq = ([], false)
  replay_events (head ∷ rest) last_seq =
      if last_seq == 0
      then (head ∷ rest, false)
      else if ltb (last_seq + 1) head.seq
      then ([], true)
      else (keep_if (λ ev. ltb last_seq ev.seq) (head ∷ rest), false)

  unfoldable pub replay_since : WsHub P → Text → ℕ → List (WsEvent P) × Bool
  replay_since hub lab_id last_seq = elim (state_of hub lab_id) [
    | none ↦ ([], false)
    | some state ↦ replay_events state.events last_seq
  ]

  unfoldable pub head_seq : WsHub P → Text → ℕ
  head_seq hub lab_id = elim (state_of hub lab_id) [
    | none ↦ 0
    | some state ↦ if state.next_seq == 1 then 0 else state.next_seq - 1
  ]
