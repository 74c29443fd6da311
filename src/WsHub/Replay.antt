-- ===== src/WsHub/Replay.antt =====
-- `replay_since` and `head_seq` of ws_hub.py against the full history of a lab.
use nova_ve.Prelude.{
  ℕ, suc, ◌+◌, ◌-◌, ◌<◌, ◌≡◌, refl, sym, ap, ◌∙◌, Bool, true, false, Option, none, some, List, [],
  ◌∷◌, inl, inr, arith, Text, ltb, ◌==◌, if◌then◌else◌, length, drop, keep_if, length-drop,
  drop-drop, drop_nil, Bool-cases,
}
use nova_ve.WsHub.{WsEvent, LabState, state_of, replay_events, replay_since, head_seq}
use nova_ve.WsHub.Ring.{
  Op, Numbered, Tracks, TracksIn, Numbered-drop, run, published, new_hub, run-TracksIn,
}

module _ {P : Type 0} where
  keep_newer : ℕ → List (WsEvent P) → List (WsEvent P)
  keep_newer last = keep_if (λ ev. ltb last ev.seq)

  -- Of events numbered from `n`, those after `last` are what is left when the others are dropped.
  keep_newer-drop :
      (last n : ℕ) (es : List (WsEvent P))
      → Numbered n es
      → keep_newer last es ≡ drop (last + 1 - n) es
  unfolding keep_newer
  keep_newer-drop last n [] d = sym (drop_nil (last + 1 - n))
  keep_newer-drop last n (e ∷ es) d = elim (Bool-cases (ltb last e.seq)) [
    | inl newer ↦
        let z : last + 1 - n ≡ 0 = ground (arith, d.0) in
        let z' : last + 1 - suc n ≡ 0 = ground (arith, d.0) in
        rw (newer, z)
          (ap (λ t. e ∷ t) (keep_newer-drop last (suc n) es d.1 ∙ ap (λ k. drop k es) z'))
    | inr older ↦
        let z : last + 1 - n ≡ suc (last + 1 - suc n) = ground (arith, d.0) in
        rw (older, z) (keep_newer-drop last (suc n) es d.1)
  ]

  -- The code's three answers, on a window whose first `k` events are gone.
  replay_events_lem :
      (k last : ℕ) (es : List (WsEvent P))
      → Numbered (suc k) es
      → (es ≡ [] → k ≡ 0)
      → replay_events es last ≡ (
          if last == 0
          then (es, false)
          else if ltb (last + 1) (k + 1)
          then ([], true)
          else (drop (last - k) es, false))
  unfolding replay_events keep_newer
  replay_events_lem k last [] d h =
      rw (h refl) (ground (arith, drop_nil {A = WsEvent P} (last - 0)))
  replay_events_lem k last (e ∷ es) d h =
      let q : last + 1 - suc k ≡ last - k = omega arith in
      ground (arith, d.0, keep_newer-drop last (suc k) (e ∷ es) d, ap (λ j. drop j (e ∷ es)) q)

  -- What a client at position `last` is owed, when the ring keeps the last `size` of `h`.
  abbrev pub owed : ℕ → List (WsEvent P) → ℕ → List (WsEvent P) × Bool
  owed size h last =
      if last == 0
      then (drop (length h - size) h, false)
      else if ltb (last + 1) (length h - size + 1)
      then ([], true)
      else (drop last h, false)

  replay_tracked :
      (size last : ℕ) (h : List (WsEvent P)) (s : LabState P)
      → 0 < size
      → Tracks size h s
      → replay_events s.events last ≡ owed size h last
  replay_tracked size last h s pos t =
      let k = length h - size in
      let n : k + 1 ≡ suc k = omega arith in
      let numbered : Numbered (suc k) (drop k h) = rw n at (Numbered-drop k 1 h t.numbered) in
      let found =
        replay_events_lem k last (drop k h) numbered
          (λ e. omega (arith, ap length e, length-drop k h)) in
      elim (Bool-cases (ltb last k)) [
        | inl gone ↦ rw t.window (ground (arith, found))
        | inr kept ↦
            let q : k + (last - k) ≡ last = ground arith in
            rw t.window (ground (arith, found, drop-drop (last - k) k h, ap (λ j. drop j h) q))
      ]

  replay_of : Option (LabState P) → ℕ → List (WsEvent P) × Bool
  replay_of o last = elim o [ none ↦ ([], false) | some s ↦ replay_events s.events last ]

  replay_of-owed :
      (size : ℕ) (h : List (WsEvent P)) (last : ℕ) (o : Option (LabState P))
      → 0 < size
      → TracksIn size h o
      → replay_of o last ≡ owed size h last
  unfolding replay_of
  replay_of-owed size h last none pos e =
      rw e (ground (arith, drop_nil {A = WsEvent P} last, drop_nil {A = WsEvent P} (0 - size)))
  replay_of-owed size h last (some s) pos t = replay_tracked size last h s pos t

  -- What a reconnecting client gets, after any interleaving of critical sections and on every
  -- branch, where the ring has room for an event: a client without a position (0) gets the
  -- retained events; one that has missed an event that is no longer retained is told to take a
  -- new snapshot; and any other gets exactly the events published to the lab after its position,
  -- in order.
  pub replay_since-published :
      (size : ℕ) (ops : List (Op P)) (lab : Text) (last : ℕ)
      → 0 < size
      → replay_since (run (new_hub size) ops) lab last ≡ owed size (published lab 1 ops) last
  unfolding replay_since replay_of
  replay_since-published size ops lab last pos =
      replay_of-owed size (published lab 1 ops) last (state_of (run (new_hub size) ops) lab) pos
        (run-TracksIn size ops lab)

  head_of : Option (LabState P) → ℕ
  head_of o = elim o [ none ↦ 0 | some s ↦ if s.next_seq == 1 then 0 else s.next_seq - 1 ]

  head_of-length :
      (size : ℕ) (h : List (WsEvent P)) (o : Option (LabState P))
      → TracksIn size h o
      → head_of o ≡ length h
  unfolding head_of
  head_of-length size h none e = rw e refl
  head_of-length size h (some s) t = rw t.next (ground arith)

  -- `head_seq` is the number of events published to the lab, whatever the ring still holds.
  pub head_seq-published :
      (size : ℕ) (ops : List (Op P)) (lab : Text)
      → head_seq (run (new_hub size) ops) lab ≡ length (published lab 1 ops)
  unfolding head_seq head_of
  head_seq-published size ops lab =
      head_of-length size (published lab 1 ops) (state_of (run (new_hub size) ops) lab)
        (run-TracksIn size ops lab)
