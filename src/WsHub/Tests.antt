-- ===== src/WsHub/Tests.antt =====
-- Runs of the hub of backend/app/services/ws_hub.py: two events in a ring of one.
use nova_ve.Prelude.{ℕ, ◌≡◌, List, [], ◌∷◌, Text, codes, arith}
use nova_ve.WsHub.{WsHub, replay_since}
use nova_ve.WsHub.Ring.{Op, publish_section, subscribe_section, new_hub, run, published}
use nova_ve.WsHub.Replay.{owed, replay_since-published}

abbrev lab_a : Text
lab_a = codes "a.json"

abbrev two_events : List (Op ℕ)
two_events =
    subscribe_section lab_a 7
    ∷ (publish_section lab_a (codes "node_started") 1 []
        ∷ (publish_section lab_a (codes "node_stopped") 2 [] ∷ []))

replay_since-published_example :
    replay_since (run (new_hub 1) two_events) lab_a 1 ≡ owed 1 (published lab_a 1 two_events) 1
replay_since-published_example = replay_since-published 1 two_events lab_a 1 (omega arith)

abbrev one_socket : WsHub ℕ
one_socket = run (new_hub 1) (subscribe_section lab_a 7 ∷ [])
