-- ===== src/NetHelper/Confined.antt =====
-- The verbs of NetHelper keep to the policy, and check before they act.
mod LinkVerbs
mod NatVerbs
mod ProcessVerbs
pub mod Main
