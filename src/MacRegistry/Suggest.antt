-- ===== src/MacRegistry/Suggest.antt =====
-- The search of `suggest_mac` of mac_registry.py for a free address.
use nova_ve.Prelude.{
  ℕ, zero, suc, ◌+◌, ◌-◌, ◌%◌, ◌/◌, ◌^◌, ◌<◌, ◌≡◌, refl, false, Option, inl, inr, arith, Text,
  Bool-cases,
}
use nova_ve.MacRegistry.{
  MacRegistry, candidate_mac, suggest_start, is_taken, suggest_loop, suggest_mac,
}

-- A candidate's text depends on its low 24 bits.
candidate_mac-mod : (c d : ℕ) → c % 2 ^ 24 ≡ d % 2 ^ 24 → candidate_mac c ≡ candidate_mac d
unfolding candidate_mac
candidate_mac-mod c d h =
    let a : c / 2 ^ 16 % 256 ≡ d / 2 ^ 16 % 256 = omega arith in
    let b : c / 2 ^ 8 % 256 ≡ d / 2 ^ 8 % 256 = omega arith in
    let e : c % 256 ≡ d % 256 = omega arith in rw (a, b, e) refl

module _ (r : MacRegistry) (network_id : ℕ) where
  -- In `rounds` rounds the loop meets a free candidate that is at most so far ahead.
  suggest_loop-free :
      (rounds candidate i : ℕ)
      → i < rounds
      → is_taken r network_id (candidate_mac (candidate + i)) ≡ false
      → is_taken r network_id (suggest_loop r network_id rounds candidate) ≡ false
  unfolding suggest_loop
  suggest_loop-free zero candidate i h free = absurd (omega arith)
  suggest_loop-free (suc rounds) candidate zero h free =
      let e : candidate + 0 ≡ candidate = omega arith in let free' = rw e at free in rw free' free'
  suggest_loop-free (suc rounds) candidate (suc i) h free =
      elim (Bool-cases (is_taken r network_id (candidate_mac candidate))) [
        | inl taken ↦
            let e =
              candidate_mac-mod ((candidate + 1) % 2 ^ 24 + i) (candidate + suc i) (omega arith) in
            rw taken
              (suggest_loop-free rounds ((candidate + 1) % 2 ^ 24) i (omega arith) (rw e free))
        | inr here ↦ rw here here
      ]

  -- If any of the 2^24 candidates is free on the network, the suggested MAC is free, wherever the
  -- search starts.
  pub suggest_mac-free :
      (parse_hex : Text → Option ℕ) (base_mac : Option Text) (c : ℕ)
      → is_taken r network_id (candidate_mac c) ≡ false
      → is_taken r network_id (suggest_mac parse_hex r network_id base_mac) ≡ false
  unfolding suggest_mac
  suggest_mac-free parse_hex base_mac c free =
      let s = suggest_start parse_hex base_mac in
      let i = (c + (2 ^ 24 - s % 2 ^ 24)) % 2 ^ 24 in
      suggest_loop-free 0x1000000 s i (omega arith)
        (rw (candidate_mac-mod (s + i) c (omega arith)) free)
