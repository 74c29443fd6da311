-- ===== src/HostNet/Accepted.antt =====
-- Which names of HostNet the privileged helper accepts.
use nova_ve.Prelude.{
  ℕ, zero, suc, ◌+◌, ◌/◌, ◌%◌, ◌<◌, ◌≤◌, ◌≡◌, refl, sym, inl, inr, subst, ◌⊎◌, Bool, true, false,
  Option, some, List, [], ◌∷◌, ◌++◌, Text, codes, ltb, length, length-append, arith,
}
use mathlib.Core.List.{append-nil}
use nova_ve.Prelude.Decimal.{str, all_digits}
use nova_ve.NetHelper.Patterns.{
  need, may, Pattern, steps_then, at_end, matches, hex, digit, times, exactly, bridge_pattern,
  tap_pattern, veth_pattern, host_or_peer,
}
use nova_ve.NetHelper.Checks.{
  Effect, Helper, finished, check_regex, validate_bridge_name, validate_tap_name,
  validate_veth_name,
}
use nova_ve.HostNet.{
  IdFile, Named, named, get_instance_id, hex_char, hex4, name_of, checked_name, lab_hash,
  bridge_text, tap_text, veth_text, bridge_name, tap_name, veth_host_name, veth_peer_name,
}
use nova_ve.Prelude.Numerals.{tens, length-str, length-str_pos, all_digits-str}

-- Optional digits match a numeral that is short enough.
may_digits :
    (m : ℕ) (ds rest : Text) (ps : Pattern) (k : Text → Bool)
    → all_digits ds ≡ true
    → length ds ≤ m
    → steps_then ps k rest ≡ true
    → steps_then (times m (may digit) ++ ps) k (ds ++ rest) ≡ true
unfolding steps_then all_digits
may_digits zero [] rest ps k h l e = e
may_digits zero (d ∷ ds) rest ps k h l e = absurd (omega arith)
may_digits (suc m) [] [] ps k h l e = may_digits m [] [] ps k h (omega arith) e
may_digits (suc m) [] (c ∷ rest) ps k h l e =
    rw (may_digits m [] (c ∷ rest) ps k h (omega arith) e) refl
may_digits (suc m) (d ∷ ds) rest ps k h l e = ground (arith, may_digits m ds rest ps k)

-- One digit at least
need_digits :
    (m : ℕ) (ds rest : Text) (ps : Pattern) (k : Text → Bool)
    → all_digits ds ≡ true
    → 1 ≤ length ds
    → length ds ≤ suc m
    → steps_then ps k rest ≡ true
    → steps_then (need digit ∷ (times m (may digit) ++ ps)) k (ds ++ rest) ≡ true
unfolding steps_then all_digits
need_digits m [] rest ps k h p l e = absurd (omega arith)
need_digits m (d ∷ ds) rest ps k h p l e = ground (arith, may_digits m ds rest ps k)

numeral_matches :
    (m n : ℕ) (rest : Text) (ps : Pattern) (k : Text → Bool)
    → n < tens (suc m)
    → steps_then ps k rest ≡ true
    → steps_then (need digit ∷ (times m (may digit) ++ ps)) k (str n ++ rest) ≡ true
numeral_matches m n rest ps k h e =
    need_digits m (str n) rest ps k (all_digits-str n) (length-str_pos n) (length-str n m h) e

exactly_matches :
    (s rest : Text) (ps : Pattern) (k : Text → Bool)
    → steps_then ps k rest ≡ true
    → steps_then (exactly s ++ ps) k (s ++ rest) ≡ true
unfolding steps_then
exactly_matches [] rest ps k e = e
exactly_matches (c ∷ s) rest ps k e = ground (arith, exactly_matches s rest ps k e)

hex_char-hex : (d : ℕ) → d < 16 → hex (hex_char d) ≡ true
hex_char-hex d h = ground arith

hex4_matches :
    (n : ℕ) (rest : Text) (ps : Pattern) (k : Text → Bool)
    → n < 65536
    → steps_then ps k rest ≡ true
    → steps_then (times 4 (need hex) ++ ps) k (hex4 n ++ rest) ≡ true
unfolding steps_then hex4
hex4_matches n rest ps k h e =
    let a : hex (hex_char (n / 4096)) ≡ true = hex_char-hex (n / 4096) (omega arith) in
    let b : hex (hex_char (n / 256 % 16)) ≡ true = hex_char-hex (n / 256 % 16) (omega arith) in
    let c : hex (hex_char (n / 16 % 16)) ≡ true = hex_char-hex (n / 16 % 16) (omega arith) in
    let d : hex (hex_char (n % 16)) ≡ true = hex_char-hex (n % 16) (omega arith) in
    rw (a, b, c, d) e

pub last_numeral_matches :
    (m n : ℕ) → n < tens (suc m) → matches (need digit ∷ (times m (may digit) ++ [])) (str n) ≡ true
unfolding matches steps_then at_end
last_numeral_matches m n h =
    subst (λ s. steps_then (need digit ∷ (times m (may digit) ++ [])) at_end s ≡ true)
      (append-nil (str n)) (numeral_matches m n [] [] at_end h refl)

bridge_text-matches :
    (h n : ℕ) → h < 65536 → n < 100000 → matches bridge_pattern (bridge_text h n) ≡ true
unfolding matches
bridge_text-matches h n a b =
    exactly_matches (codes "nove") _ _ _
      (hex4_matches h _ _ _ a (exactly_matches (codes "n") _ _ _ (last_numeral_matches 4 n b)))

tap_text-matches :
    (h n i : ℕ) → h < 65536 → n < 1000 → i < 100 → matches tap_pattern (tap_text h n i) ≡ true
unfolding matches
tap_text-matches h n i a b c = exactly_matches (codes "nve") _ _ _ (
    hex4_matches h _ _ _ a (
      exactly_matches (codes "d") _ _ _ (
        numeral_matches 2 n _ _ _ b
          (exactly_matches (codes "i") _ _ _ (last_numeral_matches 1 i c)))))

side_matches :
    (side : ℕ)
    → host_or_peer side ≡ true
    → steps_then (need host_or_peer ∷ []) at_end (side ∷ []) ≡ true
unfolding steps_then at_end
side_matches side s = rw s refl

veth_text-matches :
    (side h n i : ℕ)
    → host_or_peer side ≡ true
    → h < 65536
    → n < 1000
    → i < 100
    → matches veth_pattern (veth_text side h n i) ≡ true
unfolding matches
veth_text-matches side h n i s a b c = exactly_matches (codes "nve") _ _ _ (
    hex4_matches h _ _ _ a (
      exactly_matches (codes "d") _ _ _ (
        numeral_matches 2 n _ _ _ b (
          exactly_matches (codes "i") _ _ _
            (numeral_matches 1 i _ (need host_or_peer ∷ []) _ c (side_matches side s))))))

-- The function gives a name, and the validator of the helper lets it pass.
abbrev pub IsAccepted : (Text → Helper Text) → Named → Type 0
IsAccepted check n = (s : Text) × (n ≡ named s) × ((t : List Effect) → check s t ≡ finished s t)

accepted :
    (p : Pattern) (label s : Text)
    → matches p s ≡ true
    → length s ≤ 14
    → IsAccepted (λ w. check_regex w p label) (checked_name s)
unfolding check_regex
accepted p label s h l =
    let short : ltb 14 (length s) ≡ false = ground arith in (s, rw short refl, λ t. rw h refl)

name_of-IsAccepted :
    (check : Text → Helper Text) (o : Option Text) (id : Text) (f : Text → Text)
    → o ≡ some id
    → IsAccepted check (checked_name (f id))
    → IsAccepted check (name_of o f)
name_of-IsAccepted check o id f e a = subst (λ x. IsAccepted check (name_of x f)) (sym e) a

length-bridge_text : (h n : ℕ) → n < 100000 → length (bridge_text h n) ≤ 14
unfolding hex4
length-bridge_text h n b = omega (arith, length-str n 4 b)

length-tap_text : (h n i : ℕ) → length (tap_text h n i) ≡ 9 + length (str n) + length (str i)
unfolding hex4
length-tap_text h n i = omega (arith, length-append (str n) (b'i' ∷ str i))

length-veth_text :
    (side h n i : ℕ) → length (veth_text side h n i) ≡ 10 + length (str n) + length (str i)
unfolding hex4
length-veth_text side h n i = omega (
  arith,
  length-append (str n) (b'i' ∷ (str i ++ (side ∷ []))),
  length-append (str i) (side ∷ []),
)

module _ (digest : Text → ℕ) where
  -- With an instance id that can be read and a hash of two bytes, the names of the bridge of a
  -- network up to 99999 and of the tap of an interface up to 99 on a node up to 999 are within the
  -- asserted length, and the helper's validators let them pass as they are.
  pub bridge_tap-IsAccepted :
      (file : IdFile) (instance_id lab_id : Text) (network_id node_id iface : ℕ)
      → get_instance_id file ≡ some instance_id
      → lab_hash digest lab_id instance_id < 65536
      → network_id < 100000
      → node_id < 1000
      → iface < 100
      → IsAccepted validate_bridge_name (bridge_name digest file lab_id network_id)
        × IsAccepted validate_tap_name (tap_name digest file lab_id node_id iface)
  unfolding bridge_name tap_name validate_bridge_name validate_tap_name
  bridge_tap-IsAccepted file id lab_id network_id node_id iface e small a b c =
      let h = lab_hash digest lab_id id in
      (
        name_of-IsAccepted validate_bridge_name _ id _ e (
            accepted bridge_pattern (codes "bridge_name") (bridge_text h network_id)
              (bridge_text-matches h network_id small a) (length-bridge_text h network_id a)),
        name_of-IsAccepted validate_tap_name _ id _ e (
            accepted tap_pattern (codes "tap_name") (tap_text h node_id iface)
              (tap_text-matches h node_id iface small b c)
              (omega (
                arith,
                length-tap_text h node_id iface,
                length-str node_id 2 b,
                length-str iface 1 c,
              ))),
      )

  veth_short :
      (node_id iface : ℕ)
      → node_id < 1000
      → iface < 100
      → (node_id < 100) ⊎ (iface < 10)
      → length (str node_id) + length (str iface) ≤ 4
  veth_short n i a b (inl c) = omega (arith, length-str n 1 c, length-str i 1 b)
  veth_short n i a b (inr c) = omega (arith, length-str n 2 a, length-str i 0 c)

  IsAccepted-veth :
      (side : ℕ) (label : Text) (h n i : ℕ)
      → host_or_peer side ≡ true
      → h < 65536
      → n < 1000
      → i < 100
      → (n < 100) ⊎ (i < 10)
      → IsAccepted (validate_veth_name label) (checked_name (veth_text side h n i))
  unfolding validate_veth_name
  IsAccepted-veth side label h n i ok small a b c =
      accepted veth_pattern label (veth_text side h n i) (veth_text-matches side h n i ok small a b)
        (omega (arith, length-veth_text side h n i, veth_short n i a b c))

  -- The two ends of the veth pair of an interface up to 99 on a node up to 999 get names that the
  -- helper lets pass, where the node is below 100 or the interface below 10, there is an instance id
  -- and the lab hash is below 65536.
  pub veth-IsAccepted :
      (file : IdFile) (instance_id lab_id label : Text) (node_id iface : ℕ)
      → get_instance_id file ≡ some instance_id
      → lab_hash digest lab_id instance_id < 65536
      → node_id < 1000
      → iface < 100
      → (node_id < 100) ⊎ (iface < 10)
      → IsAccepted (validate_veth_name label) (veth_host_name digest file lab_id node_id iface)
        × IsAccepted (validate_veth_name label) (veth_peer_name digest file lab_id node_id iface)
  unfolding veth_host_name veth_peer_name
  veth-IsAccepted file id lab_id label n i e small a b c =
      let h = lab_hash digest lab_id id in
      (
        name_of-IsAccepted (validate_veth_name label) _ id _ e
            (IsAccepted-veth b'h' label h n i refl small a b c),
        name_of-IsAccepted (validate_veth_name label) _ id _ e
            (IsAccepted-veth b'p' label h n i refl small a b c),
      )
