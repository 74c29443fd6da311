-- ===== src/Dynamips/Ports.antt =====
-- The ports of a router of backend/app/services/runtime/dynamips.py in the order of its interfaces.
use nova_ve.Prelude.{
  ℕ, zero, suc, ◌+◌, ◌-◌, ◌≤◌, ◌<◌, ◌≡◌, refl, sym, ap, ◌∙◌, inl, inr, true, false, Option, none,
  some, List, [], ◌∷◌, ◌++◌, ltb, get_elem?, arith, Bool-cases,
}
use nova_ve.Dynamips.{Inventory, count_of, resolve_step, resolve_from, resolve_slot_port}

-- The ports of one slot from the given one on
abbrev pub slot_ports : ℕ → ℕ → ℕ → List (ℕ × ℕ)
slot_ports slot p zero = []
slot_ports slot p (suc count) = (slot, p) ∷ slot_ports slot (p + 1) count

abbrev pub ports_of : Option ℕ → ℕ → List (ℕ × ℕ) → List (ℕ × ℕ)
ports_of none slot rest = []
ports_of (some count) slot rest = slot_ports slot 0 count ++ rest

-- All ports, slot by slot, as far as the adapters are known
abbrev pub ports : Inventory → List (ℕ × ℕ)
ports [] = []
ports ((slot, pa) ∷ inventory) = ports_of (count_of pa) slot (ports inventory)

get_elem?-slot_ports :
    (slot p count i : ℕ) (rest : List (ℕ × ℕ))
    → i < count
    → get_elem? (slot_ports slot p count ++ rest) i ≡ some (slot, p + i)
get_elem?-slot_ports slot p zero i rest h = absurd (omega arith)
get_elem?-slot_ports slot p (suc count) zero rest h = ap (λ q. some (slot, q)) (omega arith)
get_elem?-slot_ports slot p (suc count) (suc i) rest h =
    get_elem?-slot_ports slot (p + 1) count i rest (omega arith)
    ∙ ap (λ q. some (slot, q)) (omega arith)

get_elem?-rest :
    (slot p count i : ℕ) (rest : List (ℕ × ℕ))
    → get_elem? (slot_ports slot p count ++ rest) (count + i) ≡ get_elem? rest i
get_elem?-rest slot p zero i rest = ap (get_elem? rest) (omega arith)
get_elem?-rest slot p (suc count) i rest =
    ap (get_elem? (slot_ports slot p (suc count) ++ rest))
      (let e : suc count + i ≡ suc (count + i) = omega arith in e)
    ∙ get_elem?-rest slot (p + 1) count i rest

resolve_step-ports :
    (o : Option ℕ) (slot total i : ℕ) (next : ℕ → Option (ℕ × ℕ)) (rest : List (ℕ × ℕ))
    → ((t j : ℕ) → t + j ≡ total + i → next t ≡ get_elem? rest j)
    → resolve_step o slot total (total + i) next ≡ get_elem? (ports_of o slot rest) i
resolve_step-ports none slot total i next rest h = refl
resolve_step-ports (some count) slot total i next rest h = elim (Bool-cases (ltb i count)) [
  | inl e ↦
      let here : ltb (total + i) (total + count) ≡ true = ground arith in
      let port : total + i - total ≡ 0 + i = omega arith in
      rw (here, get_elem?-slot_ports slot 0 count i rest (ground arith))
        (ap (λ q. some (slot, q)) port)
  | inr e ↦
      let past : ltb (total + i) (total + count) ≡ false = ground arith in
      let ge : count ≤ i = ground arith in
      let split : count + (i - count) ≡ i = omega arith in
      rw past (
        h (total + count) (i - count) (omega arith)
        ∙ (sym (get_elem?-rest slot 0 count (i - count) rest)
            ∙ ap (get_elem? (slot_ports slot 0 count ++ rest)) split))
]

resolve_from-ports :
    (inv : Inventory) (total i index : ℕ)
    → total + i ≡ index
    → resolve_from total inv index ≡ get_elem? (ports inv) i
unfolding resolve_from
resolve_from-ports [] total i index e = refl
resolve_from-ports ((slot, pa) ∷ inv) total i index e = rw (← e) (
    resolve_step-ports (count_of pa) slot total i (λ t. resolve_from t inv (total + i)) (ports inv)
      λ t j q. resolve_from-ports inv t j (total + i) q)

-- The slot and port of an interface are those at its index among all ports, counted slot by slot,
-- and an interface beyond the ports, or beyond an adapter that is not known, has none.
pub resolve_slot_port-ports :
    (inv : Inventory) (index : ℕ) → resolve_slot_port inv index ≡ get_elem? (ports inv) index
unfolding resolve_slot_port
resolve_slot_port-ports inv index = resolve_from-ports inv 0 index index (omega arith)
