-- ===== src/Iol.antt =====
-- backend/app/services/runtime/iol.py: the filter of telnet commands in console input, and the
-- choice of the application id of a node.
pub mod Grammar
pub mod FreeId
mod Tests
use nova_ve.Prelude.{
  ℕ, zero, suc, ◌+◌, ◌-◌, ◌%◌, Bool, true, false, ◌||◌, Option, none, some, List, [], ◌∷◌, ◌++◌,
  ◌==◌, if◌then◌else◌, any_of,
}

-- The bytes of telnet: interpret as command, the two ends of a subnegotiation, and the four
-- commands with an option
abbrev pub telnet_iac : ℕ
telnet_iac = 255

abbrev pub telnet_sb : ℕ
telnet_sb = 250

abbrev pub telnet_se : ℕ
telnet_se = 240

abbrev pub is_option_command : ℕ → Bool
is_option_command b = b == 251 || (b == 252 || (b == 253 || b == 254))

-- `self._state`
pub data FilterState : Type 0 where
  data_state iac option subnegotiation subnegotiation_iac : FilterState

-- One round of the loop of `feed`: the next state and the bytes put out.
abbrev pub after_iac : ℕ → FilterState × List ℕ
after_iac b =
    if b == telnet_iac
    then (data_state, telnet_iac ∷ [])
    else if is_option_command b
    then (option, [])
    else if b == telnet_sb
    then (subnegotiation, [])
    else (data_state, [])

unfoldable pub filter_step : FilterState → ℕ → FilterState × List ℕ
filter_step data_state b = if b == telnet_iac then (iac, []) else (data_state, b ∷ [])
filter_step iac b = after_iac b
filter_step option b = (data_state, [])
filter_step subnegotiation b =
    if b == telnet_iac then (subnegotiation_iac, []) else (subnegotiation, [])
filter_step subnegotiation_iac b = if b == telnet_se then (data_state, []) else (subnegotiation, [])

unfoldable pub feed : FilterState → List ℕ → FilterState × List ℕ
feed s [] = (s, [])
feed s (b ∷ bs) =
    let step = filter_step s b in let rest = feed step.0 bs in (rest.0, step.1 ++ rest.1)

-- The loop of `application_id`, the rounds left first; `none` is the `IolError`.
abbrev pub candidate_id : ℕ → ℕ → ℕ
candidate_id start offset = (start + offset - 1) % 512 + 1

unfoldable pub first_free_id : List ℕ → ℕ → ℕ → ℕ → Option ℕ
first_free_id active start zero offset = none
first_free_id active start (suc rounds) offset =
    let rest = first_free_id active start rounds (offset + 1) in
    let candidate = candidate_id start offset in
    if any_of (λ i. i == candidate) active then rest else some candidate

-- `application_id`, from the first two bytes of the digest as a number
unfoldable pub application_id : ℕ → List ℕ → Option ℕ
application_id digest active = first_free_id active (digest % 512 + 1) 512 0
