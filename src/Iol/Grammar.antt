-- ===== src/Iol/Grammar.antt =====
-- What the filter of backend/app/services/runtime/iol.py makes of the items of a telnet stream.
use nova_ve.Prelude.{
  ℕ, ◌≡◌, refl, sym, ap, ◌∙◌, true, false, List, [], ◌∷◌, ◌++◌, ◌==◌, if◌then◌else◌, arith, All,
  Bool-cases, inl, inr,
}
use mathlib.Core.List.{append_assoc}
use nova_ve.Iol.{
  telnet_iac, telnet_sb, telnet_se, is_option_command, FilterState, data_state, subnegotiation,
  filter_step, feed,
}

-- What a client sends: a byte, an escaped 255, a command with an option, any other command, and a
-- subnegotiation whose payload has every 255 escaped.
pub data Item : Type 0 where
  plain : ℕ → Item
  escaped : Item
  option_command : ℕ → ℕ → Item
  command : ℕ → Item
  negotiation : List ℕ → Item

-- The bytes of an item are of their kind.
abbrev pub IsItem : Item → Type 0
IsItem (plain b) = (b == telnet_iac) ≡ false
IsItem escaped = Unit
IsItem (option_command c o) = is_option_command c ≡ true
IsItem (command c) =
    ((c == telnet_iac) ≡ false) × (is_option_command c ≡ false) × ((c == telnet_sb) ≡ false)
IsItem (negotiation payload) = Unit

abbrev pub escape : List ℕ → List ℕ
escape [] = []
escape (b ∷ bs) =
    let rest = escape bs in if b == telnet_iac then telnet_iac ∷ telnet_iac ∷ rest else b ∷ rest

abbrev pub bytes_of : Item → List ℕ
bytes_of (plain b) = b ∷ []
bytes_of escaped = telnet_iac ∷ telnet_iac ∷ []
bytes_of (option_command c o) = telnet_iac ∷ c ∷ o ∷ []
bytes_of (command c) = telnet_iac ∷ c ∷ []
bytes_of (negotiation payload) =
    telnet_iac ∷ telnet_sb ∷ (escape payload ++ (telnet_iac ∷ telnet_se ∷ []))

abbrev pub encode : List Item → List ℕ
encode [] = []
encode (i ∷ is) = bytes_of i ++ encode is

-- The bytes that are meant for the console
abbrev pub payload_of : List Item → List ℕ
payload_of [] = []
payload_of (plain b ∷ is) = b ∷ payload_of is
payload_of (escaped ∷ is) = telnet_iac ∷ payload_of is
payload_of (option_command c o ∷ is) = payload_of is
payload_of (command c ∷ is) = payload_of is
payload_of (negotiation payload ∷ is) = payload_of is

-- The calls of `feed` on the pieces in which a stream arrives
abbrev pub feed_pieces : FilterState → List (List ℕ) → FilterState × List ℕ
feed_pieces s [] = (s, [])
feed_pieces s (p ∷ ps) =
    let r = feed s p in let rest = feed_pieces r.0 ps in (rest.0, r.1 ++ rest.1)

abbrev pub joined : List (List ℕ) → List ℕ
joined [] = []
joined (p ∷ ps) = p ++ joined ps

feed-append :
    (s : FilterState) (xs ys : List ℕ)
    → feed s (xs ++ ys) ≡ ((feed (feed s xs).0 ys).0, (feed s xs).1 ++ (feed (feed s xs).0 ys).1)
unfolding feed
feed-append s [] ys = refl
feed-append s (b ∷ xs) ys =
    let step = filter_step s b in
    let tail = feed step.0 xs in
    ap (λ r. (r.0, step.1 ++ r.1)) (feed-append step.0 xs ys)
    ∙ ap (λ out. ((feed tail.0 ys).0, out)) (sym (append_assoc step.1 tail.1 (feed tail.0 ys).1))

feed_pieces-joined : (s : FilterState) (ps : List (List ℕ)) → feed_pieces s ps ≡ feed s (joined ps)
unfolding feed
feed_pieces-joined s [] = refl
feed_pieces-joined s (p ∷ ps) =
    ap (λ r. (r.0, (feed s p).1 ++ r.1)) (feed_pieces-joined (feed s p).0 ps)
    ∙ sym (feed-append s p (joined ps))

-- The payload and the end of a subnegotiation put nothing out.
feed-escape :
    (payload rest : List ℕ)
    → feed subnegotiation ((escape payload ++ (telnet_iac ∷ telnet_se ∷ [])) ++ rest)
      ≡ feed data_state rest
unfolding feed filter_step
feed-escape [] rest = refl
feed-escape (b ∷ payload) rest = elim (Bool-cases (b == telnet_iac)) [
  | inl e ↦ rw e (feed-escape payload rest)
  | inr e ↦ rw (e, e) (feed-escape payload rest)
]

feed-bytes_of :
    (i : Item) (rest : List ℕ)
    → IsItem i
    → feed data_state (bytes_of i ++ rest)
      ≡ ((feed data_state rest).0, payload_of (i ∷ []) ++ (feed data_state rest).1)
unfolding feed filter_step
feed-bytes_of (plain b) rest h = rw h refl
feed-bytes_of escaped rest h = refl
feed-bytes_of (option_command c o) rest h =
    let other : (c == telnet_iac) ≡ false = ground arith in rw (other, h) refl
feed-bytes_of (command c) rest (a, b, d) = rw (a, b, d) refl
feed-bytes_of (negotiation payload) rest h = feed-escape payload rest

payload_of-cons :
    (i : Item) (is : List Item) → payload_of (i ∷ []) ++ payload_of is ≡ payload_of (i ∷ is)
payload_of-cons (plain b) is = refl
payload_of-cons escaped is = refl
payload_of-cons (option_command c o) is = refl
payload_of-cons (command c) is = refl
payload_of-cons (negotiation payload) is = refl

feed-encode :
    (is : List Item) → All IsItem is → feed data_state (encode is) ≡ (data_state, payload_of is)
unfolding feed
feed-encode [] h = refl
feed-encode (i ∷ is) h =
    feed-bytes_of i (encode is) h.0
    ∙ ap (λ r. (r.0, payload_of (i ∷ []) ++ r.1)) (feed-encode is h.1)
    ∙ ap (λ out. (data_state, out)) (payload_of-cons i is)

-- However a well-formed telnet stream is cut into pieces, the filter puts out the bytes meant for
-- the console, and ends where it started: commands, options and subnegotiations are gone, and an
-- escaped 255 is one byte.
pub feed_pieces-encode :
    (is : List Item) (pieces : List (List ℕ))
    → All IsItem is
    → joined pieces ≡ encode is
    → feed_pieces data_state pieces ≡ (data_state, payload_of is)
feed_pieces-encode is pieces h e =
    feed_pieces-joined data_state pieces ∙ ap (feed data_state) e ∙ feed-encode is h
