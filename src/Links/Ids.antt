-- ===== src/Links/Ids.antt =====
-- `_refcount`, `_link_references_endpoint`, `_next_link_id` and `_next_network_id` of
-- backend/app/services/link_service.py.
use Prim.Native.Nat.{max}
use nova_ve.Prelude.Dict
use nova_ve.Prelude.Decimal.{all_digits, value_from, str, pad3, pad3-str}
use nova_ve.Prelude.{
  ℕ, ◌+◌, ◌≤◌, ◌≡◌, ◌≢◌, refl, ap, ◌∙◌, Bool, true, false, ◌&&◌, Option, none, some, List, [], ◌∷◌,
  ◌++◌, arith, Text, codes, strip_prefix, strip_prefix-append, All, All-map, ◌<◌, ◌||◌, ◌==◌,
  if◌then◌else◌,
}
use nova_ve.Lab.{Endpoint, node, network, malformed, Link, Network, Lab, network_at}
use nova_ve.Links.Keys.{index_or_zero}

-- Whether an endpoint counts for a network: `int(ep.get("network_id", 0) or 0) == network_id`.
unfoldable pub counts_for : ℕ → Endpoint → ℕ
counts_for n (network m) = if m == n then 1 else 0
counts_for n (node i x) = if n == 0 then 1 else 0
counts_for n malformed = 0

unfoldable pub refcount_links : List Link → ℕ → ℕ
refcount_links [] n = 0
refcount_links (l ∷ ls) n = counts_for n l.from + counts_for n l.to + refcount_links ls n

unfoldable pub refcount : Lab → ℕ → ℕ
refcount lab n = refcount_links lab.links n

-- The two matches of one endpoint in `_link_references_endpoint`.
unfoldable pub is_interface : ℕ → ℕ → Endpoint → Bool
is_interface n i (node m x) = m == n && index_or_zero x == i
is_interface n i _ = false

unfoldable pub is_network : ℕ → Endpoint → Bool
is_network n (network m) = m == n
is_network n _ = false

unfoldable pub link_references_endpoint : List Link → ℕ → ℕ → ℕ → Bool
link_references_endpoint [] n i w = false
link_references_endpoint (l ∷ ls) n i w =
    if (is_interface n i l.from || is_interface n i l.to)
      && (is_network w l.from || is_network w l.to)
    then true
    else link_references_endpoint ls n i w

-- `tail.isdigit()`, then `int(tail)`
unfoldable pub digits_value : Text → Option ℕ
digits_value [] = none
digits_value (c ∷ s) = if all_digits (c ∷ s) then some (value_from 0 (c ∷ s)) else none

abbrev tail_number : Option Text → Option ℕ
tail_number none = none
tail_number (some tail) = digits_value tail

abbrev pub prefix : Text
prefix = codes "lnk_"

-- The number in an id `lnk_<digits>`.
unfoldable pub link_number : Text → Option ℕ
link_number id = tail_number (strip_prefix prefix id)

abbrev pub number_or_zero : Option ℕ → ℕ
number_or_zero none = 0
number_or_zero (some n) = n

-- The loop of `_next_link_id`.
unfoldable pub max_link_number : List Link → ℕ → ℕ
max_link_number [] m = m
max_link_number (l ∷ ls) m = max_link_number ls (max m (number_or_zero (link_number l.id)))

unfoldable pub next_link_id : List Link → Text
next_link_id links = prefix ++ pad3 (str (max_link_number links 0 + 1))

unfoldable pub max_network_id : List (ℕ × Network) → ℕ → ℕ
max_network_id [] m = m
max_network_id ((k, w) ∷ ws) m = max_network_id ws (max m k)

unfoldable pub next_network_id : Lab → ℕ
next_network_id lab = max_network_id lab.networks 0 + 1

max_network_id-ge : (ws : List (ℕ × Network)) (m : ℕ) → m ≤ max_network_id ws m
unfolding max_network_id
max_network_id-ge [] m = omega arith
max_network_id-ge ((k, w) ∷ ws) m = omega (arith, max_network_id-ge ws (max m k))

max_link_number-ge : (links : List Link) (m : ℕ) → m ≤ max_link_number links m
unfolding max_link_number
max_link_number-ge [] m = omega arith
max_link_number-ge (l ∷ ls) m =
    omega (arith, max_link_number-ge ls (max m (number_or_zero (link_number l.id))))

-- The maximum bounds the number of every link.
link_number-le :
    (links : List Link) (m : ℕ)
    → All (λ (l : Link). number_or_zero (link_number l.id) ≤ max_link_number links m) links
unfolding max_link_number
link_number-le [] m = tt
link_number-le (l ∷ ls) m =
    let m' = max m (number_or_zero (link_number l.id)) in
    (omega (arith, max_link_number-ge ls m'), link_number-le ls m')

pad3-ne : (s : Text) → pad3 s ≢ []
unfolding pad3
pad3-ne [] e = cc
pad3-ne (a ∷ []) e = cc
pad3-ne (a ∷ b ∷ []) e = cc
pad3-ne (a ∷ b ∷ c ∷ s) e = cc

digits_value_of : (s : Text) → s ≢ [] → all_digits s ≡ true → digits_value s ≡ some (value_from 0 s)
unfolding digits_value
digits_value_of [] ne d = absurd (ne refl)
digits_value_of (c ∷ s) ne d = rw d

digits_value-pad3 : (n : ℕ) → digits_value (pad3 (str n)) ≡ some n
digits_value-pad3 n =
    let (d, v) = pad3-str n in digits_value_of (pad3 (str n)) (pad3-ne (str n)) d ∙ ap some v

-- A generated id is an `lnk_` id, and its number is one more than the largest in use.
pub link_number-next_link_id :
    (links : List Link) → link_number (next_link_id links) ≡ some (max_link_number links 0 + 1)
unfolding link_number next_link_id
link_number-next_link_id links =
    ap tail_number (strip_prefix-append prefix (pad3 (str (max_link_number links 0 + 1))))
    ∙ digits_value-pad3 (max_link_number links 0 + 1)

-- A generated link id is the id of no link.
pub next_link_id_fresh : (links : List Link) → All (λ (l : Link). l.id ≢ next_link_id links) links
next_link_id_fresh links =
    All-map links
      (λ l le same.
        let n = ap number_or_zero (ap link_number same ∙ link_number-next_link_id links) in
        omega (arith, n, le))
      (link_number-le links 0)

get_above :
    (ws : List (ℕ × Network)) (m k : ℕ) → max_network_id ws m < k → Dict.get ◌==◌ k ws ≡ none
unfolding max_network_id Dict.get
get_above [] m k h = refl
get_above ((j, w) ∷ ws) m k h =
    ground (arith, max_network_id-ge ws (max m j), get_above ws (max m j) k h)

-- A generated network id is the key of no network.
pub next_network_id_fresh : (lab : Lab) → network_at (next_network_id lab) lab ≡ none
unfolding next_network_id
next_network_id_fresh lab = get_above lab.networks 0 _ (omega arith)
