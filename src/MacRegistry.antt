-- ===== src/MacRegistry.antt =====
-- backend/app/services/mac_registry.py: the planned MAC addresses of all labs, keyed by network
-- and address, with the interface that owns each. `int(text, 16)` is the parameter `parse_hex`.
pub mod Recompute
pub mod Suggest
mod Tests
use nova_ve.Prelude.Dict
use Prim.Native.Nat.{bit_or}
use nova_ve.Prelude.{
  ℕ, zero, suc, ◌+◌, ◌*◌, ◌/◌, ◌%◌, ◌^◌, ◌≡◌, ◌↔◌, Bool, true, false, ◌&&◌, Option, none, some,
  List, [], ◌∷◌, ◌++◌, arith, Text, codes, text_eq, text_eq_iff, to_lower, strip, split_on, ltb,
  ◌==◌, if◌then◌else◌, length, get_elem?,
}
use nova_ve.Lab.{Endpoint, node, network, malformed, Link, Interface, Node, Lab}

-- `OwnerKey` and `RegistryKey`
pub record OwnerKey : Type 0 where
  pub lab_id : Text
  pub node_id : ℕ
  pub interface_index : ℕ

abbrev pub RegistryKey : Type 0
RegistryKey = ℕ × Text

abbrev pub key_eq : RegistryKey → RegistryKey → Bool
key_eq (n, s) (m, t) = n == m && text_eq s t

abbrev pub owner_eq : OwnerKey → OwnerKey → Bool
owner_eq a b =
    text_eq a.lab_id b.lab_id && (a.node_id == b.node_id && a.interface_index == b.interface_index)

pub record MacRegistry : Type 0 where
  pub entries : List (RegistryKey × OwnerKey)

-- `_entries.get(key)`
abbrev pub entry_at : RegistryKey → MacRegistry → Option OwnerKey
entry_at k r = Dict.get key_eq k r.entries

-- `_normalize_mac`
unfoldable pub normalize_mac : Text → Text
normalize_mac mac = to_lower (strip mac)

unfoldable pub check_collision : MacRegistry → ℕ → Option Text → Option OwnerKey → Option OwnerKey
check_collision r network_id none owner_key = none
check_collision r network_id (some planned) owner_key =
    let mac = normalize_mac planned in
    if text_eq mac [] then none else elim (entry_at (network_id, mac) r) [
      | none ↦ none
      | some existing ↦ elim owner_key [
        | none ↦ some existing
        | some own ↦ if owner_eq existing own then none else some existing
      ]
    ]

-- The loop over the two endpoints: the last network and the last node that are met.
unfoldable pub pick_endpoint :
    Option (ℕ × Option ℕ) × Option ℕ → Endpoint → Option (ℕ × Option ℕ) × Option ℕ
pick_endpoint (n, w) (network i) = (n, some i)
pick_endpoint (n, w) (node i x) = (some (i, x), w)
pick_endpoint (n, w) malformed = (n, w)

-- The planned MAC of an interface, normalized; an empty one counts as absent.
unfoldable pub interface_mac : Interface → Option Text
interface_mac i = elim i.planned_mac [
  | none ↦ none
  | some planned ↦
      let mac = normalize_mac planned in
      if text_eq planned [] then none else if text_eq mac [] then none else some mac
]

unfoldable pub node_interface : List (ℕ × Node) → ℕ → ℕ → Option Interface
node_interface nodes node_id index = elim (Dict.get ◌==◌ node_id nodes) [
  | none ↦ none
  | some n ↦ get_elem? n.interfaces index
]

-- One round of the loop of `recompute_for_lab`: what a link registers, if anything.
unfoldable pub link_entry : Text → List (ℕ × Node) → Link → Option (RegistryKey × OwnerKey)
link_entry lab_id nodes link =
    let (n, w) = pick_endpoint (pick_endpoint (none, none) link.from) link.to in
    elim w [
      | none ↦ none
      | some network_id ↦ elim n [
        | some (node_id, some index) ↦ elim (node_interface nodes node_id index) [
          | none ↦ none
          | some i ↦ elim (interface_mac i) [
            | none ↦ none
            | some mac ↦ some (
              (network_id, mac),
              record { lab_id = lab_id; node_id = node_id; interface_index = index },
            )
          ]
        ]
        | _ ↦ none
      ]
    ]

-- `fresh[...] = owner`, where the link has an entry
unfoldable pub add_entry :
    Option (RegistryKey × OwnerKey) → List (RegistryKey × OwnerKey) → List (RegistryKey × OwnerKey)
add_entry none fresh = fresh
add_entry (some (k, o)) fresh = Dict.put key_eq k o fresh

-- The loop over the links, from the dict built so far.
unfoldable pub fresh_entries :
    Text
    → List (ℕ × Node)
    → List Link
    → List (RegistryKey × OwnerKey)
    → List (RegistryKey × OwnerKey)
fresh_entries lab_id nodes [] fresh = fresh
fresh_entries lab_id nodes (link ∷ links) fresh =
    fresh_entries lab_id nodes links (add_entry (link_entry lab_id nodes link) fresh)

-- `[k for k, v in self._entries.items() if v[0] == lab_id]`
unfoldable pub stale_keys : Text → List (RegistryKey × OwnerKey) → List RegistryKey
stale_keys lab_id [] = []
stale_keys lab_id ((k, o) ∷ m) =
    let rest = stale_keys lab_id m in if text_eq o.lab_id lab_id then k ∷ rest else rest

-- `for key in stale_keys: del self._entries[key]`
unfoldable pub delete_keys :
    List RegistryKey → List (RegistryKey × OwnerKey) → List (RegistryKey × OwnerKey)
delete_keys [] m = m
delete_keys (k ∷ ks) m = delete_keys ks (Dict.remove key_eq k m)

-- `dict.update`
unfoldable pub update_with :
    List (RegistryKey × OwnerKey) → List (RegistryKey × OwnerKey) → List (RegistryKey × OwnerKey)
update_with [] m = m
update_with ((k, o) ∷ fresh) m = update_with fresh (Dict.put key_eq k o m)

unfoldable pub recompute_for_lab : Text → Lab → MacRegistry → MacRegistry
recompute_for_lab lab_id lab r =
    let fresh = fresh_entries lab_id lab.nodes lab.links [] in
    record { entries = update_with fresh (delete_keys (stale_keys lab_id r.entries) r.entries) }

-- `rebuild_all` over the labs that it can read, as pairs of the file's stem and its content
unfoldable pub rebuild_all : List (Text × Lab) → MacRegistry → MacRegistry
rebuild_all [] r = r
rebuild_all ((stem, lab) ∷ files) r = rebuild_all files (recompute_for_lab stem lab r)

-- `f"{octet:02x}"` for an octet
abbrev hex_digit : ℕ → ℕ
hex_digit d = if ltb d 10 then 48 + d else 87 + d

unfoldable pub hex2 : ℕ → Text
hex2 n = hex_digit (n / 16) ∷ hex_digit (n % 16) ∷ []

-- The MAC of a candidate: the prefix `50:00:00` and the three low octets.
unfoldable pub candidate_mac : ℕ → Text
candidate_mac c =
    codes "50:00:00:"
    ++ (hex2 (c / 2 ^ 16 % 256) ++ (b':' ∷ hex2 (c / 2 ^ 8 % 256)) ++ (b':' ∷ hex2 (c % 256)))

-- The value that `suggest_mac` starts from.
unfoldable pub suggest_start : (Text → Option ℕ) → Option Text → ℕ
suggest_start parse_hex none = 0
suggest_start parse_hex (some base) =
    let parts = split_on b':' (normalize_mac base) in
    let octet : ℕ → Option ℕ =
      λ i. elim (get_elem? parts i) [ none ↦ none | some t ↦ parse_hex t ] in
    if text_eq base [] then 0 else if ltb (length parts) 6 then 0 else elim (octet 3) [
      | none ↦ 0
      | some a ↦ elim (octet 4) [
        | none ↦ 0
        | some b ↦ elim (octet 5) [ none ↦ 0 | some c ↦ bit_or (bit_or (a * 2 ^ 16) (b * 2 ^ 8)) c ]
      ]
    ]

-- `(net_id, mac) in self._entries`
abbrev pub is_taken : MacRegistry → ℕ → Text → Bool
is_taken r network_id mac = elim (entry_at (network_id, mac) r) [ none ↦ false | some _ ↦ true ]

-- The loop of `suggest_mac`, the rounds left first.
unfoldable pub suggest_loop : MacRegistry → ℕ → ℕ → ℕ → Text
suggest_loop r network_id zero candidate = codes "50:00:00:00:00:00"
suggest_loop r network_id (suc rounds) candidate =
    let rest = suggest_loop r network_id rounds ((candidate + 1) % 2 ^ 24) in
    if is_taken r network_id (candidate_mac candidate) then rest else candidate_mac candidate

unfoldable pub suggest_mac : (Text → Option ℕ) → MacRegistry → ℕ → Option Text → Text
suggest_mac parse_hex r network_id base_mac =
    suggest_loop r network_id 0x1000000 (suggest_start parse_hex base_mac)

key_eq_iff_parts : (a b : RegistryKey) → (key_eq a b ≡ true) ↔ (a ≡ b)
key_eq_iff_parts (n, s) (m, t) = ground (arith, text_eq_iff s t)

pub key_eq_iff : (a b : RegistryKey) → (key_eq a b ≡ true) ↔ (a ≡ b)
key_eq_iff a b = key_eq_iff_parts a b
