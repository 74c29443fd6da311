-- ===== src/HostNet.antt =====
-- backend/app/services/host_net.py: the names of bridges, taps and veths, and the errors that the
-- backend makes of the helper's exit codes.
pub mod Accepted
pub mod Distinct
mod Tests
use nova_ve.Prelude.{
  ℕ, ◌+◌, ◌/◌, ◌%◌, Bool, true, false, ◌||◌, not, Option, none, some, List, [], ◌∷◌, ◌++◌, Text,
  codes, text_eq, ltb, ◌==◌, if◌then◌else◌, length, strip, to_lower,
}
use nova_ve.Prelude.Decimal.{str}
use nova_ve.NetHelper.Nat.{contains}

-- What reading the instance-id file gives.
pub data IdFile : Type 0 where
  missing unreadable : IdFile
  content : Text → IdFile

-- A name, or the exception in its place
pub data Named : Type 0 where
  named : Text → Named
  instance_id_missing assertion_error : Named

abbrev id_or_missing : Text → Option Text
id_or_missing value = if text_eq value [] then none else some value

-- `get_instance_id`, with `none` for `HostNetInstanceIdMissing`
unfoldable pub get_instance_id : IdFile → Option Text
get_instance_id missing = none
get_instance_id unreadable = none
get_instance_id (content raw) = id_or_missing (strip raw)

abbrev pub hex_char : ℕ → ℕ
hex_char d = if ltb d 10 then 48 + d else 87 + d

-- `f"{h:04x}"` of a number below 65536
unfoldable pub hex4 : ℕ → Text
hex4 n =
    hex_char (n / 4096) ∷ hex_char (n / 256 % 16) ∷ hex_char (n / 16 % 16) ∷ hex_char (n % 16) ∷ []

abbrev pub bridge_text : ℕ → ℕ → Text
bridge_text h network_id = codes "nove" ++ (hex4 h ++ (b'n' ∷ str network_id))

abbrev pub tap_text : ℕ → ℕ → ℕ → Text
tap_text h node_id iface = codes "nve" ++ (hex4 h ++ (b'd' ∷ (str node_id ++ (b'i' ∷ str iface))))

abbrev pub veth_text : ℕ → ℕ → ℕ → ℕ → Text
veth_text side h node_id iface =
    codes "nve" ++ (hex4 h ++ (b'd' ∷ (str node_id ++ (b'i' ∷ (str iface ++ (side ∷ []))))))

-- The `assert` on the length
abbrev pub checked_name : Text → Named
checked_name name = if ltb 14 (length name) then assertion_error else named name

-- The instance id is read first.
abbrev pub name_of : Option Text → (Text → Text) → Named
name_of none name = instance_id_missing
name_of (some id) name = checked_name (name id)

-- `int(blake2b(text, digest_size=2).hexdigest(), 16)` is the parameter.
module _ (digest : Text → ℕ) where
  unfoldable pub lab_hash : Text → Text → ℕ
  lab_hash lab_id instance_id = digest (instance_id ++ (b':' ∷ lab_id))

  unfoldable pub bridge_name : IdFile → Text → ℕ → Named
  bridge_name file lab_id network_id =
      name_of (get_instance_id file) (λ id. bridge_text (lab_hash lab_id id) network_id)

  unfoldable pub tap_name : IdFile → Text → ℕ → ℕ → Named
  tap_name file lab_id node_id iface =
      name_of (get_instance_id file) (λ id. tap_text (lab_hash lab_id id) node_id iface)

  unfoldable pub veth_host_name : IdFile → Text → ℕ → ℕ → Named
  veth_host_name file lab_id node_id iface =
      name_of (get_instance_id file) (λ id. veth_text b'h' (lab_hash lab_id id) node_id iface)

  unfoldable pub veth_peer_name : IdFile → Text → ℕ → ℕ → Named
  veth_peer_name file lab_id node_id iface =
      name_of (get_instance_id file) (λ id. veth_text b'p' (lab_hash lab_id id) node_id iface)

-- `HostNetError` and its kinds
pub data HostNetError : Type 0 where
  host_net_validation_error host_net_eexist host_net_einval host_net_unknown : HostNetError

abbrev is_invalid : Text → Bool
is_invalid lower =
    contains (codes "invalid argument") lower
    || (contains (codes "does not exist") lower || contains (codes "no such") lower)

-- `_classify_helper_error`
unfoldable pub classify_helper_error : Text → ℕ → HostNetError
classify_helper_error stderr returncode =
    let lower = to_lower stderr in
    if returncode == 2
    then host_net_validation_error
    else if returncode == 3
    then host_net_unknown
    else if contains (codes "file exists") lower
    then host_net_eexist
    else if is_invalid lower
    then host_net_einval
    else host_net_unknown

-- `_invoke_helper`: the error of a run of the helper, if its exit code is not 0
unfoldable pub invoke_error : Text → ℕ → Option HostNetError
invoke_error stderr returncode =
    if returncode == 0 then none else some (classify_helper_error stderr returncode)
