-- ===== src/NetHelper/Checks.antt =====
-- What deploy/nova-ve-net.py reads of its host, its effects in their order, and its validators.
-- A run of the helper passes the trace of its effects along; `_ValidationError` is an outcome, and so
-- is an exception that nothing catches, `crashed`.
use nova_ve.Prelude.{
  ℕ, Bool, true, false, ◌||◌, Option, none, some, List, [], ◌∷◌, ◌++◌, Text, codes, if◌then◌else◌,
  not, ltb, ◌==◌,
}
use nova_ve.Prelude.Decimal.{str}
use nova_ve.Prelude.Integers.{ℤ}
use nova_ve.RuntimePids.{RegistryFile}
use nova_ve.NetHelper.Patterns.{
  Pattern, matches, bridge_pattern, host_bridge_pattern, tap_pattern, veth_pattern, netns_pattern,
  host_iface_pattern,
}

-- `subprocess.run` with its output shown or captured, and the other calls of the system: `signalled`
-- is `os.kill`, which takes a number below 1 for a group, and `signalled_group` is `os.killpg`.
pub data Effect : Type 0 where
  ran captured : List Text → Effect
  wrote_file : Text → Text → Effect
  removed_file : Text → Effect
  signalled : ℤ → ℕ → Effect
  signalled_group : ℕ → ℕ → Effect
  spawned_proxy : ℕ → ℕ → ℕ → Effect

-- What /proc/<pid>/cmdline gives: no file, no access, or its pieces between the NUL bytes.
pub data Cmdline : Type 0 where
  gone denied : Cmdline
  pieces : List Text → Cmdline

-- The host: the file of the registry, /proc, the results of the programs and calls after the
-- effects so far, and the parsers of `ipaddress`, each with the text it prints.
pub record Host : Type 0 where
  pub registry : RegistryFile
  pub proc_text : ℕ → Text → Text
  pub proc_cmdline : ℕ → Cmdline
  pub proxy_is_executable : Bool
  pub exit_code : List Effect → List Text → ℕ
  pub output : List Effect → List Text → Text
  pub file_text : List Effect → Text → Option Text
  pub call_succeeds : List Effect → Effect → Bool
  pub ipv4_interface : Text → Option (Text × ℕ)
  pub ipv4_network : Text → Option Text
  pub ipv4_address : Text → Option (Text × ℕ)

pub data Outcome {ℓ} (A : Type ℓ) : Type ℓ where
  finished : A → List Effect → Outcome A
  invalid : Text → List Effect → Outcome A
  crashed : List Effect → Outcome A

abbrev pub Helper {ℓ} : Type ℓ → Type ℓ
Helper A = List Effect → Outcome A

unfoldable pub pure {ℓ} : {A : Type ℓ} → A → Helper A
pure a t = finished a t

abbrev pub bind_outcome {ℓ κ} : {A : Type ℓ} {B : Type κ} → Outcome A → (A → Helper B) → Outcome B
bind_outcome (finished a t) f = f a t
bind_outcome (invalid e t) f = invalid e t
bind_outcome (crashed t) f = crashed t

infixl 5 ◌>>=◌ ◌>>◌
unfoldable pub ◌>>=◌ {ℓ κ} : {A : Type ℓ} {B : Type κ} → Helper A → (A → Helper B) → Helper B
(m >>= f) t = bind_outcome (m t) f

abbrev pub ◌>>◌ {ℓ} : {B : Type ℓ} → Helper (Unit {0}) → Helper B → Helper B
m >> k = m >>= λ _. k

-- `raise _ValidationError(label)`
unfoldable pub raise {ℓ} : {A : Type ℓ} → Text → Helper A
raise label t = invalid label t

-- An exception that nothing catches
unfoldable pub crash {ℓ} : {A : Type ℓ} → Helper A
crash t = crashed t

unfoldable pub raise_if : Bool → Text → Helper (Unit {0})
raise_if true label t = invalid label t
raise_if false label t = finished tt t

-- `_check_regex`
unfoldable pub check_regex : Text → Pattern → Text → Helper Text
check_regex value p label t = if matches p value then finished value t else invalid label t

unfoldable pub validate_bridge_name : Text → Helper Text
validate_bridge_name value = check_regex value bridge_pattern (codes "bridge_name")

unfoldable pub validate_host_bridge_name : Text → Helper Text
validate_host_bridge_name value = check_regex value host_bridge_pattern (codes "host_bridge_name")

unfoldable pub validate_tap_name : Text → Helper Text
validate_tap_name value = check_regex value tap_pattern (codes "tap_name")

unfoldable pub validate_veth_name : Text → Text → Helper Text
validate_veth_name label value = check_regex value veth_pattern label

abbrev pub is_owned_name : Text → Bool
is_owned_name value =
    matches tap_pattern value || (matches veth_pattern value || matches bridge_pattern value)

unfoldable pub validate_iface_name : Text → Text → Helper Text
validate_iface_name label value t =
    if is_owned_name value then finished value t else invalid label t

unfoldable pub validate_netns_iface : Text → Helper Text
validate_netns_iface value = check_regex value netns_pattern (codes "netns_iface")

unfoldable pub validate_host_iface : Text → Helper Text
validate_host_iface value = check_regex value host_iface_pattern (codes "host_iface")

unfoldable pub some_or_raise {ℓ} : {A : Type ℓ} → Text → Option A → Helper A
some_or_raise label none t = invalid label t
some_or_raise label (some a) t = finished a t

-- Whether a character is in the text.
unfoldable pub has_char : ℕ → Text → Bool
has_char c [] = false
has_char c (d ∷ s) = d == c || has_char c s

-- `validate_cidr`: the address and the length of the prefix, which the text has to show
unfoldable pub validate_cidr : Host → Text → Helper Text
validate_cidr h value = do
  (address, bits) ← some_or_raise (codes "cidr") (h.ipv4_interface value)
  raise_if (not (has_char b'/' value)) (codes "cidr")
  raise_if (ltb 32 bits) (codes "cidr")
  pure (address ++ (b'/' ∷ str bits))

unfoldable pub validate_network_cidr : Host → Text → Helper Text
validate_network_cidr h value = some_or_raise (codes "network_cidr") (h.ipv4_network value)

-- `validate_ipv4`, with the address as a number beside its text
unfoldable pub validate_ipv4 : Host → Text → Text → Helper (Text × ℕ)
validate_ipv4 h label value = some_or_raise label (h.ipv4_address value)

-- `_run`, `_run_capture` and the other calls, which end the trace.
module _ (h : Host) where
  unfoldable pub run : List Text → Helper ℕ
  run argv t = finished (h.exit_code t argv) (t ++ (ran argv ∷ []))

  -- The exit code and the output
  unfoldable pub run_capture : List Text → Helper (ℕ × Text)
  run_capture argv t = finished (h.exit_code t argv, h.output t argv) (t ++ (captured argv ∷ []))

  -- A call of the system, and whether it succeeds
  unfoldable pub call : Effect → Helper Bool
  call e t = finished (h.call_succeeds t e) (t ++ (e ∷ []))

  abbrev pub done_or_crash : Bool → Helper (Unit {0})
  done_or_crash done = if done then pure tt else crash

  -- A call whose exception nothing catches
  abbrev pub call_or_crash : Effect → Helper (Unit {0})
  call_or_crash e = call e >>= done_or_crash

  unfoldable pub read_text : Text → Helper (Option Text)
  read_text path t = finished (h.file_text t path) t
