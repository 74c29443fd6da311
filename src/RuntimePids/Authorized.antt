-- ===== src/RuntimePids/Authorized.antt =====
-- The backend's registrations in the registry of pids, as the privileged helper sees them.
use nova_ve.Prelude.{
  ℕ, ◌≡◌, ◌≢◌, refl, ap, ◌∙◌, ◌≤◌, ◌<◌, Bool, true, false, ◌||◌, none, some, List, [], ◌∷◌, Text,
  ◌==◌, ==_refl, ltb, arith, strip, lstrip, rstrip,
}
use nova_ve.Prelude.Decimal.{str, all_digits, value_from}
use nova_ve.RuntimePids.{RegistryFile, written, register, unregister, lookup}
use nova_ve.RuntimePids.Lookup.{lookup-register, lookup-unregister, new_entry}
use nova_ve.NetHelper.Patterns.{matches, pid_pattern}
use nova_ve.NetHelper.Checks.{Host, Effect, finished, pure, raise_if, ◌>>=◌}
use nova_ve.NetHelper.Pids.{
  int_of, validate_pid_shape, registry_lookup, cgroup_or_comm_matches, authorize_pid_entry,
  authorize_pid,
}
use nova_ve.NetHelper.Hoare.{checked-finished}
use nova_ve.NetHelper.Validators.{authorize_pid-IsCheck}
use nova_ve.Prelude.Numerals.{all_digits-str, value_from-str}
use nova_ve.HostNet.Accepted.{last_numeral_matches}

rstrip_digits : (s : Text) → all_digits s ≡ true → rstrip s ≡ s
unfolding rstrip all_digits
rstrip_digits [] h = refl
rstrip_digits (c ∷ []) h = ground arith
rstrip_digits (c ∷ d ∷ s) h =
    let e : rstrip (d ∷ s) ≡ d ∷ s = rstrip_digits (d ∷ s) (ground arith) in rw e refl

lstrip_digits : (s : Text) → all_digits s ≡ true → lstrip s ≡ s
unfolding lstrip all_digits
lstrip_digits [] h = refl
lstrip_digits (c ∷ s) h = ground arith

strip_digits : (s : Text) → all_digits s ≡ true → strip s ≡ s
unfolding strip
strip_digits s h = ap rstrip (lstrip_digits s h) ∙ rstrip_digits s h

int_of-str : (p : ℕ) → int_of (str p) ≡ p
unfolding int_of
int_of-str p = ap (value_from 0) (strip_digits (str p) (all_digits-str p)) ∙ value_from-str p

validate_pid_shape-str :
    (p : ℕ) (t : List Effect) → 10 ≤ p → p < 10000000 → validate_pid_shape (str p) t ≡ finished p t
unfolding validate_pid_shape ◌>>=◌ raise_if pure
validate_pid_shape-str p t lo hi =
    let shape : matches pid_pattern (str p) ≡ true = last_numeral_matches 6 p hi in
    let allowed : (ltb p 10 || p == 1) ≡ false = ground arith in
    rw (shape, int_of-str p, allowed) refl

-- The helper looks a pid up as the backend does.
registry_lookup_same : (h : Host) (p : ℕ) → registry_lookup h p ≡ lookup p h.registry
unfolding registry_lookup lookup
registry_lookup_same h p = refl

module _ (h : Host) where
  -- After the backend has registered a pid from 10 to 9999999 of a process that looks like a
  -- container or QEMU, the helper that reads the file authorizes that pid.
  pub authorize_pid-register :
      (locked : Bool) (now p : ℕ) (kind lab_id : Text) (node_id generation : ℕ)
      (file : RegistryFile) (t : List Effect)
      → register locked now p kind lab_id node_id generation file ≡ written h.registry
      → 10 ≤ p
      → p < 10000000
      → cgroup_or_comm_matches h p ≡ true
      → authorize_pid h (str p) t ≡ finished p t
  unfolding authorize_pid authorize_pid_entry ◌>>=◌ raise_if pure
  authorize_pid-register locked now p kind lab_id node_id generation file t e lo hi live =
      let found : registry_lookup h p ≡ some (new_entry now p kind lab_id node_id generation) =
        registry_lookup_same h p
        ∙ lookup-register locked now p kind lab_id node_id generation file h.registry p e
        ∙ rw (==_refl p) refl in
      rw (validate_pid_shape-str p t lo hi, found, live) refl

  -- After the backend has dropped a pid, the helper that reads the file lets no argument pass that
  -- stands for it.
  pub authorize_pid-unregister :
      (locked : Bool) (p : ℕ) (file : RegistryFile) (value : Text) (t t' : List Effect)
      → unregister locked p file ≡ written h.registry
      → authorize_pid h value t ≢ finished p t'
  authorize_pid-unregister locked p file value t t' e passed =
      let (entry, (lo, found, live)) =
        checked-finished t t' p (authorize_pid-IsCheck h value) passed in
      let gone : registry_lookup h p ≡ none =
        registry_lookup_same h p
        ∙ lookup-unregister locked p file h.registry p e
        ∙ rw (==_refl p) refl in
      cc
