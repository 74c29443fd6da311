-- ===== src/NetHelper/Confined/ProcessVerbs.antt =====
-- The verbs on processes keep to the policy of the helper.
use nova_ve.Prelude.{
  ℕ, zero, suc, ◌≡◌, ◌≤◌, refl, inl, inr, ◌⊎◌, false, not, Option, none, some, List, Text, codes,
  text_eq, ltb, arith, Bool-cases, strip,
}
use nova_ve.NetHelper.Checks.{Host, Helper, Effect, Cmdline, gone, denied, pieces}
use nova_ve.NetHelper.Pids.{qemu_cmdline_matches}
use nova_ve.NetHelper.Processes.{
  is_other_program, is_proxy, cmdline_at, dnsmasq_pidfile, kill_pid, stop_pid, pid_in,
  dnsmasq_stop_bridge, proxy_target, wait_for_exit, stop_proxy, signal_number, signal_group,
  cmd_dnsmasq_start, cmd_dnsmasq_stop, cmd_console_proxy_start, cmd_console_proxy_stop,
  cmd_qemu_process_signal,
}
use nova_ve.Prelude.Decimal.{value_from}
use nova_ve.Prelude.Integers.{ℤ, pos, negsuc}
use nova_ve.NetHelper.Verbs.{Verb}
use nova_ve.NetHelper.Hoare.{
  IsCheck, IsAction, IsGuarded, bind-IsAction, bind-IsGuarded, pure-IsCheck, raise-IsGuarded,
  pure-IsAction, if-IsAction, IsAction-IsGuarded, run-IsAction, call-IsAction,
  call_or_crash-IsAction, crash-IsAction, read_text-IsAction, raise_if-IsCheck, checked_weaken,
}
use nova_ve.NetHelper.Policy.{
  IsAllowed, IsAuthorized, IsBridge, IsRecorded, IsProxy, MayKill, IsSignallable, dnsmasq,
}
use nova_ve.NetHelper.Validators.{
  IsBridge-IsCheck, ipv4-IsCheck, validate_port-IsCheck, authorize_pid-IsCheck,
  authorize_pid_entry-IsCheck,
}

module _ (h : Host) (v : Verb) where
  abbrev IsActing {ℓ} : {A : Type ℓ} → Helper A → Type 0
  IsActing m = IsAction (IsAllowed h v) m

  recorded-MayKill :
      (p : ℤ)
      → IsRecorded h p
      → is_other_program (codes "dnsmasq") (cmdline_at h p) ≡ false
      → MayKill h p 15
  recorded-MayKill (pos p) r e = inl (r, refl, e)
  recorded-MayKill (negsuc m) r e = (r, refl)

  kill_pid-IsAction : (b : Text) (p : ℤ) → IsBridge b → MayKill h p 15 → IsActing (kill_pid h b p)
  kill_pid-IsAction b p owned may =
      bind-IsAction _ (call-IsAction h _ may) λ sent. call_or_crash-IsAction h _ (b, owned, refl)

  stop_pid-IsAction :
      (b : Text) (o : Option ℤ)
      → IsBridge b
      → ((p : ℤ) → o ≡ some p → IsRecorded h p)
      → IsActing (stop_pid h b o)
  stop_pid-IsAction b none owned r = pure-IsAction tt
  stop_pid-IsAction b (some p) owned r =
      elim (Bool-cases (is_other_program (codes "dnsmasq") (cmdline_at h p))) [
        | inl e ↦ rw e (pure-IsAction tt)
        | inr e ↦ rw e (
            if-IsAction _ _ _ (kill_pid-IsAction b p owned (recorded-MayKill p (r p refl) e))
              crash-IsAction)
      ]

  IsRecorded-read :
      (b : Text) (t : List Effect) (raw : Option Text) (p : ℤ)
      → IsBridge b
      → h.file_text t (dnsmasq_pidfile b) ≡ raw
      → pid_in raw ≡ some p
      → IsRecorded h p
  IsRecorded-read b t none p owned e q = cc
  IsRecorded-read b t (some raw) p owned e q = (b, owned, t, raw, e, q)

  stop_bridge-IsAction : (b : Text) → IsBridge b → IsActing (dnsmasq_stop_bridge h b)
  unfolding dnsmasq_stop_bridge
  stop_bridge-IsAction b owned =
      read_text-IsAction h _ _
        λ t raw e. stop_pid-IsAction b (pid_in raw) owned λ p q. IsRecorded-read b t raw p owned e q

  pub cmd_dnsmasq_start-IsGuarded :
      (bridge g s e : Text) → IsGuarded (IsAllowed h v) (cmd_dnsmasq_start h bridge g s e)
  unfolding cmd_dnsmasq_start
  cmd_dnsmasq_start-IsGuarded bridge g s e = bind-IsGuarded _ (IsBridge-IsCheck bridge) λ b p.
      bind-IsGuarded _ (ipv4-IsCheck h _ g) λ g' u. bind-IsGuarded _ (ipv4-IsCheck h _ s) λ s' w.
        bind-IsGuarded _ (ipv4-IsCheck h _ e) λ e' x. bind-IsGuarded _ (raise_if-IsCheck _ _) λ y d.
          IsAction-IsGuarded (
            bind-IsAction _ (stop_bridge-IsAction b p) λ z.
              bind-IsAction _ (call_or_crash-IsAction h _ (inr (b, p, refl)))
                λ done. run-IsAction h _ (dnsmasq b p))

  pub cmd_dnsmasq_stop-IsGuarded :
      (bridge : Text) → IsGuarded (IsAllowed h v) (cmd_dnsmasq_stop h bridge)
  unfolding cmd_dnsmasq_stop
  cmd_dnsmasq_stop-IsGuarded bridge =
      bind-IsGuarded _ (IsBridge-IsCheck bridge)
        λ b p. IsAction-IsGuarded (bind-IsAction _ (stop_bridge-IsAction b p) λ u. pure-IsAction 0)

  abbrev MayTarget : ℕ → Type 0
  MayTarget p = (p ≡ 0) ⊎ IsAuthorized h p

  proxy_target-IsCheck : (pid : Text) → IsCheck MayTarget (proxy_target h pid)
  proxy_target-IsCheck pid = elim (Bool-cases (text_eq (strip pid) (codes "0"))) [
    | inl e ↦ rw e (pure-IsCheck 0 (inl refl))
    | inr e ↦ rw e (checked_weaken (λ p a. inr a) (authorize_pid-IsCheck h pid))
  ]

  pub cmd_console_proxy_start-IsGuarded :
      (pid listen target : Text)
      → IsGuarded (IsAllowed h v) (cmd_console_proxy_start h pid listen target)
  unfolding cmd_console_proxy_start
  cmd_console_proxy_start-IsGuarded pid listen target =
      bind-IsGuarded _ (proxy_target-IsCheck pid) λ p a.
        bind-IsGuarded _ (validate_port-IsCheck _ listen) λ l b.
          bind-IsGuarded _ (validate_port-IsCheck _ target) λ t c.
            bind-IsGuarded _ (raise_if-IsCheck _ _) λ u d.
              let low : ltb l 1024 ≡ false = d in
              IsAction-IsGuarded (
                if-IsAction h.proxy_is_executable _ _
                  (bind-IsAction _ (call-IsAction h _ (a, (ground arith, b.1), c))
                    λ done. pure-IsAction _)
                  (pure-IsAction 1))

  wait_for_exit-IsAction : (rounds p : ℕ) → IsProxy h p → IsActing (wait_for_exit h rounds p)
  unfolding wait_for_exit
  wait_for_exit-IsAction zero p s = bind-IsAction _ (call-IsAction h _ (inr s)) λ d. pure-IsAction 0
  wait_for_exit-IsAction (suc rounds) p s =
      bind-IsAction _ (call-IsAction h _ (inr s))
        λ alive. if-IsAction alive _ _ (wait_for_exit-IsAction rounds p s) (pure-IsAction 0)

  stop_proxy-IsAction :
      (c : Cmdline) (p : ℕ) → 2 ≤ p → h.proc_cmdline p ≡ c → IsActing (stop_proxy h c p)
  stop_proxy-IsAction gone p lo e = pure-IsAction 0
  stop_proxy-IsAction denied p lo e = pure-IsAction 1
  stop_proxy-IsAction (pieces ps) p lo e = elim (Bool-cases (is_proxy h (pieces ps))) [
    | inl f ↦
        let s : IsProxy h p = (lo, rw e f) in
        rw f (
          bind-IsAction _ (call-IsAction h _ (inr s))
            λ sent. if-IsAction sent _ _ (wait_for_exit-IsAction 20 p s) (pure-IsAction 0))
    | inr f ↦ rw f (pure-IsAction 1)
  ]

  pub cmd_console_proxy_stop-IsGuarded :
      (pid : Text) → IsGuarded (IsAllowed h v) (cmd_console_proxy_stop h pid)
  unfolding cmd_console_proxy_stop
  cmd_console_proxy_stop-IsGuarded pid = bind-IsGuarded _ (raise_if-IsCheck _ _) λ u d.
      bind-IsGuarded _ (raise_if-IsCheck _ _) λ w e. IsAction-IsGuarded (
        stop_proxy-IsAction _ _ (let d : ltb (value_from 0 pid) 2 ≡ false = e in ground arith) refl)

  signal_group-IsGuarded :
      (p : ℕ) (n : Option ℕ) → IsSignallable h p → IsGuarded (IsAllowed h v) (signal_group h p n)
  signal_group-IsGuarded p none s = raise-IsGuarded (codes "signal")
  signal_group-IsGuarded p (some n) s =
      IsAction-IsGuarded (bind-IsAction _ (call-IsAction h _ s) λ d. pure-IsAction 0)

  pub cmd_qemu_process_signal-IsGuarded :
      (pid signal : Text) → IsGuarded (IsAllowed h v) (cmd_qemu_process_signal h pid signal)
  unfolding cmd_qemu_process_signal
  cmd_qemu_process_signal-IsGuarded pid signal =
      bind-IsGuarded _ (authorize_pid_entry-IsCheck h pid) λ a auth.
        bind-IsGuarded _ (raise_if-IsCheck _ _) λ u d.
          bind-IsGuarded _ (raise_if-IsCheck _ _) λ w e.
            let kind : not (text_eq a.1.kind (codes "qemu")) ≡ false = d in
            let fingerprint : not (qemu_cmdline_matches h a.0 a.1) ≡ false = e in
            signal_group-IsGuarded a.0 (signal_number h signal)
              (a.1, auth, ground arith, ground arith)
