-- ===== src/Wg/Calls.antt =====
-- The functions of internal/wg/wg.go keep what the calls of the system keep.
use pia_tun.Base.{
  ℕ, zero, suc, String, [], ◌∷◌, Option, none, some, M, Result, ok, err, Keeps, ◌==◌, max, str_eq,
}
use pia_tun.Base.Text.{fields}
use pia_tun.Base.Sequences.{
  bind-Keeps, then-Keeps, ignore-Keeps, attempt-Keeps, pure-Keeps, fail-Keeps, if-Keeps,
}
use pia_tun.Host.{Host, HostKeeps}
use pia_tun.Wg.Tunnel.{
  Config, generate_key_pair, or_else, ensure_tun, wait_for_interface, start_userspace, kernel_or,
  create_interface, rp_value, rp_filter_val, while_run, check_rp_of, check_rp_route,
  check_rp_filter, after_dev, configure, up, down, delete_rules, cleanup_routing_rules,
}

module _ {W : Type 0} (host : Host W) (P : W → Type 0) (k : HostKeeps host P) where
  pub generate_key_pair-Keeps : Keeps P (generate_key_pair host)
  unfolding generate_key_pair
  generate_key_pair-Keeps =
      bind-Keeps P (k.output _ _) (λ priv. bind-Keeps P (k.output _ _) (λ key. pure-Keeps P _))

  or_else-Keeps :
      (next : M W (Unit {0})) (r : Result (Unit {0})) → Keeps P next → Keeps P (or_else host next r)
  or_else-Keeps next (ok _) h = pure-Keeps P _
  or_else-Keeps next (err e) h = h

  ensure_tun-Keeps : Keeps P (ensure_tun host)
  unfolding ensure_tun
  ensure_tun-Keeps = bind-Keeps P (attempt-Keeps P (k.stat _)) (λ r. or_else-Keeps _ r (
      then-Keeps P
        (then-Keeps P (k.mkdir_all "/dev/net")
          (k.run ("mknod" ∷ "/dev/net/tun" ∷ "c" ∷ "10" ∷ "200" ∷ [])))
        (k.chmod "/dev/net/tun")))

  wait_for_interface-Keeps : (polls : ℕ) → Keeps P (wait_for_interface host polls)
  unfolding wait_for_interface
  wait_for_interface-Keeps zero = fail-Keeps P _
  wait_for_interface-Keeps (suc polls) = bind-Keeps P (attempt-Keeps P (k.stat _)) (λ r.
      or_else-Keeps _ r (
        then-Keeps P (then-Keeps P k.ctx_err (k.sleep 100000000)) (wait_for_interface-Keeps polls)))

  start_userspace-Keeps : (polls : ℕ) → Keeps P (start_userspace host polls)
  unfolding start_userspace
  start_userspace-Keeps polls =
      then-Keeps P ensure_tun-Keeps
        (then-Keeps P (k.start _) (then-Keeps P (wait_for_interface-Keeps polls) (pure-Keeps P _)))

  kernel_or-Keeps :
      (next : M W String) (r : Result (Unit {0})) → Keeps P next → Keeps P (kernel_or host next r)
  kernel_or-Keeps next (ok _) h = pure-Keeps P _
  kernel_or-Keeps next (err e) h = h

  create_interface-Keeps :
      (polls : ℕ) (backend : String) → Keeps P (create_interface host polls backend)
  unfolding create_interface
  create_interface-Keeps polls backend =
      if-Keeps P (str_eq backend "kernel") (then-Keeps P (k.run _) (pure-Keeps P _)) (
        if-Keeps P (str_eq backend "userspace") (start_userspace-Keeps polls) (
          bind-Keeps P (attempt-Keeps P (k.run _))
            (λ r. kernel_or-Keeps _ r (start_userspace-Keeps polls))))

  rp_filter_val-Keeps :
      (atoi : String → ℕ) (iface : String) → Keeps P (rp_filter_val host atoi iface)
  unfolding rp_filter_val
  rp_filter_val-Keeps atoi iface =
      bind-Keeps P (attempt-Keeps P (k.output _ _)) (λ r. pure-Keeps P (rp_value atoi r))

  check_rp_of-Keeps : (atoi : String → ℕ) (o : Option String) → Keeps P (check_rp_of host atoi o)
  check_rp_of-Keeps atoi none = pure-Keeps P _
  check_rp_of-Keeps atoi (some iface) = bind-Keeps P (rp_filter_val-Keeps atoi "all") (λ a.
      bind-Keeps P (rp_filter_val-Keeps atoi iface)
        (λ b. if-Keeps P (max a b == 1) (fail-Keeps P _) (pure-Keeps P _)))

  check_rp_route-Keeps :
      (atoi : String → ℕ) (r : Result String) → Keeps P (check_rp_route host atoi r)
  check_rp_route-Keeps atoi (ok out) = check_rp_of-Keeps atoi (after_dev (fields out))
  check_rp_route-Keeps atoi (err e) = pure-Keeps P _

  check_rp_filter-Keeps : (atoi : String → ℕ) → Keeps P (check_rp_filter host atoi)
  unfolding check_rp_filter
  check_rp_filter-Keeps atoi =
      bind-Keeps P (attempt-Keeps P (k.output _ _)) (check_rp_route-Keeps atoi)

  configure-Keeps : (atoi : String → ℕ) (cfg : Config) → Keeps P (configure host atoi cfg)
  unfolding configure
  configure-Keeps atoi cfg = then-Keeps P (bind-Keeps P (k.output _ _) (λ out. pure-Keeps P tt)) (
      then-Keeps P (k.run _) (
        then-Keeps P (k.run _) (
          then-Keeps P (k.run _) (
            then-Keeps P (k.run _) (
              then-Keeps P (k.run _) (
                then-Keeps P (check_rp_filter-Keeps atoi)
                  (then-Keeps P (k.run _) (then-Keeps P (k.run _) (k.run _)))))))))

  pub up-Keeps : (atoi : String → ℕ) (polls : ℕ) (cfg : Config) → Keeps P (up host atoi polls cfg)
  unfolding up
  up-Keeps atoi polls cfg =
      bind-Keeps P (create_interface-Keeps polls cfg.backend)
        (λ backend. then-Keeps P (configure-Keeps atoi cfg) (pure-Keeps P _))

  while_run-Keeps :
      (again : M W (Unit {0})) (r : Result (Unit {0}))
      → Keeps P again
      → Keeps P (while_run host again r)
  while_run-Keeps again (ok _) h = h
  while_run-Keeps again (err e) h = pure-Keeps P _

  delete_rules-Keeps : (fuel : ℕ) (p : String) → Keeps P (delete_rules host fuel p)
  unfolding delete_rules
  delete_rules-Keeps zero p = pure-Keeps P _
  delete_rules-Keeps (suc fuel) p =
      bind-Keeps P (attempt-Keeps P (k.run _))
        (λ r. while_run-Keeps (delete_rules host fuel p) r (delete_rules-Keeps fuel p))

  pub down-Keeps : (fuel : ℕ) → Keeps P (down host fuel)
  unfolding down cleanup_routing_rules
  down-Keeps fuel = then-Keeps P (ignore-Keeps P (k.run _)) (
      then-Keeps P (ignore-Keeps P (k.run _)) (
        then-Keeps P (ignore-Keeps P (k.run _)) (
          then-Keeps P (ignore-Keeps P (k.remove_file _))
            (then-Keeps P (delete_rules-Keeps fuel "200") (delete_rules-Keeps fuel "300")))))
