-- ===== src/Firewall/Simulated.antt =====
-- A system whose calls do what their documentation says: the tables are the state.
use pia_tun.Base.{
  String, List, [], ◌∷◌, ◌++◌, map, true, false, Option, none, some, ◌≡◌, refl, sym, ap, inl, arith,
  Result, ok, err, Error,
}
use pia_tun.Base.Text.{Bytes, codes}
use pia_tun.Base.Unseen.{has_text}
use pia_tun.Firewall.Os.{
  Os, Netfilter, Rules, Key, Op, Spec, Left, input, output, filter, ipv4, ipv6, changed, key_of,
  put, chain_name, drop_rule, vpn_in, vpn_out, vpn_in6, vpn_out6, clear_and_delete_chain, new_chain,
  append, insert, delete,
}
use pia_tun.Firewall.Chains.{in_filter, jump, established, loopback}
use pia_tun.Firewall.LocalNetworks.{Lans}
use pia_tun.Firewall.Closed.{IsClosed}
use pia_tun.Firewall.Policy.{policy}
use pia_tun.Firewall.Guards.{Reliable, IsReady}

abbrev pub words : Spec → Bytes
words [] = []
words (x ∷ xs) = codes " " ++ codes x ++ words xs

abbrev pub heading_of : Key → Bytes
heading_of k = codes "-N " ++ codes (chain_name k.chain)

abbrev pub line_of : Key → Spec → Bytes
line_of k s = codes "-A " ++ codes (chain_name k.chain) ++ words s

abbrev pub applied : Op → Rules → Option (Option (List Spec)) → Result (Unit {0}) × Rules
applied op t none = (err [], t)
applied op t (some v) = (ok tt, put (key_of op) v t)

abbrev pub shown : Key → Rules → Option (List Spec) → Result (List Bytes) × Rules
shown k t none = (err [], t)
shown k t (some rs) = (ok (heading_of k ∷ map (line_of k) rs), t)

-- `ip ... add` succeeds, and there is nothing to delete.
abbrev pub ip_of : List String → Rules → Result (Unit {0}) × Rules
ip_of args t = elim (has_text args "add") [ true ↦ (ok tt, t) | false ↦ (err [], t) ]

abbrev pub linux : Os
linux = record {
  World = Rules;
  iptables = λ op t. applied op t (changed op (t (key_of op)));
  list = λ k t. shown k t (t k);
  ip = ip_of;
  ip_output = λ args t. (ok "192.168.1.0/24 dev eth0 scope link", t);
}

pub applied_ok :
    (op : Op) (t u : Rules) (o : Option (Option (List Spec)))
    → applied op t o ≡ (ok tt, u)
    → (v : Option (List Spec)) × (o ≡ some v) × (u ≡ put (key_of op) v t)
applied_ok op t u none h = ground arith
applied_ok op t u (some v) h = (v, refl, sym (ap (λ p. p.1) h))

pub applied_err :
    (op : Op) (t u : Rules) (e : Error) (o : Option (Option (List Spec)))
    → applied op t o ≡ (err e, u)
    → t ≡ u
applied_err op t u e none h = ap (λ p. p.1) h
applied_err op t u e (some v) h = ground arith

pub unchanged-Left : (op : Op) (t u : Rules) → u ≡ t → Left op t u
unchanged-Left (clear_and_delete_chain k) t u h = inl h
unchanged-Left (new_chain k) t u h = h
unchanged-Left (append k s) t u h = h
unchanged-Left (insert k n s) t u h = h
unchanged-Left (delete k s) t u h = h

pub shown_ok :
    (k : Key) (t u : Rules) (ls : List Bytes) (o : Option (List Spec))
    → shown k t o ≡ (ok ls, u)
    → (rs : List Spec) × (o ≡ some rs) × (ls ≡ heading_of k ∷ map (line_of k) rs)
shown_ok k t u ls none h = ground arith
shown_ok k t u ls (some rs) h = (rs, refl, ground arith)

pub shown_rules : (k : Key) (t : Rules) (o : Option (List Spec)) → (shown k t o).1 ≡ t
shown_rules k t none = refl
shown_rules k t (some rs) = refl

pub ip_of_rules : (args : List String) (t : Rules) → (ip_of args t).1 ≡ t
ip_of_rules args t = ground arith

abbrev pub linux_netfilter : Netfilter linux
linux_netfilter = record {
  rules = λ t. t;
  heading = heading_of;
  line = line_of;
  iptables_ok = λ op t u h. applied_ok op t u (changed op (t (key_of op))) h;
  iptables_err = λ op t u e h.
      unchanged-Left op t u (sym (applied_err op t u e (changed op (t (key_of op))) h));
  list_ok = λ k t u ls h. shown_ok k t u ls (t k) h;
  list_rules = λ k t. shown_rules k t (t k);
  ip_rules = ip_of_rules;
  ip_output_rules = λ args t. refl;
  heading_append = λ k. refl;
  line_append = λ k s. refl;
}

-- The built-in chains, empty.
abbrev pub fresh : Rules
fresh =
    put (record { family = ipv4; table = filter; chain = input }) (some [])
      (put (record { family = ipv4; table = filter; chain = output }) (some [])
        (put (record { family = ipv6; table = filter; chain = input }) (some [])
          (put (record { family = ipv6; table = filter; chain = output }) (some []) (λ k. none))))

abbrev pub sealed_chain : String → List Spec
sealed_chain flag = established ∷ loopback flag ∷ drop_rule ∷ []

-- The four chains as `setupBaselineChains` leaves them.
abbrev pub baseline : Rules
baseline = put (in_filter ipv4 vpn_in) (some (sealed_chain "-i")) (
    put (in_filter ipv4 vpn_out) (some (sealed_chain "-o")) (
      put (in_filter ipv6 vpn_in6) (some (sealed_chain "-i")) (
        put (in_filter ipv6 vpn_out6) (some (sealed_chain "-o")) (
          put (in_filter ipv4 input) (some (jump vpn_in ∷ [])) (
            put (in_filter ipv4 output) (some (jump vpn_out ∷ [])) (
              put (in_filter ipv6 input) (some (jump vpn_in6 ∷ []))
                (put (in_filter ipv6 output) (some (jump vpn_out6 ∷ [])) (λ k. none))))))))

abbrev pub lan : Lans
lan = record { v4 = "10.0.0.0/8" ∷ []; v6 = [] }

pub baseline-IsClosed : IsClosed (policy lan) baseline
baseline-IsClosed = record {
  in4 = (established ∷ loopback "-i" ∷ [], refl, omega arith, refl);
  out4 = (established ∷ loopback "-o" ∷ [], refl, omega arith, refl);
  in6 = (established ∷ loopback "-i" ∷ [], refl, omega arith, refl);
  out6 = (established ∷ loopback "-o" ∷ [], refl, omega arith, refl);
  in4_wired = ([], refl);
  out4_wired = ([], refl);
  in6_wired = ([], refl);
  out6_wired = ([], refl);
}

pub linux-Reliable : Reliable linux linux_netfilter
linux-Reliable = record { succeeds = λ op t v h. (put (key_of op) v t, ap (applied op t) h) }

-- No exemption is in force.
pub baseline-IsReady : IsReady baseline (sealed_chain "-o")
baseline-IsReady = record { no_exemptions = refl; out_rules = refl }
