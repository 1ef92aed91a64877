-- ===== src/Firewall/Chains.antt =====
-- internal/firewall/chains.go: the four chains, their baseline, and the checks on them.
use pia_tun.Base.{
  ℕ, zero, suc, String, List, [], ◌∷◌, ◌++◌, Bool, true, false, ◌==◌, if◌then◌else◌, M, Result, ok,
  err, ◌>>=◌, ◌>>◌, pure, fail, ignore, attempt,
}
use pia_tun.Base.Text.{Bytes, codes, has_prefix, has_suffix, contains}
use pia_tun.Firewall.Os.{
  Os, Key, Family, ipv4, ipv6, Chain, input, output, vpn_in, vpn_out, vpn_in6, vpn_out6, filter,
  Spec, drop_rule, new_chain, append, insert, delete, clear_and_delete_chain, chain_name,
}

pub record ChainDef : Type 0 where
  pub name : Chain
  pub parent : Chain
  pub ipt : Family
  pub lo_flag : String

abbrev pub chain_defs : List ChainDef
chain_defs =
    record { name = vpn_in; parent = input; ipt = ipv4; lo_flag = "-i" }
    ∷ record { name = vpn_out; parent = output; ipt = ipv4; lo_flag = "-o" }
    ∷ record { name = vpn_in6; parent = input; ipt = ipv6; lo_flag = "-i" }
    ∷ record { name = vpn_out6; parent = output; ipt = ipv6; lo_flag = "-o" }
    ∷ []

-- A chain of the table `filter`.
abbrev pub in_filter : Family → Chain → Key
in_filter f c = record { family = f; table = filter; chain = c }

abbrev pub established : Spec
established = "-m" ∷ "conntrack" ∷ "--ctstate" ∷ "ESTABLISHED,RELATED" ∷ "-j" ∷ "ACCEPT" ∷ []

abbrev pub loopback : String → Spec
loopback flag = flag ∷ "lo" ∷ "-j" ∷ "ACCEPT" ∷ []

abbrev pub jump : Chain → Spec
jump c = "-j" ∷ chain_name c ∷ []

-- `count` of `ruleCount`: the lines that begin with "-A ".
abbrev pub count_rules : List Bytes → ℕ
count_rules [] = 0
count_rules (l ∷ ls) = let n = count_rules ls in if has_prefix l (codes "-A ") then suc n else n

abbrev pub some_line : (Bytes → Bool) → List Bytes → Bool
some_line p [] = false
some_line p (l ∷ ls) = if p l then true else some_line p ls

abbrev pub is_drop_line : Bytes → Bool
is_drop_line l = has_suffix l (codes "-j DROP")

abbrev pub is_jump_line : Chain → Bytes → Bool
is_jump_line child l = contains l (codes "-j " ++ codes (chain_name child))

module _ (os : Os) where
  open os use {World, iptables, list}

  unfoldable pub cleanup_chains : List ChainDef → M World (Unit {0})
  cleanup_chains [] = pure tt
  cleanup_chains (c ∷ cs) = do
    ignore (iptables (delete (in_filter c.ipt c.parent) (jump c.name)))
    ignore (iptables (clear_and_delete_chain (in_filter c.ipt c.name)))
    cleanup_chains cs

  -- The body of the loop of `setupBaselineChains`.
  unfoldable pub setup_chain : ChainDef → M World (Unit {0})
  setup_chain c = do
    iptables (new_chain (in_filter c.ipt c.name))
    iptables (append (in_filter c.ipt c.name) established)
    iptables (append (in_filter c.ipt c.name) (loopback c.lo_flag))
    iptables (append (in_filter c.ipt c.name) drop_rule)
    iptables (insert (in_filter c.ipt c.parent) 1 (jump c.name))

  unfoldable pub setup_chains : List ChainDef → M World (Unit {0})
  setup_chains [] = pure tt
  setup_chains (c ∷ cs) = do setup_chain c; setup_chains cs

  unfoldable pub setup_baseline_chains : M World (Unit {0})
  setup_baseline_chains = do cleanup_chains chain_defs; setup_chains chain_defs

  unfoldable pub rule_count : Key → M World ℕ
  rule_count k = do
    lines ← list k
    if count_rules lines == 0 then fail [] else pure (count_rules lines)

  unfoldable pub insert_before_drop : Key → Spec → M World (Unit {0})
  insert_before_drop k spec = do pos ← rule_count k; iptables (insert k pos spec)

  -- A listing that fails has no such rule.
  abbrev pub listed : (Bytes → Bool) → Result (List Bytes) → M World Bool
  listed p (ok lines) = pure (some_line p lines)
  listed p (err e) = pure false

  unfoldable pub chain_has_drop : Key → M World Bool
  chain_has_drop k = do r ← attempt (list k); listed is_drop_line r

  unfoldable pub chain_is_in_parent : Family → Chain → Chain → M World Bool
  chain_is_in_parent f parent child = do
    r ← attempt (list (in_filter f parent))
    listed (is_jump_line child) r

  -- `a && b`, where `b` makes calls of its own.
  abbrev pub and_then : M World Bool → M World Bool → M World Bool
  and_then a b = do x ← a; if x then b else pure false

  unfoldable pub check_chains_present : M World Bool
  check_chains_present = and_then (chain_has_drop (in_filter ipv4 vpn_in)) (
      and_then (chain_is_in_parent ipv4 input vpn_in) (
        and_then (chain_has_drop (in_filter ipv4 vpn_out)) (
          and_then (chain_is_in_parent ipv4 output vpn_out) (
            and_then (chain_has_drop (in_filter ipv6 vpn_in6)) (
              and_then (chain_is_in_parent ipv6 input vpn_in6) (
                and_then (chain_has_drop (in_filter ipv6 vpn_out6))
                  (chain_is_in_parent ipv6 output vpn_out6)))))))

  -- The loop of `verifyKillswitch`, over the attempts left; the waits between them are left out.
  unfoldable pub verify_attempts : ℕ → M World (Unit {0})
  verify_attempts zero = fail []
  verify_attempts (suc n) = do
    present ← check_chains_present
    let again = verify_attempts n
    if present then pure tt else again

  unfoldable pub verify_killswitch : M World (Unit {0})
  verify_killswitch = verify_attempts 4
