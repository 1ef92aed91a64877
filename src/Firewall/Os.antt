-- ===== src/Firewall/Os.antt =====
-- What internal/firewall asks of code outside the repository: go-iptables and the `ip` command.
-- `Os` is the calls, with a state of their own; `Netfilter` is their documented behaviour.
use pia_tun.Base.{
  ℕ, zero, suc, String, List, [], ◌∷◌, ◌++◌, map, Bool, true, false, ◌&&◌, Option, none, some, ◌≡◌,
  ◌⊎◌, ◌==◌, str_eq, leb, length, if◌then◌else◌, M, ok, err, Error,
}
use pia_tun.Base.Text.{Bytes, codes, has_prefix}

pub data Family : Type 0 where
  ipv4 ipv6 : Family

pub data Table : Type 0 where
  filter mangle : Table

-- The chains that the code names.
pub data Chain : Type 0 where
  input output forward vpn_in vpn_out vpn_in6 vpn_out6 vpn_exemptions : Chain

pub record Key : Type 0 where
  pub family : Family
  pub table : Table
  pub chain : Chain

abbrev pub chain_name : Chain → String
chain_name input = "INPUT"
chain_name output = "OUTPUT"
chain_name forward = "FORWARD"
chain_name vpn_in = "VPN_IN"
chain_name vpn_out = "VPN_OUT"
chain_name vpn_in6 = "VPN_IN6"
chain_name vpn_out6 = "VPN_OUT6"
chain_name vpn_exemptions = "VPN_EXEMPTIONS"

abbrev pub family_code : Family → ℕ
family_code ipv4 = 0
family_code ipv6 = 1

abbrev pub table_code : Table → ℕ
table_code filter = 0
table_code mangle = 1

abbrev pub chain_code : Chain → ℕ
chain_code input = 0
chain_code output = 1
chain_code forward = 2
chain_code vpn_in = 3
chain_code vpn_out = 4
chain_code vpn_in6 = 5
chain_code vpn_out6 = 6
chain_code vpn_exemptions = 7

abbrev pub same_key : Key → Key → Bool
same_key k j =
    (family_code k.family == family_code j.family)
    && (table_code k.table == table_code j.table)
    && (chain_code k.chain == chain_code j.chain)

-- A rule is the arguments that it was made with.
abbrev pub Spec : Type 0
Spec = List String

abbrev pub same_spec : Spec → Spec → Bool
same_spec [] [] = true
same_spec (x ∷ xs) (y ∷ ys) = str_eq x y && same_spec xs ys
same_spec _ _ = false

-- The methods of `*iptables.IPTables` that change the tables.
pub data Op : Type 0 where
  new_chain : Key → Op
  append : Key → Spec → Op
  insert : Key → ℕ → Spec → Op
  delete : Key → Spec → Op
  clear_and_delete_chain : Key → Op

pub record Os : Type 1 where
  pub World : Type 0
  pub iptables : Op → M World (Unit {0})
  pub list : Key → M World (List Bytes)
  -- `exec.Command("ip", args...).Run()`
  pub ip : List String → M World (Unit {0})
  -- `exec.Command("ip", args...).Output()`
  pub ip_output : List String → M World String

-- The rules of each chain that exists.
abbrev pub Rules : Type 0
Rules = Key → Option (List Spec)

abbrev pub put : Key → Option (List Spec) → Rules → Rules
put k v t j = if same_key k j then v else t j

-- Positions count from 1.
abbrev pub insert_at : ℕ → Spec → List Spec → List Spec
insert_at zero s rs = s ∷ rs
insert_at (suc zero) s rs = s ∷ rs
insert_at (suc (suc n)) s [] = s ∷ []
insert_at (suc (suc n)) s (r ∷ rs) = r ∷ insert_at (suc n) s rs

abbrev pub remove_first : Spec → List Spec → Option (List Spec)
remove_first s [] = none
remove_first s (r ∷ rs) =
    if same_spec s r
    then some rs
    else elim (remove_first s rs) [ none ↦ none | some x ↦ some (r ∷ x) ]

-- What a call that succeeds does to the rules of its chain; `none` where it cannot succeed.
abbrev pub changed : Op → Option (List Spec) → Option (Option (List Spec))
changed (new_chain k) none = some (some [])
changed (new_chain k) (some rs) = none
changed (append k s) none = none
changed (append k s) (some rs) = some (some (rs ++ (s ∷ [])))
changed (insert k n s) none = none
changed (insert k n s) (some rs) =
    if leb 1 n && leb n (suc (length rs)) then some (some (insert_at n s rs)) else none
changed (delete k s) none = none
changed (delete k s) (some rs) = elim (remove_first s rs) [ none ↦ none | some x ↦ some (some x) ]
changed (clear_and_delete_chain k) v = some none

abbrev pub key_of : Op → Key
key_of (new_chain k) = k
key_of (append k s) = k
key_of (insert k n s) = k
key_of (delete k s) = k
key_of (clear_and_delete_chain k) = k

-- What a call that fails may have done: a chain that is not deleted may have been emptied.
abbrev pub Left : Op → Rules → Rules → Type 0
Left (clear_and_delete_chain k) t u = (u ≡ t) ⊎ (u ≡ put k (some []) t)
Left _ t u = u ≡ t

-- A rule drops all packets that reach it.
abbrev pub drop_rule : Spec
drop_rule = "-j" ∷ "DROP" ∷ []

-- The documented behaviour of go-iptables and of `ip`, as far as this code relies on it.
pub record Netfilter (os : Os) : Type 0 where
  pub rules : os.World → Rules
  -- How `iptables -S` prints a chain's first line, and each rule.
  pub heading : Key → Bytes
  pub line : Key → Spec → Bytes
  pub iptables_ok :
      (op : Op) (w w' : os.World)
      → os.iptables op w ≡ (ok tt, w')
      → (v : Option (List Spec)) × (changed op (rules w (key_of op)) ≡ some v)
        × (rules w' ≡ put (key_of op) v (rules w))
  pub iptables_err :
      (op : Op) (w w' : os.World) (e : Error)
      → os.iptables op w ≡ (err e, w')
      → Left op (rules w) (rules w')
  pub list_ok :
      (k : Key) (w w' : os.World) (ls : List Bytes)
      → os.list k w ≡ (ok ls, w')
      → (rs : List Spec) × (rules w k ≡ some rs) × (ls ≡ heading k ∷ map (line k) rs)
  pub list_rules : (k : Key) (w : os.World) → rules (os.list k w).1 ≡ rules w
  pub ip_rules : (args : List String) (w : os.World) → rules (os.ip args w).1 ≡ rules w
  pub ip_output_rules :
      (args : List String) (w : os.World) → rules (os.ip_output args w).1 ≡ rules w
  pub heading_append : (k : Key) → has_prefix (heading k) (codes "-A ") ≡ false
  pub line_append : (k : Key) (s : Spec) → has_prefix (line k s) (codes "-A ") ≡ true
