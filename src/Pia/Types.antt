-- ===== src/Pia/Types.antt =====
-- internal/pia/types.go, and `flattenRegions` of client.go.
use pia_tun.Base.{ℕ, String, List, [], ◌∷◌, ◌++◌, Bool}

pub record Server : Type 0 where
  pub cn : String
  pub ip : String
  pub region : String
  pub region_name : String
  pub pf : Bool

pub record DipInfo : Type 0 where
  pub cn : String
  pub ip : String
  pub region : String

pub record AddKeyResponse : Type 0 where
  pub status : String
  pub server_key : String
  pub server_port : ℕ
  pub peer_ip : String
  pub server_vip : String
  pub dns_servers : List String

-- A server as the list names it, and a region with its servers of the kind "wg".
pub record Region : Type 0 where
  pub id : String
  pub name : String
  pub port_forward : Bool
  pub wg : List Server

abbrev pub in_region : Region → Server → Server
in_region r srv = record {
  cn = srv.cn;
  ip = srv.ip;
  region = r.id;
  region_name = r.name;
  pf = r.port_forward;
}

abbrev pub servers_of : Region → List Server → List Server
servers_of r [] = []
servers_of r (srv ∷ srvs) = in_region r srv ∷ servers_of r srvs

unfoldable pub flatten_regions : List Region → List Server
flatten_regions [] = []
flatten_regions (r ∷ rs) = servers_of r r.wg ++ flatten_regions rs
