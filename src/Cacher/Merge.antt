-- ===== src/Cacher/Merge.antt =====
-- `mergeIPs` and `MergeServers` of internal/cacher/cacher.go.
use pia_tun.Base.{
  ℕ, ◌+◌, ltb, String, List, [], ◌∷◌, ◌++◌, Option, none, some, str_eq, length, take, set,
  if◌then◌else◌,
}
use pia_tun.Base.Unseen.{unseen, seen_after}
use pia_tun.Pia.Types.{Server}

abbrev pub max_cached_ips : ℕ
max_cached_ips = 5

abbrev pub itself : String → String
itself ip = ip

unfoldable pub merge_ips : List String → List String → ℕ → List String
merge_ips existing new max =
    let merged = unseen itself [] new ++ unseen itself (seen_after itself [] new) existing in
    if ltb max (length merged) then take max merged else merged

-- `byCN`, the latest entry first.
abbrev pub Index : Type 0
Index = List (String × ℕ)

abbrev pub lookup_cn : String → Index → Option ℕ
lookup_cn k [] = none
lookup_cn k ((j, i) ∷ m) = if str_eq j k then some i else lookup_cn k m

-- The first loop: `i` is the index of the next server.
abbrev pub index_from : ℕ → Index → List Server → Index
index_from i m [] = m
index_from i m (s ∷ ss) = index_from (i + 1) ((s.cn, i) ∷ m) ss

-- One round of the second loop.
abbrev pub merge_at : Option ℕ → Server → Index × List Server → Index × List Server
merge_at (some idx) srv (m, ss) = (m, set ss idx srv)
merge_at none srv (m, ss) = ((srv.cn, length ss) ∷ m, ss ++ (srv ∷ []))

unfoldable pub merge_loop : Index → List Server → List Server → List Server
merge_loop m ss [] = ss
merge_loop m ss (srv ∷ news) =
    let (m', ss') = merge_at (lookup_cn srv.cn m) srv (m, ss) in merge_loop m' ss' news

unfoldable pub merge_servers : List Server → List Server → List Server
merge_servers ss news = merge_loop (index_from 0 [] ss) ss news
