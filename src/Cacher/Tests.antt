-- ===== src/Cacher/Tests.antt =====
-- Runs of internal/cacher/cacher.go.
use pia_tun.Base.{
  ◌≤◌, List, [], ◌∷◌, ◌≡◌, refl, ◌||◌, true, arith, length, String, ℕ, ok, some, pure,
}
use pia_tun.Base.Unseen.{Distinct, has_text}
use pia_tun.Pia.Types.{Server}
use pia_tun.Base.Text.{chars}
use pia_tun.Host.{Host}
use pia_tun.Cacher.TokenFile.{TokenDisk, with_token, new}
use pia_tun.Cacher.TokenRound.{IsWord, new-token_content}
use pia_tun.Cacher.Merge.{itself, max_cached_ips, merge_ips, merge_servers}
use pia_tun.Cacher.Cache.{Cached, tick, token_content}
use pia_tun.Cacher.WellFormed.{IsWellFormed, tick-IsWellFormed}
use pia_tun.Simulated.{computer}
use pia_tun.Cacher.MergeLaws.{merge_ips_bounds, has_text-merge_ips}
use pia_tun.Cacher.ServerLaws.{upsert_all, merge_servers-upsert_all}

abbrev known : List String
known = "10.0.0.1" ∷ "10.0.0.2" ∷ []

abbrev resolved : List String
resolved = "10.0.0.3" ∷ "10.0.0.1" ∷ "10.0.0.3" ∷ []

merge_ips_bounds_example :
    (length (merge_ips known resolved max_cached_ips) ≤ max_cached_ips)
    × Distinct itself (merge_ips known resolved max_cached_ips)
merge_ips_bounds_example = merge_ips_bounds known resolved max_cached_ips

has_text-merge_ips_example :
    has_text (merge_ips known resolved max_cached_ips) "10.0.0.2"
    ≡ (has_text resolved "10.0.0.2" || has_text known "10.0.0.2")
has_text-merge_ips_example =
    has_text-merge_ips known resolved max_cached_ips "10.0.0.2" (omega arith)

abbrev server : String → String → Server
server cn ip = record { cn = cn; ip = ip; region = "us"; region_name = "US"; pf = true }

abbrev cached : List Server
cached = server "a" "10.0.0.1" ∷ server "b" "10.0.0.2" ∷ []

abbrev fetched : List Server
fetched = server "b" "10.0.0.9" ∷ server "c" "10.0.0.3" ∷ []

merge_servers-upsert_all_example : merge_servers cached fetched ≡ upsert_all cached fetched
merge_servers-upsert_all_example = merge_servers-upsert_all cached fetched

abbrev before : Cached (Unit {0})
before = record {
  cache = record {
    token = "old";
    token_time = 5;
    auth_ips = known;
    server_list_ips = [];
    servers = cached;
  };
  world = tt;
}

tick-IsWellFormed_example : IsWellFormed (tick computer 3 "user" "pass" before).1.cache
tick-IsWellFormed_example = tick-IsWellFormed computer 3 "user" "pass" before (record {
  few_auth = omega arith;
  distinct_auth = (refl, (refl, tt));
  few_list = omega arith;
  distinct_list = tt;
  distinct_servers = (refl, (refl, tt));
})

-- A computer at second 2000, whose token file was written at second 1337. The state is not looked at.
abbrev later : Host ℕ
later = record computer { now = λ w. (2000000000000, w) }

abbrev saved : TokenDisk ℕ
saved = record {
  read_file = λ file. pure (token_content later "secret" 1337000000005);
  parse_int = λ text. some 1337;
}

secret-IsWord : IsWord "secret"
secret-IsWord = record {
  first = "s";
  others = chars "ecret";
  is_first = refl;
  dark = (refl, (refl, (refl, (refl, (refl, (refl, tt))))));
}

second-IsWord : IsWord "1337"
second-IsWord = record {
  first = "1";
  others = chars "337";
  is_first = refl;
  dark = (refl, (refl, (refl, (refl, tt))));
}

new-token_content_example :
    new later saved 0 ≡ (ok (with_token later saved "secret" 1337000000000), 0)
new-token_content_example =
    new-token_content later saved "secret" 1337000000005 2000000000000 0 0 0 refl refl secret-IsWord
      second-IsWord refl (omega arith)
