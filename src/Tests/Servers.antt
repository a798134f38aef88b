-- ===== src/Tests/Servers.antt =====
-- src/mirenai/workers/dns_server.py at concrete inputs.
use mirenai.Tests.World.{two_upstreams, M, ask, idle, home_state, client}
use mirenai.Server.{Server, Probe}
use mirenai.Python.Dict
use mirenai.Resolver.Handle.{is_trusted_client}
use mirenai.Buffers.Hosts
use mirenai.Buffers.Foreign
use mirenai.Buffers.Stats
use mirenai.Network.{from_cidrs, is_trusted}
use mirenai.Python.Ip.{in_network, ip_address, ip_network}
use mirenai.Python.Str.Split.{split}
use mirenai.State.{RuntimeState}
use mirenai.Prelude.{[], false, list_eq, nat_eq, pair_eq, some, ◌≡◌, ◌∷◌, refl, take}
use mirenai.Python.Text.{codes}

abbrev idle_server : Server M
idle_server = record {
  core = idle;
  hosts = record {
    flush_seconds = 5;
    refresh_seconds = 60;
    pending = [];
    pending_new = [];
    known = [];
  };
}

abbrev packet : M
packet = ask (codes "a.lan") 1

-- only another network is trusted
abbrev guarded_state : RuntimeState
guarded_state = record home_state { network_filter = from_cidrs (codes "192.168.0.0/16" ∷ []) }

client_is_foreign : is_trusted_client guarded_state client ≡ false
unfolding is_trusted from_cidrs ip_address ip_network in_network split is_trusted_client
client_is_foreign = refl

abbrev slow_probe : Probe
slow_probe = λ server timeout. some 40_000

abbrev single_state : RuntimeState
single_state = record home_state { upstreams = take 1 two_upstreams }
