-- ===== src/Server/Probing.antt =====
-- src/mirenai/workers/dns_server.py: the probes that fill the gaps of the upstream statistics.
use mirenai.Server.{Probe}
use mirenai.Buffers.Rtt
use mirenai.Buffers.Rtt.{Accumulator, accumulated}
use mirenai.Python.Dict
use mirenai.Prelude.{◌>>=◌}
use mirenai.Prelude.{Option, none, some, list_eq, nat_eq, pair_eq, ℕ}
use mirenai.Python.Dict.{Dict}
use mirenai.Python.Text.{Text}
use mirenai.State.{UpstreamServer}

-- the entry of an upstream after its probe, which measured a time or failed
abbrev pub measured : Option ℕ → Option Accumulator → Option Accumulator
measured none entry = entry
measured (some rtt_us) entry = some (accumulated rtt_us entry)

module _ (probe : Probe) (timeout now : ℕ) (servers : Dict Text UpstreamServer) where
  -- the probe of an address
  abbrev pub answer : Text → Option ℕ
  answer address = Dict.get address servers >>= λ server. probe server timeout
