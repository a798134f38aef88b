-- ===== src/Server/Screening.antt =====
-- src/mirenai/workers/dns_server.py: who is answered.
use mirenai.Server.{Server}
use mirenai.Buffers.Hosts
use mirenai.Buffers.Hosts.{HostTracker, record_host}
use mirenai.Buffers.Foreign
use mirenai.Buffers.Stats
use mirenai.Prelude.{list_eq, nat_eq, pair_eq}
use mirenai.Python.Text.{Text}
