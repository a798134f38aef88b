-- ===== src/Tests/Bounds.antt =====
-- The host tracker of src/mirenai/domain/hosts.py at concrete inputs.
use mirenai.Buffers.Hosts
use mirenai.Buffers.Hosts.{
  HostTracker, host_buffer, hosts_conserved, record_host, known_hosts, hosts-IsValid,
}
use mirenai.Prelude.{[], list_eq, nat_eq, pair_eq, refl, true, ◌∷◌}
use mirenai.Python.Text.{codes}

abbrev one_host : HostTracker
one_host = record {
  flush_seconds = 5;
  refresh_seconds = 60;
  pending = (codes "10.0.0.5", 1) ∷ [];
  pending_new = codes "10.0.0.5" ∷ [];
  known = codes "10.0.0.5" ∷ [];
}

one_host-IsValid : Hosts.IsValid one_host
one_host-IsValid = record {
  counted_known = λ ip h. h;
  new_counted = λ ip h. h;
  new_once = (refl, tt);
}

hosts-IsValid_example :
    Hosts.IsValid (record_host (codes "10.0.0.6") one_host)
    × Hosts.IsValid (Hosts.refresh [] one_host)
    × Hosts.IsValid (Hosts.flush true one_host).0
hosts-IsValid_example = hosts-IsValid (codes "10.0.0.6") [] true one_host one_host-IsValid
