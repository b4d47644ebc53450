-- ===== src/Lines/Tests.antt =====
-- Reading concrete files.
use os_dns_resolver.Base.{[], ◌∷◌, ◌++◌, some, arith, ◌≡◌}
use os_dns_resolver.Samples.{f_name, log_name, sample_bytes}
use os_dns_resolver.Lines.{hosts, hosts_of}
use os_dns_resolver.Lines.Fuel.{hosts_of-total}
use os_dns_resolver.Lines.Print.{print_hosts, last_host, hosts-print_hosts}

hosts_of-total_example : hosts_of 5 sample_bytes ≡ some (hosts sample_bytes)
hosts_of-total_example = hosts_of-total 5 sample_bytes (omega arith)

hosts-print_hosts_example :
    hosts (print_hosts (log_name ∷ [] ∷ []) f_name) ≡ (log_name ∷ [] ∷ []) ++ last_host f_name
hosts-print_hosts_example =
    hosts-print_hosts (log_name ∷ [] ∷ []) f_name (omega arith) (omega arith)
