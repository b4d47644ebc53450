-- ===== src/Resolve/Tests.antt =====
-- The messages for concrete hosts.
use os_dns_resolver.Base.{some, ◌≤◌, ◌+◌, length}
use os_dns_resolver.Samples.{f_name, log_name}
use os_dns_resolver.Resolve.{message, message_size}
use os_dns_resolver.Resolve.Message.{message-fits}

message-fits_example :
    length (message log_name (some f_name)) + 1 ≤ message_size log_name (some f_name)
message-fits_example = message-fits log_name (some f_name)
