-- ===== src/Resolve/Message.antt =====
-- The buffers that the messages are printed into.
use os_dns_resolver.Base.{
  refl, none, some, arith, ◌≤◌, length, length-append, Option, ◌+◌, ◌++◌, true, ◌≡◌, false,
}
use os_dns_resolver.Strings.{Text}
use os_dns_resolver.Resolve.{
  message, message_size, comma, not_resolved, log_message, Net, dns_resolve, resolve_with, AddrInfo,
}

-- sprintf writes the message and a NUL into the memory that resolve_then_log asked for: the buffer
-- is large enough for every host and every address.
pub message-fits :
    (hostname : Text) (ip : Option Text)
    → length (message hostname ip) + 1 ≤ message_size hostname ip
unfolding message_size
message-fits hostname none = omega (arith, length-append hostname (comma ++ not_resolved))
message-fits hostname (some ip) = omega (arith, length-append hostname (comma ++ ip))

-- Where both allocations succeed, the message is that of the host's address.
pub log_message-allocated :
    (net : Net) (hostname : Text)
    → log_message net hostname true true ≡ some (message hostname (dns_resolve net hostname true))
unfolding log_message
log_message-allocated net hostname = refl

-- Without memory for the address, the result is NULL.
pub dns_resolve-unallocated : (net : Net) (h : Text) → dns_resolve net h false ≡ none
unfolding dns_resolve resolve_with
dns_resolve-unallocated net h = unallocated (net.getaddrinfo h)
  where
    unallocated : (o : Option AddrInfo) → resolve_with net o false ≡ none
    unallocated none = refl
    unallocated (some res) = refl
