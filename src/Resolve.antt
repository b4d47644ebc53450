-- ===== src/Resolve.antt =====
-- dns_resolve of turnin/multi-lookup.c:141-170 and of dnssimple.c:14-47, and the message that is
-- logged for a host. The system's resolver and inet_ntop are outside code: an argument.
pub mod Message
mod Tests
use os_dns_resolver.Strings.{Text}
use os_dns_resolver.Base.{
  ℕ, ◌<◌, List, [], ◌∷◌, Bool, true, false, Option, none, some, length, if◌then◌else◌, ◌++◌, map,
  ◌+◌,
}

pub data Family : Type 0 where
  af_inet af_inet6 : Family

-- The first struct addrinfo of an answer: its family, and the bytes of `sin_addr` or `sin6_addr`
-- that the family says stand in its address.
pub record AddrInfo : Type 0 where
  pub ai_family : Family
  pub sin_addr : List ℕ
  pub sin6_addr : List ℕ

abbrev pub inet6_addrstrlen : ℕ
inet6_addrstrlen = 46

-- getaddrinfo answers with a status that is not 0 (`none`) or with its first result. inet_ntop
-- writes a text that fits, with its NUL, in INET6_ADDRSTRLEN bytes, as POSIX states.
pub record Net : Type 0 where
  pub getaddrinfo : Text → Option AddrInfo
  pub inet_ntop : Family → List ℕ → Text
  pub inet_ntop_fits : (f : Family) (addr : List ℕ) → length (inet_ntop f addr) < inet6_addrstrlen

-- The address that is printed.
abbrev pub address : AddrInfo → List ℕ
address res = elim res.ai_family [ af_inet ↦ res.sin_addr | af_inet6 ↦ res.sin6_addr ]

-- Both programs: NULL, or the printed address where the memory for it is there.
-- `allocated` says whether malloc (dnssimple.c:28) or strdup (turnin/multi-lookup.c:167) succeeds.
pub resolve_with : Net → Option AddrInfo → Bool → Option Text
resolve_with net none allocated = none
resolve_with net (some res) allocated =
    if allocated then some (net.inet_ntop res.ai_family (address res)) else none

-- dns_resolve of turnin/multi-lookup.c: what it leaves in `*ip_string`, NULL before the call.
unfoldable pub dns_resolve : Net → Text → Bool → Option Text
unfolding resolve_with
dns_resolve net hostname allocated = resolve_with net (net.getaddrinfo hostname) allocated

-- ", " and ", NOT_RESOLVED"
abbrev pub comma : Text
comma = b',' ∷ b' ' ∷ []

abbrev pub not_resolved : Text
not_resolved =
    b'N' ∷ b'O' ∷ b'T' ∷ b'_' ∷ b'R' ∷ b'E' ∷ b'S' ∷ b'O' ∷ b'L' ∷ b'V' ∷ b'E' ∷ b'D' ∷ []

-- "%s, %s" and "%s, NOT_RESOLVED"
abbrev pub message : Text → Option Text → Text
message hostname none = hostname ++ (comma ++ not_resolved)
message hostname (some ip) = hostname ++ (comma ++ ip)

-- The sizes that resolve_then_log asks malloc for.
pub message_size : Text → Option Text → ℕ
message_size hostname none = length hostname + 20
message_size hostname (some ip) = length hostname + length ip + 3

-- resolve_then_log up to its array_put: the message, unless malloc fails. The answers say whether
-- the allocation of the address and that of the message succeed.
unfoldable pub log_message : Net → Text → Bool → Bool → Option Text
unfolding dns_resolve
log_message net hostname ip_allocated message_allocated =
    let ip = dns_resolve net hostname ip_allocated in
    if message_allocated then some (message hostname ip) else none
