-- ===== src/Samples.antt =====
-- A small system for the tests: a resolver that knows every host but the empty one, and a file
-- system in which a name opens unless it is empty.
use os_dns_resolver.Base.{[], ◌∷◌, Option, none, some, true, arith}
use os_dns_resolver.Strings.{Text}
use os_dns_resolver.Resolve.{Net, AddrInfo, af_inet}
use os_dns_resolver.Simple.{Files}

abbrev find_host : Text → Option AddrInfo
find_host [] = none
find_host (b ∷ bs) = some (record { ai_family = af_inet; sin_addr = b ∷ []; sin6_addr = [] })

-- The digit "1".
abbrev one_text : Text
one_text = b'1' ∷ []

abbrev pub sample_net : Net
sample_net = record {
  getaddrinfo = find_host;
  inet_ntop = λ f addr. one_text;
  inet_ntop_fits = λ f addr. omega arith;
}

-- "a\n\nb"
abbrev pub sample_bytes : Text
sample_bytes = b'a' ∷ b'\n' ∷ b'\n' ∷ b'b' ∷ []

abbrev open_file : Text → Option Text
open_file [] = none
open_file (b ∷ bs) = some sample_bytes

abbrev pub sample_files : Files
sample_files = record { read = open_file; can_write = λ name. true }

-- The names "f", "" and "log".
abbrev pub f_name : Text
f_name = b'f' ∷ []

abbrev pub log_name : Text
log_name = b'l' ∷ b'o' ∷ b'g' ∷ []
