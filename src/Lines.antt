-- ===== src/Lines.antt =====
-- The loops `while ((read = getline(&line, &len, file)) != -1)` of turnin/multi-lookup.c:80-89 and of
-- dnssimple.c:61-65: the host names that the lines of a file hold.
pub mod Fuel
pub mod Print
mod Tests
use os_dns_resolver.Base.{
  ℕ, zero, suc, List, [], ◌∷◌, Option, none, some, ◌==◌, if◌then◌else◌, length,
}
use os_dns_resolver.Strings.{Text, newline, host_of}

-- The bytes up to the first newline, that newline included, and those behind it.
unfoldable pub break_line : Text → Text × Text
break_line [] = ([], [])
break_line (b ∷ bs) =
    let (line, rest) = break_line bs in if b == newline then (b ∷ [], bs) else (b ∷ line, rest)

-- getline on the bytes left in a file: none is its -1.
unfoldable pub getline : Text → Option (Text × Text)
getline [] = none
getline (b ∷ bs) = some (break_line (b ∷ bs))

abbrev pub add_host : Text → Option (List Text) → Option (List Text)
add_host h none = none
add_host h (some hs) = some (h ∷ hs)

-- The hosts that the loop sees, in order; `none` if the fuel runs out.
unfoldable pub hosts_of : ℕ → Text → Option (List Text)
hosts_of zero bytes = none
hosts_of (suc fuel) bytes = elim (getline bytes) [
  | none ↦ some []
  | some (line, rest) ↦ add_host (host_of line) (hosts_of fuel rest)
]

abbrev pub or_nil : Option (List Text) → List Text
or_nil none = []
or_nil (some hs) = hs

-- The hosts of a whole file.
unfoldable pub hosts : Text → List Text
hosts bytes = or_nil (hosts_of (suc (length bytes)) bytes)
