-- ===== src/Strings.antt =====
-- C strings, as far as turnin/multi-lookup.c and dnssimple.c compute with them: the bytes in front of
-- the first NUL.
pub mod Laws
use os_dns_resolver.Base.{
  ℕ, List, [], ◌∷◌, ◌==◌, if◌then◌else◌, length, ◌-◌, get_or, set, ltb, ◌&&◌,
}

-- The bytes of a C string, without its closing NUL; also the bytes of a file.
abbrev pub Text : Type 0
Text = List ℕ

abbrev pub newline : ℕ
newline = b'\n'

-- What the string functions see of a buffer: the bytes up to the first NUL.
pub c_string : Text → Text
c_string [] = []
c_string (b ∷ bs) = if b == 0 then [] else b ∷ c_string bs

-- `if (read > 0 && line[read - 1] == '\n') line[read - 1] = '\0';`
pub end_line : Text → Text
end_line line =
    let last = length line - 1 in
    if ltb 0 (length line) && get_or line last 0 == newline then set line last 0 else line

-- The text that a loop over getline takes from the bytes of a line.
unfoldable pub host_of : Text → Text
unfolding end_line c_string
host_of line = c_string (end_line line)
