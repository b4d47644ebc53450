-- ===== src/Lines/Print.antt =====
-- A file that lists host names, one to a line, is read back as that list.
use os_dns_resolver.Base.{List, [], ◌∷◌, ◌++◌, arith, ◌≡◌, All, ap, ◌∙◌, ap₂, refl}
use os_dns_resolver.Strings.{Text, newline}
use os_dns_resolver.Strings.Laws.{IsPlain, host_of-newline, host_of-plain}
use os_dns_resolver.Lines.{break_line, hosts}
use os_dns_resolver.Lines.Fuel.{hosts-nil, hosts-cons}

-- Each name and its newline, then a last line with no newline.
unfoldable pub print_hosts : List Text → Text → Text
print_hosts [] last = last
print_hosts (h ∷ hs) last = h ++ (newline ∷ print_hosts hs last)

break_line-newline :
    (h rest : Text) → All IsPlain h → break_line (h ++ (newline ∷ rest)) ≡ (h ++ newline ∷ [], rest)
unfolding break_line
break_line-newline [] rest v = refl
break_line-newline (b ∷ h) rest v = ground (arith, v.0.not_newline, break_line-newline h rest v.1)

break_line-plain : (h : Text) → All IsPlain h → break_line h ≡ (h, [])
unfolding break_line
break_line-plain [] v = refl
break_line-plain (b ∷ h) v = ground (arith, v.0.not_newline, break_line-plain h v.1)

hosts-newline : (h rest : Text) → All IsPlain h → hosts (h ++ (newline ∷ rest)) ≡ h ∷ hosts rest
hosts-newline [] rest v =
    hosts-cons newline rest
    ∙ rw (break_line-newline [] rest v) (ap (λ t. t ∷ hosts rest) (host_of-newline [] v))
hosts-newline (b ∷ h) rest v =
    hosts-cons b (h ++ (newline ∷ rest))
    ∙ rw (break_line-newline (b ∷ h) rest v) (ap (λ t. t ∷ hosts rest) (host_of-newline (b ∷ h) v))

-- A last line with no newline is a host too, unless it is empty.
abbrev pub last_host : Text → List Text
last_host [] = []
last_host (b ∷ h) = (b ∷ h) ∷ []

hosts-last : (h : Text) → All IsPlain h → hosts h ≡ last_host h
hosts-last [] v = hosts-nil
hosts-last (b ∷ h) v =
    hosts-cons b h ∙ rw (break_line-plain (b ∷ h) v) (ap₂ ◌∷◌ (host_of-plain (b ∷ h) v) hosts-nil)

-- The loop over getline reads back any list of names, none of which holds a newline or a NUL, from
-- the file that has each on a line of its own: empty names are read too, and so is a last line that
-- is not empty and lacks its newline.
pub hosts-print_hosts :
    (hs : List Text) (last : Text)
    → All (All IsPlain) hs
    → All IsPlain last
    → hosts (print_hosts hs last) ≡ hs ++ last_host last
unfolding print_hosts
hosts-print_hosts [] last v w = hosts-last last w
hosts-print_hosts (h ∷ hs) last v w =
    hosts-newline h (print_hosts hs last) v.0 ∙ ap (λ t. h ∷ t) (hosts-print_hosts hs last v.1 w)
