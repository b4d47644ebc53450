-- ===== src/Strings/Laws.antt =====
-- A line that holds neither a newline nor a NUL is taken as it is, with or without its newline.
use mathlib.Core.List.{List-discrete}
use native.Mathlib.Decide.{ℕ_discrete}
use os_dns_resolver.Base.{
  zero, suc, ℕ, [], ◌∷◌, ◌++◌, ◌≢◌, ◌≡◌, arith, All, length, length-append, get_or, set, ap, ◌-◌,
  ◌∙◌, refl,
}
use os_dns_resolver.Strings.{Text, newline, c_string, end_line, host_of}

-- A byte of a line's text.
pub record IsPlain (b : ℕ) : Type 0 where
  pub not_nul : b ≢ 0
  pub not_newline : b ≢ newline

c_string-plain : (h rest : Text) → All IsPlain h → c_string (h ++ 0 ∷ rest) ≡ h
unfolding c_string
c_string-plain [] rest v = refl
c_string-plain (b ∷ h) rest v = ground (arith, v.0.not_nul, c_string-plain h rest v.1)

c_string-whole : (h : Text) → All IsPlain h → c_string h ≡ h
unfolding c_string
c_string-whole [] v = refl
c_string-whole (b ∷ h) v = ground (arith, v.0.not_nul, c_string-whole h v.1)

last-append : (h : Text) (b : ℕ) → get_or (h ++ b ∷ []) (length h) 0 ≡ b
last-append [] b = refl
last-append (c ∷ h) b = last-append h b

set_last-append : (h : Text) (b c : ℕ) → set (h ++ b ∷ []) (length h) c ≡ h ++ c ∷ []
set_last-append [] b c = refl
set_last-append (d ∷ h) b c = ap (λ t. d ∷ t) (set_last-append h b c)

last_index : (h : Text) (b : ℕ) → length (h ++ b ∷ []) - 1 ≡ length h
last_index h b = omega (arith, length-append h (b ∷ []))

end_line-newline : (h : Text) → end_line (h ++ newline ∷ []) ≡ h ++ 0 ∷ []
unfolding end_line
end_line-newline h = ground (
  arith,
  last_index h newline,
  length-append h (newline ∷ []),
  last-append h newline,
  set_last-append h newline 0,
)

pub host_of-newline : (h : Text) → All IsPlain h → host_of (h ++ newline ∷ []) ≡ h
unfolding host_of
host_of-newline h v = ap c_string (end_line-newline h) ∙ c_string-plain h [] v

get_or-plain : (h : Text) (i : ℕ) → All IsPlain h → get_or h i 0 ≢ newline
get_or-plain [] i v = omega arith
get_or-plain (b ∷ h) zero v = v.0.not_newline
get_or-plain (b ∷ h) (suc i) v = get_or-plain h i v.1

end_line-plain : (h : Text) → All IsPlain h → end_line h ≡ h
unfolding end_line
end_line-plain h v = ground (arith, get_or-plain h (length h - 1) v)

pub host_of-plain : (h : Text) → All IsPlain h → host_of h ≡ h
unfolding host_of
host_of-plain h v = ap c_string (end_line-plain h v) ∙ c_string-whole h v

pub Text-discrete : Discrete Text
Text-discrete = List-discrete ℕ_discrete
