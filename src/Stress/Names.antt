-- ===== src/Stress/Names.antt =====
-- The names of test.c: sprintf of "host-%d" (line 60) and sscanf by the same format (line 99).
-- As far as the numbers go, %d writes and reads integers without a bound.
pub mod Laws
use os_dns_resolver.Base.{
  ℕ, zero, suc, ◌+◌, ◌-◌, ◌*◌, ◌/◌, ◌%◌, List, [], ◌∷◌, ◌++◌, Bool, true, false, ◌&&◌, ◌||◌, Option,
  none, some, ltb, leb, ◌==◌, if◌then◌else◌, ℤ, pos, sub_ℕ,
}
use os_dns_resolver.Strings.{Text}

-- "host-"
abbrev pub host_prefix : Text
host_prefix = b'h' ∷ b'o' ∷ b's' ∷ b't' ∷ b'-' ∷ []

-- The decimal digits of a number in front of `out`. More fuel than the number is enough.
pub put_digits : ℕ → ℕ → Text → Text
put_digits zero n out = out
put_digits (suc fuel) n out =
    let digit = b'0' + n % 10 in
    elim (ltb n 10) [ true ↦ digit ∷ out | false ↦ put_digits fuel (n / 10) (digit ∷ out) ]

-- sprintf(hostname, "host-%d", i)
unfoldable pub host_name : ℕ → Text
unfolding put_digits
host_name i = host_prefix ++ put_digits (i + 1) i []

abbrev pub is_digit : ℕ → Bool
is_digit b = leb b'0' b && leb b b'9'

-- What %d skips in front of a number.
abbrev pub is_space : ℕ → Bool
is_space b = b == 32 || (leb 9 b && leb b 13)

pub read_digits : ℕ → Text → ℕ
read_digits n [] = n
read_digits n (b ∷ bs) = if is_digit b then read_digits (n * 10 + (b - b'0')) bs else n

pub read_unsigned : Text → Option ℕ
unfolding read_digits
read_unsigned [] = none
read_unsigned (b ∷ bs) = if is_digit b then some (read_digits 0 (b ∷ bs)) else none

abbrev negated : Option ℕ → Option ℤ
negated none = none
negated (some n) = some (sub_ℕ 0 n)

abbrev positive : Option ℕ → Option ℤ
positive none = none
positive (some n) = some (pos n)

pub read_signed : Text → Option ℤ
unfolding read_unsigned
read_signed [] = none
read_signed (b ∷ bs) =
    if b == b'-'
    then negated (read_unsigned bs)
    else (if b == b'+' then positive (read_unsigned bs) else positive (read_unsigned (b ∷ bs)))

-- %d
pub read_int : Text → Option ℤ
unfolding read_signed
read_int [] = none
read_int (b ∷ bs) = if is_space b then read_int bs else read_signed (b ∷ bs)

-- sscanf(hostname, "host-%d", &item_num) == 1, with the number read: the prefix is matched byte by
-- byte.
pub scan_behind : Text → Text → Option ℤ
unfolding read_int
scan_behind [] text = read_int text
scan_behind (p ∷ ps) [] = none
scan_behind (p ∷ ps) (b ∷ bs) = if p == b then scan_behind ps bs else none

unfoldable pub scan_host : Text → Option ℤ
unfolding scan_behind
scan_host text = scan_behind host_prefix text
