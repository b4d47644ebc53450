-- ===== src/Stress/Names/Laws.antt =====
-- Names that are read back, and their length.
use os_dns_resolver.Base.{
  ℕ, zero, suc, ◌+◌, ◌^◌, ◌/◌, ◌%◌, ◌≡◌, ◌<◌, ◌≤◌, ap, ◌∙◌, [], ◌∷◌, true, some, length, arith, pos,
}
use os_dns_resolver.Strings.{Text}
use os_dns_resolver.Stress.Names.{
  put_digits, host_name, is_digit, read_digits, read_unsigned, read_signed, read_int, scan_behind,
  scan_host,
}

read_digits-put_digits :
    (fuel n : ℕ) (out : Text) → n < fuel → read_digits 0 (put_digits fuel n out) ≡ read_digits n out
unfolding put_digits read_digits
read_digits-put_digits zero n out h = absurd (omega arith)
read_digits-put_digits (suc fuel) n out h =
    ground (arith, read_digits-put_digits fuel (n / 10) ((b'0' + n % 10) ∷ out))

abbrev StartsWithDigit : Text → Type 0
StartsWithDigit [] = ⊥
StartsWithDigit (b ∷ bs) = is_digit b ≡ true

put_digits-StartsWithDigit :
    (fuel n : ℕ) (out : Text) → n < fuel → StartsWithDigit (put_digits fuel n out)
unfolding put_digits
put_digits-StartsWithDigit zero n out h = absurd (omega arith)
put_digits-StartsWithDigit (suc fuel) n out h =
    ground (arith, put_digits-StartsWithDigit fuel (n / 10) ((b'0' + n % 10) ∷ out))

read_int-digits : (t : Text) → StartsWithDigit t → read_int t ≡ some (pos (read_digits 0 t))
unfolding read_int read_signed read_unsigned
read_int-digits [] h = elim h [ ]
read_int-digits (b ∷ bs) h = ground (arith, h)

-- A name that a producer writes is read back by a consumer as its number.
pub scan_host-host_name : (i : ℕ) → scan_host (host_name i) ≡ some (pos i)
unfolding scan_host host_name scan_behind read_digits
scan_host-host_name i =
    read_int-digits (put_digits (i + 1) i [])
      (put_digits-StartsWithDigit (i + 1) i [] (omega arith))
    ∙ ap (λ n. some (pos n)) (read_digits-put_digits (i + 1) i [] (omega arith))

length-put_digits :
    (fuel k n : ℕ) (out : Text)
    → n < 10 ^ suc k
    → length (put_digits fuel n out) ≤ suc k + length out
unfolding put_digits
length-put_digits zero k n out h = omega arith
length-put_digits (suc fuel) zero n out h = ground arith
length-put_digits (suc fuel) (suc k) n out h =
    ground (arith, length-put_digits fuel k (n / 10) ((b'0' + n % 10) ∷ out))

-- MAX_NAME_LENGTH of array.h
abbrev pub max_name_length : ℕ
max_name_length = 256

-- The name of every number that an int holds fits, with its NUL, in the memory that a producer asks
-- for.
pub host_name-fits : (i : ℕ) → i < 2 ^ 31 → length (host_name i) + 1 ≤ max_name_length
unfolding host_name
host_name-fits i h = omega (arith, length-put_digits (i + 1) 9 i [])
