-- ===== src/Text/Decimal.antt =====
-- `to_string(int)` and `stoi`.
pub mod RoundTrip
use distributed_cloud_storag.Prelude.{
  ℕ, zero, suc, ◌+◌, ◌-◌, ◌*◌, ◌/◌, ◌%◌, ◌^◌, ◌≤◌, ◌<◌, ◌≡◌, ◌≢◌, refl, Bool, true, false, ◌&&◌,
  ◌||◌, List, [], ◌∷◌, ◌++◌, append_assoc, Option, none, some, arith, leb, ltb, ◌==◌, if◌then◌else◌,
  All, All-append,
}
use distributed_cloud_storag.Prelude.Dict.{Bytes}
use distributed_cloud_storag.Prelude.Int.{ℤ, pos, negsuc}
use distributed_cloud_storag.Text.Find.{Lacks}

-- The decimal digits of `n` before `out`. Each round drops a digit, so `n + 1` rounds are enough.
emit : ℕ → ℕ → Bytes → Bytes
emit zero n out = out
emit (suc fuel) n out =
    let more = emit fuel (n / 10) ((b'0' + n % 10) ∷ out) in
    if ltb n 10 then (b'0' + n) ∷ out else more

unfoldable pub print_nat : ℕ → Bytes
unfolding emit
print_nat n = emit (n + 1) n []

unfoldable pub to_string : ℤ → Bytes
unfolding print_nat
to_string (pos n) = print_nat n
to_string (negsuc n) = b'-' ∷ print_nat (n + 1)

abbrev pub is_digit : ℕ → Bool
is_digit c = leb b'0' c && leb c b'9'

-- The number that the digits at the front of a text spell behind `n`.
scan : ℕ → Bytes → ℕ
scan n [] = n
scan n (c ∷ s) = let more = scan (n * 10 + (c - b'0')) s in if is_digit c then more else n

is_space : ℕ → Bool
is_space c = c == b' ' || (leb 9 c && leb c 13)

skip_spaces : Bytes → Bytes
unfolding is_space
skip_spaces [] = []
skip_spaces (c ∷ s) = let rest = skip_spaces s in if is_space c then rest else c ∷ s

-- Digits are wanted behind the sign; a value outside of int's range is thrown.
unsigned : Bytes → Option ℕ
unfolding scan
unsigned [] = none
unsigned (c ∷ s) = if is_digit c then some (scan 0 (c ∷ s)) else none

positive : Option ℕ → Option ℤ
positive none = none
positive (some n) = if ltb n (2 ^ 31) then some (pos n) else none

negative : Option ℕ → Option ℤ
negative none = none
negative (some zero) = some (pos 0)
negative (some (suc n)) = if ltb n (2 ^ 31) then some (negsuc n) else none

signed : Bytes → Option ℤ
unfolding unsigned positive negative
signed [] = none
signed (c ∷ s) =
    if c == b'-'
    then negative (unsigned s)
    else if c == b'+'
    then positive (unsigned s)
    else positive (unsigned (c ∷ s))

-- `none` is the exception invalid_argument or out_of_range.
unfoldable pub stoi : Bytes → Option ℤ
unfolding signed skip_spaces
stoi s = signed (skip_spaces s)

starts_number : Bytes → Bool
starts_number [] = false
starts_number (c ∷ []) = is_digit c
starts_number (c ∷ x ∷ s) = is_digit c || ((c == b'-' || c == b'+') && is_digit x)

-- `atoi`: 0 where no number is there. `none` is a value outside of int's range, which is undefined.
unfoldable pub atoi : Bytes → Option ℤ
unfolding skip_spaces starts_number signed
atoi s = if starts_number (skip_spaces s) then signed (skip_spaces s) else some (pos 0)
