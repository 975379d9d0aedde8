-- ===== src/Base/Parse.antt =====
-- strconv.ParseInt in base 10, and products of int64.
use Prim.Native.Nat.{ℕ, zero, suc, ◌+◌, ◌-◌, ◌*◌, ◌%◌}
use mathlib.Core.Bool.{◌&&◌}
use mathlib.Core.Option.{Option, none, some}
use mathlib.Core.List.{[], ◌∷◌}
use ultiproxy.Base.Tests.{leb, ◌==◌, if◌then◌else◌}
use ultiproxy.Base.Int.{ℤ, pos, negsuc, max_int}
use ultiproxy.Base.Bytes.{Text}

-- The digits of a text after those with the value n.
unfoldable pub parse_digits : Text → ℕ → Option ℕ
parse_digits [] n = some n
parse_digits (c ∷ s) n =
    let rest = parse_digits s (n * 10 + (c - 48)) in if leb 48 c && leb c 57 then rest else none

abbrev digits : Text → Option ℕ
digits [] = none
digits (c ∷ s) = parse_digits (c ∷ s) 0

abbrev in_range : Option ℕ → Option ℤ
in_range none = none
in_range (some n) = if leb n max_int then some (pos n) else none

abbrev negative : Option ℕ → Option ℤ
negative none = none
negative (some zero) = some (pos 0)
negative (some (suc n)) = if leb n max_int then some (negsuc n) else none

-- `none` is the error.
unfoldable pub parse_int : Text → Option ℤ
parse_int [] = none
parse_int (c ∷ s) =
    if c == 45
    then negative (digits s)
    else if c == 43
    then in_range (digits s)
    else in_range (digits (c ∷ s))

-- The int64 of a product n · k of natural numbers.
unfoldable pub wrapped : ℕ → ℤ
wrapped n =
    let m = n % 18446744073709551616 in
    if leb m max_int then pos m else negsuc (18446744073709551615 - m)
