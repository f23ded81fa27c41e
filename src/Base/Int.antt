-- ===== src/Base/Int.antt =====
-- Python's `int`, over the native numbers: `negsuc n` is -(n + 1). `parse_int` is `int(text)` on
-- ASCII digits, with `none` for a `ValueError`.
use Prim.Native.Nat.{ℕ, zero, suc, ◌+◌, ◌-◌, ◌*◌}
use mathlib.Core.Bool.{Bool, true, false, ◌&&◌}
use mathlib.Core.Option
use mathlib.Core.Option.{Option, none, some}
use mathlib.Core.List.{[], ◌∷◌}
use llopster.Base.Tests.{ltb, leb, ◌==◌, if◌then◌else◌}
use llopster.Base.Strings.{Text, strip}

pub data ℤ : Type 0 where
  pos : ℕ → ℤ
  negsuc : ℕ → ℤ

-- `a < b`
abbrev pub ltb_int : ℤ → ℤ → Bool
ltb_int (pos a) (pos b) = ltb a b
ltb_int (pos a) (negsuc b) = false
ltb_int (negsuc a) (pos b) = true
ltb_int (negsuc a) (negsuc b) = ltb b a

abbrev pub negate : ℕ → ℤ
negate zero = pos zero
negate (suc n) = negsuc n

is_digit : ℕ → Bool
is_digit c = leb b'0' c && leb c b'9'

-- The digits from the left: a `_` may stand between two of them.
digits_after : ℕ → Text → Option ℕ
unfolding is_digit
digits_after n [] = some n
digits_after n (c ∷ []) = if is_digit c then some (n * 10 + (c - b'0')) else none
digits_after n (c ∷ d ∷ s) =
    let after_digit = digits_after (n * 10 + (c - b'0')) (d ∷ s) in
    let after_mark = digits_after (n * 10 + (d - b'0')) s in
    if is_digit c then after_digit else if c == b'_' && is_digit d then after_mark else none

digits : Text → Option ℕ
unfolding digits_after
digits [] = none
digits (c ∷ s) = if is_digit c then digits_after (c - b'0') s else none

signed : Text → Option ℤ
unfolding digits
signed [] = none
signed (c ∷ s) =
    if c == b'-'
    then Option.map negate (digits s)
    else if c == b'+'
    then Option.map pos (digits s)
    else Option.map pos (digits (c ∷ s))

-- `int(text)`
unfoldable pub parse_int : Text → Option ℤ
unfolding signed
parse_int s = signed (strip s)
