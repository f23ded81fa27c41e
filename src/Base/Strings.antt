-- ===== src/Base/Strings.antt =====
-- Python's `str`, as the list of its code points, with the methods that the modelled code calls.
-- `lower` is exact on ASCII; a letter outside ASCII is left alone.
pub mod Laws
use Prim.Native.Char.{code}
use Prim.Native.Nat.{ℕ, zero, suc, ◌+◌}
use Prim.Native.String.{String}
use mathlib.Core.Bool.{Bool, true, false, ◌&&◌, ◌||◌, not}
use mathlib.Core.List.{List, [], ◌∷◌, ◌++◌}
use llopster.Base.Tests.{◌==◌, leb, if◌then◌else◌}
use llopster.Base.Lists.{any, filter, is_empty}

abbrev pub Text : Type 0
Text = List ℕ

-- A literal. Its code points show only where `lit` is unfolded.
unfoldable pub lit : String → Text
lit String.[] = []
lit (String.◌∷◌ c s) = code c ∷ lit s

unfoldable pub text_eq : Text → Text → Bool
text_eq [] [] = true
text_eq [] (y ∷ ys) = false
text_eq (x ∷ xs) [] = false
text_eq (x ∷ xs) (y ∷ ys) = x == y && text_eq xs ys

-- `s in xs`, for a collection of texts
unfoldable pub member : Text → List Text → Bool
unfolding text_eq
member s xs = any (text_eq s) xs

-- `s.startswith(p)`
unfoldable pub starts_with : Text → Text → Bool
starts_with s [] = true
starts_with [] (p ∷ ps) = false
starts_with (c ∷ s) (p ∷ ps) = c == p && starts_with s ps

-- `str.isspace` of one character, which `strip` without an argument removes
unfoldable pub is_space : ℕ → Bool
is_space c =
    (leb 9 c && leb c 13)
    || (leb 28 c && leb c 32)
    || c == 133
    || c == 160
    || c == 5760
    || (leb 8192 c && leb c 8202)
    || c == 8232
    || c == 8233
    || c == 8239
    || c == 8287
    || c == 12288

unfoldable pub lstrip_by : (ℕ → Bool) → Text → Text
lstrip_by p [] = []
lstrip_by p (c ∷ s) = let rest = lstrip_by p s in if p c then rest else c ∷ s

-- what stays of `c` in front of a text that is already stripped on the right
abbrev pub keep_left : (ℕ → Bool) → ℕ → Text → Text
keep_left p c [] = if p c then [] else c ∷ []
keep_left p c (d ∷ s) = c ∷ d ∷ s

unfoldable pub rstrip_by : (ℕ → Bool) → Text → Text
rstrip_by p [] = []
rstrip_by p (c ∷ s) = keep_left p c (rstrip_by p s)

-- `s.strip()`
unfoldable pub strip : Text → Text
unfolding is_space lstrip_by rstrip_by
strip s = lstrip_by is_space (rstrip_by is_space s)

-- `s.strip(chars)`, for the characters that pass the test
unfoldable pub strip_by : (ℕ → Bool) → Text → Text
unfolding lstrip_by rstrip_by
strip_by p s = lstrip_by p (rstrip_by p s)

-- `s.rstrip("\r\n")`
unfoldable pub rstrip_newlines : Text → Text
unfolding rstrip_by
rstrip_newlines = rstrip_by (λ c. c == 10 || c == 13)

abbrev pub lower_char : ℕ → ℕ
lower_char c = if leb b'A' c && leb c b'Z' then c + 32 else c

-- `s.lower()`
unfoldable pub lower : Text → Text
lower [] = []
lower (c ∷ s) = lower_char c ∷ lower s

-- `c` in front of the first of the pieces
abbrev pub attach : ℕ → List Text → List Text
attach c [] = (c ∷ []) ∷ []
attach c (piece ∷ pieces) = (c ∷ piece) ∷ pieces

-- `s.split(sep)`, for a separator of one character
unfoldable pub split_on : ℕ → Text → List Text
split_on sep [] = [] ∷ []
split_on sep (c ∷ s) = let rest = split_on sep s in if c == sep then [] ∷ rest else attach c rest

-- `sep.join(pieces)`, for a separator of one character
unfoldable pub join_with : ℕ → List Text → Text
join_with sep [] = []
join_with sep (piece ∷ []) = piece
join_with sep (piece ∷ next ∷ pieces) = piece ++ (sep ∷ join_with sep (next ∷ pieces))

-- A line boundary of `str.splitlines`, "\r\n" excepted.
is_break : ℕ → Bool
is_break c = (leb 10 c && leb c 13) || (leb 28 c && leb c 30) || c == 133 || c == 8232 || c == 8233

-- `c` is the "\r" of a "\r\n"
abbrev pub is_crlf : ℕ → Text → Bool
is_crlf c [] = false
is_crlf c (d ∷ s) = c == 13 && d == 10

-- the line ends behind `c`
breaks : ℕ → Text → Bool
unfolding is_break
breaks c s = is_break c && not (is_crlf c s)

-- `s.splitlines(keepends=True)`
unfoldable pub split_lines_keep : Text → List Text
unfolding breaks
split_lines_keep [] = []
split_lines_keep (c ∷ s) =
    let rest = split_lines_keep s in if breaks c s then (c ∷ []) ∷ rest else attach c rest

-- `s.splitlines()`
unfoldable pub split_lines : Text → List Text
unfolding breaks
split_lines [] = []
split_lines (c ∷ s) =
    let rest = split_lines s in
    if breaks c s then [] ∷ rest else if is_crlf c s then rest else attach c rest

-- `"".join(pieces)`
abbrev pub concat : List Text → Text
concat [] = []
concat (piece ∷ pieces) = piece ++ concat pieces

-- `s.endswith(t)`
unfoldable pub ends_with : Text → Text → Bool
unfolding text_eq
ends_with [] t = is_empty t
ends_with (c ∷ s) t = text_eq (c ∷ s) t || ends_with s t

-- `t in s`, for two texts
unfoldable pub contains : Text → Text → Bool
unfolding starts_with
contains [] t = is_empty t
contains (c ∷ s) t = starts_with (c ∷ s) t || contains s t

-- `s.partition(sep)` without its separator, for a separator of one character
unfoldable pub partition : ℕ → Text → Text × Text
partition sep [] = ([], [])
partition sep (c ∷ s) =
    let rest = partition sep s in if c == sep then ([], s) else (c ∷ rest.0, rest.1)
