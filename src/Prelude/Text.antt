-- ===== src/Prelude/Text.antt =====
-- What the source uses of Python's `str`. Case folding and white space are those of ASCII.
use Prim.Native.Nat.{ℕ, zero, suc, ◌-◌, ◌≤◌}
use Prim.Native.Char.{Char, code}
use Prim.Native.String.count
use Prim.Native.String.{String, char_at, ◌++◌, count}
use mathlib.Core.Bool.{Bool, true, false, not, ◌&&◌, ◌||◌}
use mathlib.Core.List.{List}
use mathlib.Core.Option.{Option, none, some}
use mathlib.Core.Path.{◌≡◌, refl}
use native.Mathlib.Omega.{arith}
use text.Mathlib.Text.{◌==◌}
use text.Mathlib.TextLemmas.{nil-append, cons-append}
use lead_generation_api_zyla.Prelude.Tests.{leb, eqb, if◌then◌else◌}
use lead_generation_api_zyla.Prelude.Lists.{any, keep}

-- `str.isspace` of one ASCII character
abbrev pub is_space : Char → Bool
is_space c =
    eqb (code c) 32 || (leb 9 (code c) && leb (code c) 13) || (leb 28 (code c) && leb (code c) 31)

unfoldable pub lower_char : Char → Char
lower_char c =
    if leb 65 (code c) && leb (code c) 90
    then char_at "abcdefghijklmnopqrstuvwxyz" (code c - 65)
    else c

-- `s.lower()`
unfoldable pub lower : String → String
unfolding lower_char
lower String.[] = ""
lower (String.◌∷◌ c s) = String.◌∷◌ (lower_char c) (lower s)

unfoldable pub upper_char : Char → Char
upper_char c =
    if leb 97 (code c) && leb (code c) 122
    then char_at "ABCDEFGHIJKLMNOPQRSTUVWXYZ" (code c - 97)
    else c

-- `s.upper()`
unfoldable pub upper : String → String
unfolding upper_char
upper String.[] = ""
upper (String.◌∷◌ c s) = String.◌∷◌ (upper_char c) (upper s)

unfoldable pub lstrip : String → String
lstrip String.[] = ""
lstrip (String.◌∷◌ c s) = let rest = lstrip s in if is_space c then rest else String.◌∷◌ c s

unfoldable pub rstrip : String → String
rstrip String.[] = ""
rstrip (String.◌∷◌ c s) =
    let rest = rstrip s in if is_space c && (rest == "") then "" else String.◌∷◌ c rest

-- `s.strip()`
unfoldable pub strip : String → String
unfolding lstrip rstrip
strip s = rstrip (lstrip s)

-- the rest of the text behind a prefix
unfoldable pub drop_prefix : String → String → Option String
drop_prefix String.[] s = some s
drop_prefix (String.◌∷◌ p ps) String.[] = none
drop_prefix (String.◌∷◌ p ps) (String.◌∷◌ c s) =
    let rest = drop_prefix ps s in if eqb (code p) (code c) then rest else none

-- `s.removeprefix(p)`
unfoldable pub removeprefix : String → String → String
unfolding drop_prefix
removeprefix s p = elim (drop_prefix p s) [ none ↦ s | some rest ↦ rest ]

-- `s.startswith(p)`
unfoldable pub startswith : String → String → Bool
unfolding drop_prefix
startswith s p = elim (drop_prefix p s) [ none ↦ false | some _ ↦ true ]

-- `needle in s`
unfoldable pub contains : String → String → Bool
unfolding startswith
contains needle String.[] = needle == ""
contains needle (String.◌∷◌ c s) = startswith (String.◌∷◌ c s) needle || contains needle s

-- put a character before the first piece
abbrev pub before_first : Char → List String → List String
before_first c List.[] = List.◌∷◌ (String.◌∷◌ c "") List.[]
before_first c (List.◌∷◌ w ws) = List.◌∷◌ (String.◌∷◌ c w) ws

-- `s.split(sep)` at each character that is a separator; never empty
unfoldable pub split_at : (Char → Bool) → String → List String
split_at sep String.[] = List.◌∷◌ "" List.[]
split_at sep (String.◌∷◌ c s) =
    let rest = split_at sep s in if sep c then List.◌∷◌ "" rest else before_first c rest

-- the texts before and behind the first separator; `s.partition(sep)` without its middle
unfoldable pub partition : (Char → Bool) → String → String × String
partition sep String.[] = ("", "")
partition sep (String.◌∷◌ c s) =
    let (before, behind) = partition sep s in
    if sep c then ("", s) else (String.◌∷◌ c before, behind)

-- `s.split(",")`
abbrev pub split_comma : String → List String
split_comma = split_at (λ c. eqb (code c) b',')

-- `s.split()`
unfoldable pub split_words : String → List String
unfolding split_at
split_words s = keep (λ w. not (w == "")) (split_at is_space s)

-- `sep.join(words)`
unfoldable pub join : String → List String → String
join sep List.[] = ""
join sep (List.◌∷◌ w List.[]) = w
join sep (List.◌∷◌ w ws) = w ++ (sep ++ join sep ws)

-- `x in xs` for texts
abbrev pub mem : String → List String → Bool
mem x = any (λ y. y == x)

-- A text starts with what was put before it.
drop_prefix-append : (p s : String) → drop_prefix p (p ++ s) ≡ some s
unfolding drop_prefix
drop_prefix-append String.[] s = rw (nil-append s) refl
drop_prefix-append (String.◌∷◌ c p) s =
    let same : eqb (code c) (code c) ≡ true = ground arith in
    rw (cons-append c p s, same) (drop_prefix-append p s)

pub startswith-append : (s p : String) → startswith (p ++ s) p ≡ true
unfolding startswith
startswith-append s p = rw (drop_prefix-append p s, startswith) refl

-- `s[:n]`
unfoldable pub take_text : ℕ → String → String
take_text zero s = ""
take_text (suc n) String.[] = ""
take_text (suc n) (String.◌∷◌ c s) = String.◌∷◌ c (take_text n s)

-- an ASCII lower-case letter or a digit
abbrev pub is_word : Char → Bool
is_word c = (leb 97 (code c) && leb (code c) 122) || (leb 48 (code c) && leb (code c) 57)

pub count-take_text-le : (n : ℕ) (s : String) → count (take_text n s) ≤ n
unfolding take_text
count-take_text-le zero s = omega (arith, count.nil)
count-take_text-le (suc n) String.[] = omega (arith, count.nil)
count-take_text-le (suc n) (String.◌∷◌ c s) =
    omega (arith, count.cons c (take_text n s), count-take_text-le n s)
