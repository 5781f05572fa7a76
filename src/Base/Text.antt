-- ===== src/Base/Text.antt =====
-- Text operations of the language: trimming, splitting, joining, decimal numerals, and the
-- character tests of the regular expressions.
pub mod Plain
pub mod Cut
use Prim.Native.Nat.{ℕ, zero, suc, ◌/◌, ◌%◌}
use Prim.Native.Char.{code}
use Prim.Native.String
use Prim.Native.String.{String}
use mathlib.Core.Bool.{Bool, true, false, ◌&&◌, ◌||◌, not}
use mathlib.Core.List.{List, [], ◌∷◌}
use text.Mathlib.Text.{◌==◌}
use clustervision.Base.Tests.{leb, num_eq, if◌then◌else◌}
use clustervision.Base.Lists.{filter}

infixr 65 ◌<>◌
-- `a + b` on texts, and `${a}${b}`
abbrev pub ◌<>◌ : String → String → String
s <> t = String.◌++◌ s t

-- White space and line ends, as `trim` removes them.
unfoldable pub is_space : ℕ → Bool
is_space c =
    (leb 9 c && leb c 13)
    || num_eq c 32
    || num_eq c 160
    || num_eq c 5760
    || (leb 8192 c && leb c 8202)
    || num_eq c 8232
    || num_eq c 8233
    || num_eq c 8239
    || num_eq c 8287
    || num_eq c 12288
    || num_eq c 65279

trim_start : String → String
unfolding is_space
trim_start String.[] = ""
trim_start (String.◌∷◌ c s) = if is_space (code c) then trim_start s else String.◌∷◌ c s

-- Removes trailing space: a character stays if it, or one after it, is no space.
trim_end : String → String
unfolding is_space
trim_end String.[] = ""
trim_end (String.◌∷◌ c s) =
    let rest = trim_end s in if rest == "" && is_space (code c) then "" else String.◌∷◌ c rest

-- `s.trim()`
unfoldable pub trim : String → String
unfolding trim_start trim_end
trim s = trim_end (trim_start s)

split_from : ℕ → String → String → List String
split_from sep cur String.[] = cur ∷ []
split_from sep cur (String.◌∷◌ c s) =
    let closed = cur ∷ split_from sep "" s in
    let longer = split_from sep (cur <> String.◌∷◌ c String.[]) s in
    if num_eq (code c) sep then closed else longer

-- `s.split(sep)` for a separator of one character
unfoldable pub split : ℕ → String → List String
unfolding split_from
split sep s = split_from sep "" s

-- `xs.join(sep)`
unfoldable pub join : String → List String → String
join sep [] = ""
join sep (x ∷ []) = x
join sep (x ∷ y ∷ xs) = x <> sep <> join sep (y ∷ xs)

-- `xs.filter(Boolean)`
abbrev pub non_empty : List String → List String
non_empty = filter (λ s. not (s == ""))

digit : ℕ → String
digit n =
    if num_eq n 0
    then "0"
    else if num_eq n 1
    then "1"
    else if num_eq n 2
    then "2"
    else if num_eq n 3
    then "3"
    else if num_eq n 4
    then "4"
    else if num_eq n 5
    then "5"
    else if num_eq n 6
    then "6"
    else if num_eq n 7
    then "7"
    else if num_eq n 8
    then "8"
    else "9"

show_from : ℕ → ℕ → String → String
unfolding digit
show_from zero n acc = acc
show_from (suc f) n acc =
    let more = show_from f (n / 10) (digit (n % 10) <> acc) in
    if num_eq (n / 10) 0 then digit n <> acc else more

-- A number in a template; as many rounds as the number are more than its digits.
unfoldable pub show : ℕ → String
unfolding show_from
show n = show_from (suc n) n ""

-- `[a-z0-9]`
unfoldable pub is_lower_alnum : ℕ → Bool
is_lower_alnum c = (leb b'a' c && leb c b'z') || (leb b'0' c && leb c b'9')

-- `[a-z0-9\-]`
unfoldable pub is_label_char : ℕ → Bool
unfolding is_lower_alnum
is_label_char c = is_lower_alnum c || num_eq c b'-'

-- `[a-z0-9\-\.]`
unfoldable pub is_name_char : ℕ → Bool
unfolding is_label_char
is_name_char c = is_label_char c || num_eq c b'.'

-- Every character passes the test.
unfoldable pub each : (ℕ → Bool) → String → Bool
each p String.[] = true
each p (String.◌∷◌ c s) = p (code c) && each p s

-- `/^[a-z0-9]…*$/` for the class of the later characters
unfoldable pub starts_and : (ℕ → Bool) → String → Bool
unfolding is_lower_alnum each
starts_and p String.[] = false
starts_and p (String.◌∷◌ c s) = is_lower_alnum (code c) && each p s
