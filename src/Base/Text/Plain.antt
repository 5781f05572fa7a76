-- ===== src/Base/Text/Plain.antt =====
-- Lists of names in one text: what `split` and `trim` read back from what `join` wrote.
use Prim.Native.Nat.{ℕ}
use Prim.Native.Char.{Char, code}
use Prim.Native.String.{String}
use text.Mathlib.TextLemmas.{nil-append, cons-append, append-nil, append_assoc}
use mathlib.Core.Path.{◌≡◌, refl, sym, ap, ◌∙◌}
use mathlib.Core.Logic.{◌≢◌}
use mathlib.Core.Bool.{Bool, true, false, ◌&&◌, not}
use mathlib.Core.List.{List, [], ◌∷◌, map}
use native.Mathlib.Omega.{arith}
use text.Mathlib.Text.{◌==◌}
use text.Mathlib.TextEquality.{eq_iff}
use clustervision.Base.Tests.{num_eq, if◌then◌else◌}
use clustervision.Base.Lists.{All}
use clustervision.Base.Text.{
  ◌<>◌, is_space, trim_start, trim_end, trim, split_from, split, join, non_empty, each,
}

-- Neither a comma nor space.
abbrev is_plain : ℕ → Bool
is_plain c = not (num_eq c b',') && not (is_space c)

-- A name without comma and space, and not empty.
pub record Plain (s : String) : Type 0 where
  pub given : s ≢ ""
  pub plain : each is_plain s ≡ true

neither : (a b : Bool) → (not a && not b) ≡ true → (a ≡ false) × (b ≡ false)
neither true true h = (sym h, sym h)
neither true false h = (sym h, refl)
neither false true h = (refl, sym h)
neither false false h = (refl, refl)

both : (a b : Bool) → (a && b) ≡ true → (a ≡ true) × (b ≡ true)
both true b h = (refl, h)
both false b h = (h, absurd (ff h))
  where
    ff : false ≡ true → ⊥
    ff k = cc

if_and_false : (b : Bool) (x y : String) → (if b && false then x else y) ≡ y
if_and_false true x y = refl
if_and_false false x y = refl

-- What a plain text starts with.
head-plain :
    (c : Char) (s : String)
    → each is_plain (String.◌∷◌ c s) ≡ true
    → (num_eq (code c) b',' ≡ false) × (is_space (code c) ≡ false) × (each is_plain s ≡ true)
unfolding each
head-plain c s h =
    let (p, rest) = both (is_plain (code c)) (each is_plain s) h in
    let (no_comma, no_space) = neither (num_eq (code c) b',') (is_space (code c)) p in
    (no_comma, no_space, rest)

split_from_step :
    (c : Char) (s cur : String)
    → num_eq (code c) b',' ≡ false
    → split_from b',' cur (String.◌∷◌ c s) ≡ split_from b',' (cur <> String.◌∷◌ c String.[]) s
unfolding split_from
split_from_step c s cur h = rw h refl

snoc-append :
    (cur : String) (c : Char) (s : String) → (cur <> String.◌∷◌ c "") <> s ≡ cur <> String.◌∷◌ c s
snoc-append cur c s =
    append_assoc cur (String.◌∷◌ c "") s
    ∙ ap (λ t. cur <> t) (cons-append c "" s ∙ ap (String.◌∷◌ c) (nil-append s))

split_from-plain :
    (s t cur : String)
    → each is_plain s ≡ true
    → split_from b',' cur (s <> t) ≡ split_from b',' (cur <> s) t
split_from-plain String.[] t cur h = rw (nil-append, append-nil) refl
split_from-plain (String.◌∷◌ c s) t cur h =
    let (no_comma, no_space, rest) = head-plain c s h in
    let tail = split_from-plain s t (cur <> String.◌∷◌ c String.[]) rest in
    ap (split_from b',' cur) (cons-append c s t)
    ∙ split_from_step c (s <> t) cur no_comma
    ∙ tail
    ∙ ap (λ p. split_from b',' p t) (snoc-append cur c s)

trim_start-plain : (s : String) → each is_plain s ≡ true → trim_start s ≡ s
unfolding trim_start
trim_start-plain String.[] h = refl
trim_start-plain (String.◌∷◌ c s) h = rw ((head-plain c s h).1, trim_start) refl

trim_end-plain : (s : String) → each is_plain s ≡ true → trim_end s ≡ s
unfolding trim_end
trim_end-plain String.[] h = refl
trim_end-plain (String.◌∷◌ c s) h =
    let (no_comma, no_space, rest) = head-plain c s h in
    rw (no_space, trim_end-plain s rest) (if_and_false (s == "") "" (String.◌∷◌ c s))

trim-plain : (s : String) → each is_plain s ≡ true → trim s ≡ s
unfolding trim
trim-plain s h = rw (trim_start-plain s h) (trim_end-plain s h)

abbrev space : Char
space = " "

abbrev comma : Char
comma = ","

space-append : (s : String) → " " <> s ≡ String.◌∷◌ space s
space-append s = cons-append space "" s ∙ ap (String.◌∷◌ space) (nil-append s)

trim-space : (s : String) → each is_plain s ≡ true → trim (" " <> s) ≡ s
unfolding trim trim_start is_space
trim-space s h = ap trim (space-append s) ∙ trim-plain s h

trim-nil : (s : String) → each is_plain s ≡ true → trim ("" <> s) ≡ s
trim-nil s h = ap trim (nil-append s) ∙ trim-plain s h

split_from_comma : (s cur : String) → split_from b',' cur (", " <> s) ≡ cur ∷ split_from b',' " " s
unfolding split_from
split_from_comma s cur =
    ap (split_from b',' cur) (cons-append comma " " s ∙ ap (String.◌∷◌ comma) (space-append s))

-- The parts of `join(', ')` of plain names with `p` before them and `t` after them.
parts : String → String → List String → String → List String
parts p x [] t = split_from b',' (p <> x) t
parts p x (y ∷ xs) t = (p <> x) ∷ parts " " y xs t

split_from-join :
    (p x : String) (xs : List String) (t : String)
    → All Plain (x ∷ xs)
    → split_from b',' p (join ", " (x ∷ xs) <> t) ≡ parts p x xs t
unfolding join parts
split_from-join p x [] t (h, _) = split_from-plain x t p h.plain
split_from-join p x (y ∷ xs) t (h, k) =
    let later = join ", " (y ∷ xs) in
    ap (split_from b',' p)
      (append_assoc x (", " <> later) t ∙ ap (λ u. x <> u) (append_assoc ", " later t))
    ∙ split_from-plain x (", " <> (later <> t)) p h.plain
    ∙ split_from_comma (later <> t) (p <> x)
    ∙ ap (λ ys. (p <> x) ∷ ys) (split_from-join " " y xs t k)

given_kept : (x : String) (xs : List String) → x ≢ "" → non_empty (x ∷ xs) ≡ x ∷ non_empty xs
given_kept x xs ne = ground (arith, eq_iff x "")

-- A text at the end that adds no name.
abbrev Idle : String → Type 0
Idle t = (q : String) → non_empty (map trim (split_from b',' q t)) ≡ non_empty (trim q ∷ [])

parts-read :
    (p x : String) (xs : List String) (t : String)
    → ((s : String) → each is_plain s ≡ true → trim (p <> s) ≡ s)
    → Idle t
    → All Plain (x ∷ xs)
    → non_empty (map trim (parts p x xs t)) ≡ x ∷ xs
unfolding parts
parts-read p x [] t trims idle (h, _) =
    idle (p <> x) ∙ ap (λ y. non_empty (y ∷ [])) (trims x h.plain) ∙ given_kept x [] h.given
parts-read p x (y ∷ xs) t trims idle (h, k) =
    let later = map trim (parts " " y xs t) in
    ap (λ z. non_empty (z ∷ later)) (trims x h.plain)
    ∙ given_kept x later h.given
    ∙ ap (λ zs. x ∷ zs) (parts-read " " y xs t trim-space idle k)

nil-Idle : Idle ""
unfolding split_from
nil-Idle q = refl

comma-Idle : Idle ","
unfolding split_from trim trim_start trim_end
comma-Idle q = refl

read-join :
    (t : String) (xs : List String)
    → Idle t
    → All Plain xs
    → non_empty (map trim (split b',' (join ", " xs <> t))) ≡ xs
unfolding split join trim
read-join t [] idle h =
    ap (λ u. non_empty (map trim (split_from b',' "" u))) (nil-append t) ∙ idle ""
read-join t (x ∷ xs) idle h =
    ap (λ ys. non_empty (map trim ys)) (split_from-join "" x xs t h)
    ∙ parts-read "" x xs t trim-nil idle h

-- Names that are joined with a comma and a space are read back from the text.
pub read-join_exact :
    (xs : List String) → All Plain xs → non_empty (map trim (split b',' (join ", " xs))) ≡ xs
read-join_exact xs h =
    ap (λ u. non_empty (map trim (split b',' u))) (sym (append-nil (join ", " xs)))
    ∙ read-join "" xs nil-Idle h

-- The same names are read back when a comma follows.
pub read-join_comma :
    (xs : List String) → All Plain xs → non_empty (map trim (split b',' (join ", " xs <> ","))) ≡ xs
read-join_comma xs h = read-join "," xs comma-Idle h
