-- ===== src/Base/Text/Cut.antt =====
-- What `split` reads back from two texts that a separator joins.
use Prim.Native.Nat.{ℕ}
use Prim.Native.Char.{Char, code}
use Prim.Native.String.{String}
use text.Mathlib.TextLemmas.{nil-append, cons-append, append-nil, append_assoc}
use mathlib.Core.Path.{◌≡◌, refl, sym, ap, ◌∙◌}
use mathlib.Core.Bool.{Bool, true, false, ◌&&◌, not}
use mathlib.Core.List.{[], ◌∷◌}
use native.Mathlib.Omega.{arith}
use clustervision.Base.Tests.{num_eq}
use clustervision.Base.Text.{◌<>◌, split_from, split, each}

-- The character is not in the text.
unfoldable pub lacks : ℕ → String → Bool
unfolding each
lacks sep s = each (λ c. not (num_eq c sep)) s

first_other : (a b : Bool) → (not a && b) ≡ true → (a ≡ false) × (b ≡ true)
first_other false b h = (refl, h)
first_other true b h = absurd (ff h)
  where
    ff : false ≡ true → ⊥
    ff k = cc

longer :
    (cur : String) (c : Char) (s : String) → (cur <> String.◌∷◌ c "") <> s ≡ cur <> String.◌∷◌ c s
longer cur c s =
    append_assoc cur (String.◌∷◌ c "") s
    ∙ ap (λ t. cur <> t) (cons-append c "" s ∙ ap (String.◌∷◌ c) (nil-append s))

split_from-lacks :
    (sep : ℕ) (s t cur : String)
    → lacks sep s ≡ true
    → split_from sep cur (s <> t) ≡ split_from sep (cur <> s) t
unfolding split_from lacks each
split_from-lacks sep String.[] t cur h = rw (nil-append, append-nil) refl
split_from-lacks sep (String.◌∷◌ c s) t cur h =
    let (other, others) = first_other (num_eq (code c) sep) (lacks sep s) h in
    ap (split_from sep cur) (cons-append c s t)
    ∙ rw (other, split_from)
        (split_from-lacks sep s t (cur <> String.◌∷◌ c "") others
          ∙ ap (λ p. split_from sep p t) (longer cur c s))

num_eq_self : (n : ℕ) → num_eq n n ≡ true
num_eq_self n = ground arith

split_from_sep :
    (c : Char) (t cur : String)
    → split_from (code c) cur (String.◌∷◌ c t) ≡ cur ∷ split_from (code c) "" t
unfolding split_from
split_from_sep c t cur = rw (num_eq_self (code c), split_from) refl

-- A text of two parts without the separator is split into these.
pub split-two :
    (c : Char) (a b : String)
    → lacks (code c) a ≡ true
    → lacks (code c) b ≡ true
    → split (code c) (a <> (String.◌∷◌ c "" <> b)) ≡ a ∷ b ∷ []
unfolding split split_from
split-two c a b h k =
    split_from-lacks (code c) a (String.◌∷◌ c "" <> b) "" h
    ∙ ap (split_from (code c) ("" <> a)) (cons-append c "" b ∙ ap (String.◌∷◌ c) (nil-append b))
    ∙ split_from_sep c b ("" <> a)
    ∙ ap (λ t. t ∷ split_from (code c) "" b) (nil-append a)
    ∙ ap (λ ts. a ∷ ts) last_part
  where
    last_part : split_from (code c) "" b ≡ b ∷ []
    last_part =
        ap (split_from (code c) "") (sym (append-nil b))
        ∙ split_from-lacks (code c) b "" "" k
        ∙ ap (λ t. t ∷ []) (nil-append b)
