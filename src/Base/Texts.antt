-- ===== src/Base/Texts.antt =====
-- Go strings: concatenation, `strings.CutPrefix`, and the search in a list of strings.
use Prim.Native.Char.{code}
use Prim.Native.String.{String}
use mathlib.Core.Path.{◌≡◌, refl}
use mathlib.Core.Bool.{Bool, true, false, ◌||◌}
use mathlib.Core.Option.{Option, none, some}
use mathlib.Core.Option
use mathlib.Core.List.{List, [], ◌∷◌}
use native.Mathlib.Omega.{arith}
use text.Mathlib.Text.{◌==◌ as str_eq}
use text.Mathlib.TextEquality.{Char-path}
use beanstore.Base.Tests.{◌==◌, if◌then◌else◌}

-- `s + t` on strings; it computes at a literal `s`.
unfoldable pub cat : String → String → String
cat String.[] t = t
cat (String.◌∷◌ c s) t = String.◌∷◌ c (cat s t)

-- strings.CutPrefix(s, prefix): the rest behind the prefix, or none.
unfoldable pub cut_prefix : String → String → Option String
cut_prefix s String.[] = some s
cut_prefix String.[] (String.◌∷◌ c p) = none
cut_prefix (String.◌∷◌ d s) (String.◌∷◌ c p) = if code c == code d then cut_prefix s p else none

-- strings.CutSuffix(s, suffix): the text before the suffix, or none.
unfoldable pub cut_suffix : String → String → Option String
cut_suffix String.[] p = if str_eq String.[] p then some String.[] else none
cut_suffix (String.◌∷◌ c s) p =
    let rest = cut_suffix s p in
    if str_eq (String.◌∷◌ c s) p then some String.[] else Option.map (String.◌∷◌ c) rest

-- strings.HasPrefix(s, prefix)
unfoldable pub has_prefix : String → String → Bool
has_prefix s p = elim (cut_prefix s p) [ none ↦ false | some _ ↦ true ]

-- slices.Contains on strings.
unfoldable pub contains : String → List String → Bool
contains t [] = false
contains t (u ∷ us) = str_eq t u || contains t us

pub cut_prefix-cat : (p s : String) → cut_prefix (cat p s) p ≡ some s
unfolding cut_prefix cat
cut_prefix-cat String.[] s = refl
cut_prefix-cat (String.◌∷◌ c p) s = ground (arith, cut_prefix-cat p s)

pub cut_prefix-some : (s p v : String) → cut_prefix s p ≡ some v → s ≡ cat p v
unfolding cut_prefix cat
cut_prefix-some s String.[] v h = ground arith
cut_prefix-some String.[] (String.◌∷◌ c p) v h = ground arith
cut_prefix-some (String.◌∷◌ d s) (String.◌∷◌ c p) v h =
    ground (arith, cut_prefix-some s p v, Char-path d c)

test_cut : cut_prefix "beanstore.state=ready" "beanstore.state=" ≡ some "ready"
unfolding cut_prefix
test_cut = refl
