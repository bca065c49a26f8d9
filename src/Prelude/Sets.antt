-- ===== src/Prelude/Sets.antt =====
-- Go's `map[string]struct{}` as a list of texts, and tests on texts.
use Prim.Native.Char.{code}
use Prim.Native.String.{String}
use mathlib.Core.Path.{◌≡◌, subst}
use mathlib.Core.Logic.{inl, inr}
use mathlib.Core.Bool.{Bool, true, false, not, ◌&&◌, ◌||◌}
use mathlib.Core.List.{List, [], ◌∷◌}
use native.Mathlib.Omega.{arith}
use text.Mathlib.TextEquality.{eq_iff}
use phazechat_world.Prelude.Tests.{eqb, ◌==◌, if◌then◌else◌, Bool-cases}
use phazechat_world.Prelude.Lists.{All}

-- `_, in := set[x]`
unfoldable pub has : String → List String → Bool
has x [] = false
has x (y ∷ ys) = y == x || has x ys

-- What holds of every element holds of one that is in the set.
pub has-All {κ} :
    (P : String → Type κ) (x : String) (ys : List String) → All P ys → has x ys ≡ true → P x
unfolding has
has-All P x [] h e = cc
has-All P x (y ∷ ys) (h, hs) e = elim (Bool-cases (y == x)) [
  | inl q ↦ subst P ((eq_iff y x).0 q) h
  | inr q ↦ has-All P x ys hs (ground (arith, e, q))
]

-- `delete(set, x)`
unfoldable pub without : String → List String → List String
without x [] = []
without x (y ∷ ys) = let rest = without x ys in if y == x then rest else y ∷ rest

-- `set[x] = struct{}{}`
unfoldable pub including : String → List String → List String
unfolding without
including x ys = x ∷ without x ys

pub has-without :
    (x y : String) (ys : List String) → has y (without x ys) ≡ (not (x == y) && has y ys)
unfolding has without
has-without x y [] = ground arith
has-without x y (z ∷ zs) = ground (arith, eq_iff z x, eq_iff z y, eq_iff x y, has-without x y zs)

pub has-including :
    (x y : String) (ys : List String) → has y (including x ys) ≡ (x == y || has y ys)
unfolding has including
has-including x y ys = ground (arith, has-without x y ys)

-- `len(set) == 0`
abbrev pub is_empty {ℓ} : {A : Type ℓ} → List A → Bool
is_empty [] = true
is_empty (y ∷ ys) = false

-- `strings.HasPrefix(t, s)`
unfoldable pub starts_with : String → String → Bool
starts_with String.[] t = true
starts_with (String.◌∷◌ c s) String.[] = false
starts_with (String.◌∷◌ c s) (String.◌∷◌ d t) = eqb (code c) (code d) && starts_with s t
