-- ===== src/Prelude/Texts.antt =====
-- Go's `strings.TrimSpace` and what `strings.Index`, `strings.HasSuffix` and `strings.Split` are used
-- for, on texts.
use Prim.Native.Char.{code}
use Prim.Native.String.{String}
use mathlib.Core.List.{List, [], ◌∷◌}
use Prim.Native.Nat.{ℕ}
use mathlib.Core.Bool.{Bool, ◌&&◌, ◌||◌}
use phazechat_world.Prelude.Tests.{leb, eqb, ◌==◌, if◌then◌else◌}

-- `unicode.IsSpace`
abbrev pub is_space : ℕ → Bool
is_space c =
    (leb 9 c && leb c 13)
    || eqb c 32
    || eqb c 0x85
    || eqb c 0xa0
    || eqb c 0x1680
    || (leb 0x2000 c && leb c 0x200a)
    || eqb c 0x2028
    || eqb c 0x2029
    || eqb c 0x202f
    || eqb c 0x205f
    || eqb c 0x3000

unfoldable pub trim_left : String → String
trim_left String.[] = String.[]
trim_left (String.◌∷◌ c s) =
    let rest = trim_left s in if is_space (code c) then rest else String.◌∷◌ c s

unfoldable pub trim_right : String → String
trim_right String.[] = String.[]
trim_right (String.◌∷◌ c s) =
    let rest = trim_right s in if is_space (code c) && rest == "" then "" else String.◌∷◌ c rest

unfoldable pub trim_space : String → String
unfolding trim_left trim_right
trim_space s = trim_right (trim_left s)

-- `s[i+1:]` for the first index of a character, `s` where there is none.
unfoldable pub after_first : ℕ → String → String
after_first d s = go s
  where
    go : String → String
    go String.[] = s
    go (String.◌∷◌ c t) = let rest = go t in if eqb (code c) d then t else rest

-- `s[:i]` for the first index of a character, `s` where there is none.
unfoldable pub before_first : ℕ → String → String
before_first d String.[] = String.[]
before_first d (String.◌∷◌ c s) =
    let rest = before_first d s in if eqb (code c) d then "" else String.◌∷◌ c rest

-- `strings.HasSuffix(t, s)`
unfoldable pub ends_with : String → String → Bool
ends_with s String.[] = s == ""
ends_with s (String.◌∷◌ c t) = String.◌∷◌ c t == s || ends_with s t

-- `strings.Split` at a character: the first part and the others.
unfoldable pub split_at : ℕ → String → String × List String
split_at d String.[] = ("", [])
split_at d (String.◌∷◌ c s) =
    let (p, ps) = split_at d s in if eqb (code c) d then ("", p ∷ ps) else (String.◌∷◌ c p, ps)
