-- ===== src/Prelude/Lists.antt =====
-- Lists over native numbers and Boolean tests.
use Prim.Native.Nat.{ℕ, zero, suc, ◌+◌, ◌≤◌, ◌<◌}
use mathlib.Core.Path.{◌≡◌, refl, subst}
use mathlib.Core.Logic.{inl, inr}
use mathlib.Core.Option.{Option, none, some}
use mathlib.Core.Bool.{Bool, true, false, ◌||◌}
use mathlib.Core.List.{List, [], ◌∷◌, ◌++◌}
use native.Mathlib.Omega.{arith}
use phazechat_world.Prelude.Tests.{if◌then◌else◌, Bool-cases}

module _ {ℓ} {A : Type ℓ} where
  abbrev pub length : List A → ℕ
  length [] = 0
  length (x ∷ xs) = suc (length xs)

  -- The entries that pass a test, in their order.
  abbrev pub keep : (A → Bool) → List A → List A
  keep p [] = []
  keep p (x ∷ xs) = let rest = keep p xs in if p x then x ∷ rest else rest

  abbrev pub any : (A → Bool) → List A → Bool
  any p [] = false
  any p (x ∷ xs) = p x || any p xs

  abbrev pub All {κ} : (A → Type κ) → List A → Type κ
  All P [] = Unit
  All P (x ∷ xs) = P x × All P xs

  pub length-append : (xs ys : List A) → length (xs ++ ys) ≡ length xs + length ys
  length-append [] ys = omega arith
  length-append (x ∷ xs) ys = omega (arith, length-append xs ys)

  pub length-keep-le : (p : A → Bool) (xs : List A) → length (keep p xs) ≤ length xs
  length-keep-le p [] = omega arith
  length-keep-le p (x ∷ xs) = ground (arith, length-keep-le p xs)

  -- `xs[i]`; `none` is out of range, where Go panics.
  abbrev pub get_elem? : List A → ℕ → Option A
  get_elem? [] i = none
  get_elem? (x ∷ xs) zero = some x
  get_elem? (x ∷ xs) (suc i) = get_elem? xs i

  pub All-keep {κ} : (P : A → Type κ) (p : A → Bool) (xs : List A) → All P xs → All P (keep p xs)
  All-keep P p [] h = h
  All-keep P p (x ∷ xs) (h, hs) = elim (Bool-cases (p x)) [
    | inl e ↦ rw e (h, All-keep P p xs hs)
    | inr e ↦ rw e (All-keep P p xs hs)
  ]

  -- What is kept passes the test.
  pub keep-All : (p : A → Bool) (xs : List A) → All (λ x. p x ≡ true) (keep p xs)
  keep-All p [] = tt
  keep-All p (x ∷ xs) = elim (Bool-cases (p x)) [
    | inl e ↦ rw e (e, keep-All p xs)
    | inr e ↦ rw e (keep-All p xs)
  ]

  pub All-get {κ} :
      (P : A → Type κ) (xs : List A) (i : ℕ) (x : A) → All P xs → get_elem? xs i ≡ some x → P x
  All-get P [] i x h e = cc
  All-get P (y ∷ xs) zero x (h, hs) e = subst P (cc) h
  All-get P (y ∷ xs) (suc i) x (h, hs) e = All-get P xs i x hs e

  pub get_elem?-total : (xs : List A) (i : ℕ) → i < length xs → (x : A) × (get_elem? xs i ≡ some x)
  get_elem?-total [] i h = absurd (omega arith)
  get_elem?-total (x ∷ xs) zero h = (x, refl)
  get_elem?-total (x ∷ xs) (suc i) h = get_elem?-total xs i (omega arith)

  pub any-keep : (p q : A → Bool) (xs : List A) → any p (keep q xs) ≡ true → any p xs ≡ true
  any-keep p q [] h = h
  any-keep p q (x ∷ xs) h = ground (arith, h, any-keep p q xs)

  pub any-append : (p : A → Bool) (xs : List A) (x : A) → any p (xs ++ x ∷ []) ≡ (any p xs || p x)
  any-append p [] x = ground arith
  any-append p (y ∷ xs) x = ground (arith, any-append p xs x)

  pub keep-append : (p : A → Bool) (xs ys : List A) → keep p (xs ++ ys) ≡ keep p xs ++ keep p ys
  keep-append p [] ys = refl
  keep-append p (x ∷ xs) ys = ground (arith, keep-append p xs ys)

  pub keep-none : (p : A → Bool) (xs : List A) → length (keep p xs) ≡ 0 → All (λ x. p x ≡ false) xs
  keep-none p [] e = tt
  keep-none p (x ∷ xs) e = elim (Bool-cases (p x)) [
    | inl f ↦ absurd (ground (arith, e, f))
    | inr f ↦ (f, keep-none p xs (ground (arith, e, f)))
  ]
