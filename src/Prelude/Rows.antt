-- ===== src/Prelude/Rows.antt =====
-- Tables with a key that is given out in ascending order, as SQLite's AUTOINCREMENT does.
use Prim.Native.Nat.{ℕ, suc, ◌+◌, ◌≤◌, ◌<◌}
use mathlib.Core.Path.{◌≡◌, refl, sym, subst}
use mathlib.Core.Logic.{inl, inr}
use mathlib.Core.Bool.{Bool, true, false, ◌&&◌}
use mathlib.Core.Option.{Option, none, some}
use mathlib.Core.List.{List, [], ◌∷◌, ◌++◌}
use native.Mathlib.Omega.{arith}
use phazechat_world.Prelude.Tests.{eqb, if◌then◌else◌, Bool-cases}
use phazechat_world.Prelude.Lists.{keep}

module _ {ℓ} {A : Type ℓ} where
  -- `… ORDER BY id LIMIT 1`
  unfoldable pub first_row : (A → Bool) → List A → Option A
  first_row p [] = none
  first_row p (r ∷ rs) = if p r then some r else first_row p rs

  -- A list with the first row that passes a test changed.
  unfoldable pub change_first : (A → Bool) → (A → A) → List A → List A
  change_first p f [] = []
  change_first p f (r ∷ rs) = if p r then f r ∷ rs else r ∷ change_first p f rs

  -- `UPDATE … WHERE`
  unfoldable pub change_rows : (A → Bool) → (A → A) → List A → List A
  change_rows p f [] = []
  change_rows p f (r ∷ rs) = (if p r then f r else r) ∷ change_rows p f rs

  -- A change of the first row that passes a test leaves what another test keeps.
  pub keep-change_first :
      (p q : A → Bool) (f : A → A) (rs : List A)
      → ((r : A) → p r ≡ true → q r ≡ false)
      → ((r : A) → p r ≡ true → q (f r) ≡ false)
      → keep q (change_first p f rs) ≡ keep q rs
  unfolding change_first
  keep-change_first p q f [] h k = refl
  keep-change_first p q f (r ∷ rs) h k = ground (arith, h r, k r, keep-change_first p q f rs h k)

  -- It is the same change of the rows that a test keeps, where it keeps all rows in question.
  pub keep-change_first_same :
      (p q : A → Bool) (f : A → A) (rs : List A)
      → ((r : A) → p r ≡ true → q r ≡ true)
      → ((r : A) → p r ≡ true → q (f r) ≡ true)
      → keep q (change_first p f rs) ≡ change_first p f (keep q rs)
  unfolding change_first
  keep-change_first_same p q f [] h k = refl
  keep-change_first_same p q f (r ∷ rs) h k = elim (Bool-cases (p r)) [
    | inl e ↦ ground (arith, e, h r e, k r e)
    | inr e ↦ ground (arith, e, keep-change_first_same p q f rs h k)
  ]

  module _ (key : A → ℕ) where
    -- The keys ascend from `lo`, below `hi`.
    abbrev pub Ascends : ℕ → ℕ → List A → Type 0
    Ascends lo hi [] = lo ≤ hi
    Ascends lo hi (r ∷ rs) = (lo ≤ key r) × Ascends (suc (key r)) hi rs

    pub Ascends-append :
        (lo hi : ℕ) (rs : List A) (r : A)
        → key r ≡ hi
        → Ascends lo hi rs
        → Ascends lo (hi + 1) (rs ++ r ∷ [])
    Ascends-append lo hi [] r e t = (omega (arith, e, t), omega (arith, e))
    Ascends-append lo hi (q ∷ rs) r e (l, t) = (l, Ascends-append (suc (key q)) hi rs r e t)

    pub Ascends-change_first :
        (p : A → Bool) (f : A → A) (lo hi : ℕ) (rs : List A)
        → ((r : A) → key (f r) ≡ key r)
        → Ascends lo hi rs
        → Ascends lo hi (change_first p f rs)
    unfolding change_first
    Ascends-change_first p f lo hi [] k t = t
    Ascends-change_first p f lo hi (r ∷ rs) k (l, t) = elim (Bool-cases (p r)) [
      | inl e ↦ rw e (omega (arith, l, k r), subst (λ n. Ascends (suc n) hi rs) (sym (k r)) t)
      | inr e ↦ rw e (l, Ascends-change_first p f (suc (key r)) hi rs k t)
    ]

    -- A first row lies in the range.
    first_row-le :
        (p : A → Bool) (lo hi : ℕ) (rs : List A) (x : A)
        → Ascends lo hi rs
        → first_row p rs ≡ some x
        → lo ≤ key x
    unfolding first_row
    first_row-le p lo hi [] x t e = ground (arith, e)
    first_row-le p lo hi (r ∷ rs) x (l, t) e =
        ground (arith, e, l, first_row-le p (suc (key r)) hi rs x t)

    head_of :
        (p : A → Bool) (r x : A) (rs : List A) → p r ≡ true → first_row p (r ∷ rs) ≡ some x → r ≡ x
    unfolding first_row
    head_of p r x rs b e = ground (arith, b, e)

    change_rows-below :
        (q : A → Bool) (f : A → A) (k lo hi : ℕ) (rs : List A)
        → k < lo
        → Ascends lo hi rs
        → change_rows (λ r. eqb (key r) k && q r) f rs ≡ rs
    unfolding change_rows
    change_rows-below q f k lo hi [] h t = refl
    change_rows-below q f k lo hi (r ∷ rs) h (l, t) =
        ground (arith, h, l, change_rows-below q f k (suc (key r)) hi rs (omega (arith, h, l)) t)

    -- An update by the key of the first row that passes a test changes this row alone.
    pub change_rows-first :
        (p q : A → Bool) (f : A → A) (lo hi : ℕ) (rs : List A) (x : A)
        → ((r : A) → p r ≡ true → q r ≡ true)
        → Ascends lo hi rs
        → first_row p rs ≡ some x
        → change_rows (λ r. eqb (key r) (key x) && q r) f rs ≡ change_first p f rs
    unfolding change_rows change_first first_row
    change_rows-first p q f lo hi [] x h t e = refl
    change_rows-first p q f lo hi (r ∷ rs) x h (l, t) e = elim (Bool-cases (p r)) [
      | inl b ↦
          subst
            (λ y.
              change_rows (λ z. eqb (key z) (key y) && q z) f (r ∷ rs) ≡ change_first p f (r ∷ rs))
            (head_of p r x rs b e)
            (ground
              (arith, b, h r b, change_rows-below q f (key r) (suc (key r)) hi rs (omega arith) t))
      | inr b ↦ ground (
        arith,
        e,
        b,
        first_row-le p (suc (key r)) hi rs x t,
        change_rows-first p q f (suc (key r)) hi rs x h t,
      )
    ]
