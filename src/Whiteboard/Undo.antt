-- ===== src/Whiteboard/Undo.antt =====
-- Taking strokes back: nexus_server/whiteboard.go.
use phazechat_world.Prelude.{
  ℕ, suc, ◌-◌, ◌≤◌, ◌<◌, ◌≡◌, refl, subst, ◌⊎◌, inl, inr, Bool, true, false, ◌&&◌, some, List, [],
  ◌∷◌, ◌++◌, arith, String, keep, ltb, Bool-cases, Option-cases,
}
use phazechat_world.Whiteboard.{Row, on_channel, drop_oldest, remove_row, latest}

-- Ids ascend from `lo`, below `hi`.
abbrev pub Chain : ℕ → ℕ → List Row → Type 0
Chain lo hi [] = lo ≤ hi
Chain lo hi (r ∷ rs) = (lo ≤ r.id) × Chain (suc r.id) hi rs

Chain-le : (lo hi : ℕ) (rs : List Row) → Chain lo hi rs → lo ≤ hi
Chain-le lo hi [] t = t
Chain-le lo hi (r ∷ rs) (l, t) = omega (arith, l, Chain-le (suc r.id) hi rs t)

Chain-weaken : (lo' lo hi : ℕ) (rs : List Row) → lo' ≤ lo → Chain lo hi rs → Chain lo' hi rs
Chain-weaken lo' lo hi [] h t = omega (arith, h, t)
Chain-weaken lo' lo hi (r ∷ rs) h (l, t) = (omega (arith, h, l), t)

pub Chain-keep :
    (p : Row → Bool) (lo hi : ℕ) (rs : List Row) → Chain lo hi rs → Chain lo hi (keep p rs)
Chain-keep p lo hi [] t = t
Chain-keep p lo hi (r ∷ rs) (l, t) = elim (Bool-cases (p r)) [
  | inl e ↦ rw e (l, Chain-keep p (suc r.id) hi rs t)
  | inr e ↦ rw e (
      Chain-weaken lo (suc r.id) hi (keep p rs) (omega (arith, l))
        (Chain-keep p (suc r.id) hi rs t))
]

pub Chain-drop_oldest :
    (c : String) (n lo hi : ℕ) (rs : List Row) → Chain lo hi rs → Chain lo hi (drop_oldest c n rs)
unfolding drop_oldest
Chain-drop_oldest c n lo hi [] t = t
Chain-drop_oldest c n lo hi (r ∷ rs) (l, t) = elim (Bool-cases (on_channel c r && ltb 0 n)) [
  | inl e ↦
      rw (drop_oldest, e)
        (Chain-weaken lo (suc r.id) hi (drop_oldest c (n - 1) rs) (omega (arith, l))
          (Chain-drop_oldest c (n - 1) (suc r.id) hi rs t))
  | inr e ↦ rw (drop_oldest, e) (l, Chain-drop_oldest c n (suc r.id) hi rs t)
]

pub Chain-append :
    (lo hi : ℕ) (rs : List Row) (r : Row)
    → r.id ≡ hi
    → Chain lo hi rs
    → Chain lo (suc hi) (rs ++ r ∷ [])
Chain-append lo hi [] r e t = (omega (arith, e, t), omega (arith, e))
Chain-append lo hi (q ∷ rs) r e (l, t) = (l, Chain-append (suc q.id) hi rs r e t)

remove_row-below : (id lo hi : ℕ) (rs : List Row) → id < lo → Chain lo hi rs → remove_row id rs ≡ rs
unfolding remove_row
remove_row-below id lo hi [] h t = refl
remove_row-below id lo hi (r ∷ rs) h (l, t) =
    ground (arith, remove_row-below id (suc r.id) hi rs (omega (arith, h, l)) t)

pub remove_row-last :
    (lo hi : ℕ) (rs : List Row) (r : Row)
    → r.id ≡ hi
    → Chain lo hi rs
    → remove_row hi (rs ++ r ∷ []) ≡ rs
unfolding remove_row
remove_row-last lo hi [] r e t = ground (arith, e)
remove_row-last lo hi (q ∷ rs) r e (l, t) =
    ground (arith, remove_row-last (suc q.id) hi rs r e t, Chain-le (suc q.id) hi rs t)

pub latest-append :
    (p : Row → Bool) (rs : List Row) (r : Row) → p r ≡ true → latest p (rs ++ r ∷ []) ≡ some r
unfolding latest
latest-append p [] r e = rw e
latest-append p (q ∷ rs) r e = rw (latest-append p rs r e)

latest-Chain :
    (p : Row → Bool) (lo hi : ℕ) (rs : List Row) (x : Row)
    → Chain lo hi rs
    → latest p rs ≡ some x
    → lo ≤ x.id
unfolding latest
latest-Chain p lo hi [] x t e = ground (arith, e)
latest-Chain p lo hi (r ∷ rs) x (l, t) e = elim (Option-cases (latest p rs)) [
  | inl f ↦ ground (arith, e, f, l)
  | inr (y, f) ↦ ground (arith, e, f, l, latest-Chain p (suc r.id) hi rs y t f)
]

latest-cons :
    (p : Row → Bool) (r x : Row) (rs : List Row)
    → latest p (r ∷ rs) ≡ some x
    → ((latest p rs ≡ some x) ⊎ ((p r ≡ true) × (r ≡ x)))
unfolding latest
latest-cons p r x rs e = ground (arith, e)

pub keep-remove_row :
    (p q : Row → Bool) (lo hi : ℕ) (rs : List Row) (x : Row)
    → ((r : Row) → p r ≡ true → q r ≡ false)
    → Chain lo hi rs
    → latest p rs ≡ some x
    → keep q (remove_row x.id rs) ≡ keep q rs
unfolding remove_row
keep-remove_row p q lo hi [] x d t e = refl
keep-remove_row p q lo hi (r ∷ rs) x d (l, t) e = elim (latest-cons p r x rs e) [
  | inl f ↦
      ground
        (arith, latest-Chain p (suc r.id) hi rs x t f, keep-remove_row p q (suc r.id) hi rs x d t f)
  | inr (b, f) ↦
      subst (λ y. keep q (remove_row y.id (r ∷ rs)) ≡ keep q (r ∷ rs)) f
        (ground (arith, d r b, remove_row-below r.id (suc r.id) hi rs (omega arith) t))
]
