-- ===== src/Whiteboard/Limits.antt =====
-- The cap on a board of nexus_server/whiteboard.go.
use phazechat_world.Prelude.{
  ℕ, ◌+◌, ◌-◌, ◌≡◌, refl, Bool, true, false, ◌&&◌, Option, none, some, List, [], ◌∷◌, ◌++◌, map,
  arith, eq_iff, String, length, keep, length-append, ltb, ◌==◌, if◌then◌else◌,
}
use phazechat_world.Whiteboard.{
  WbStroke, Row, Board, max_whiteboard_strokes, on_channel, count_rows, drop_oldest, trim,
  whiteboard_state, append_stroke, uid_of,
}

-- A list without its first `n` entries.
abbrev pub skip : ℕ → List String → List String
skip n [] = []
skip n (x ∷ xs) = if ltb 0 n then skip (n - 1) xs else x ∷ xs

pub length-skip : (n : ℕ) (xs : List String) → length (skip n xs) ≡ length xs - n
length-skip n [] = omega arith
length-skip n (x ∷ xs) = ground (arith, length-skip (n - 1) xs)

skip-zero : (xs : List String) → skip 0 xs ≡ xs
skip-zero [] = refl
skip-zero (x ∷ xs) = refl

-- The strokes of a channel in a table.
unfoldable pub strokes : String → List Row → List String
strokes c rows = map (λ r. r.stroke) (keep (on_channel c) rows)

length-strokes : (c : String) (rows : List Row) → length (strokes c rows) ≡ count_rows c rows
unfolding strokes count_rows
length-strokes c [] = refl
length-strokes c (r ∷ rs) = ground (arith, length-strokes c rs)

strokes-cons :
    (c : String) (r : Row) (rows : List Row)
    → strokes c (r ∷ rows)
      ≡ (if r.channel_id == c then r.stroke ∷ strokes c rows else strokes c rows)
unfolding strokes on_channel
strokes-cons c r rows = ground arith

strokes-append :
    (c : String) (rows : List Row) (r : Row)
    → strokes c (rows ++ r ∷ [])
      ≡ (if r.channel_id == c then strokes c rows ++ r.stroke ∷ [] else strokes c rows)
unfolding strokes on_channel
strokes-append c [] r = ground arith
strokes-append c (q ∷ rows) r = ground (arith, strokes-append c rows r)

strokes-drop_oldest :
    (c d : String) (n : ℕ) (rows : List Row)
    → strokes d (drop_oldest c n rows)
      ≡ (if c == d then skip n (strokes d rows) else strokes d rows)
unfolding drop_oldest on_channel
strokes-drop_oldest c d n [] = unfold strokes in ground arith
strokes-drop_oldest c d n (r ∷ rs) = ground (
  arith,
  strokes-cons d r rs,
  strokes-cons d r (drop_oldest c n rs),
  eq_iff c d,
  eq_iff r.channel_id c,
  eq_iff r.channel_id d,
  strokes-drop_oldest c d n rs,
  skip-zero (strokes d rs),
  strokes-drop_oldest c d (n - 1) rs,
)

strokes-trim :
    (c d : String) (rows : List Row)
    → strokes d (trim c rows) ≡ (
        if c == d
        then skip (length (strokes d rows) - max_whiteboard_strokes) (strokes d rows)
        else strokes d rows)
unfolding trim
strokes-trim c d rows = ground (
  arith,
  eq_iff c d,
  length-strokes c rows,
  skip-zero (strokes d rows),
  strokes-drop_oldest c d (count_rows c rows - max_whiteboard_strokes) rows,
)

strokes-push :
    (c d : String) (rows : List Row) (r : Row)
    → r.channel_id ≡ c
    → strokes d (trim c (rows ++ r ∷ [])) ≡ (
        if c == d
        then skip
            (length (strokes d rows) + 1 - max_whiteboard_strokes)
            (strokes d rows ++ r.stroke ∷ [])
        else strokes d rows)
strokes-push c d rows r e = ground (
  arith,
  eq_iff c d,
  eq_iff r.channel_id d,
  strokes-trim c d (rows ++ r ∷ []),
  strokes-append d rows r,
  length-append (strokes d rows) (r.stroke ∷ []),
)

-- The board as a joiner gets it, where there was one or none.
abbrev pub state_after : String → Board → Option (ℕ × Board) → List String
state_after c b none = whiteboard_state c b
state_after c b (some (id, b')) = whiteboard_state c b'

module _ (decode : String → Option WbStroke) (encode : WbStroke → Option String) where
  unfoldable added : String → String → String → Board → Row
  added c author stroke b = record {
    id = b.next_id;
    channel_id = c;
    author = author;
    stroke_uid = uid_of decode encode stroke;
    stroke = stroke;
  }

  -- What a joiner is shown once a stroke was stored: on the stroke's own channel the strokes from
  -- before and then the new one, or only the last 4000 of these if there are more, in their order;
  -- on any other channel what was shown before. A stroke that is not stored changes nothing.
  pub whiteboard_state-append_stroke :
      (stored : Bool) (c d author stroke : String) (b : Board)
      → state_after d b (append_stroke decode encode stored c author stroke b) ≡ (
          if stored && c == d
          then skip
              (length (whiteboard_state d b) + 1 - max_whiteboard_strokes)
              (whiteboard_state d b ++ stroke ∷ [])
          else whiteboard_state d b)
  unfolding append_stroke whiteboard_state added strokes
  whiteboard_state-append_stroke false c d author stroke b = refl
  whiteboard_state-append_stroke true c d author stroke b =
      strokes-push c d b.rows (added c author stroke b) refl
