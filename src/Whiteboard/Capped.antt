-- ===== src/Whiteboard/Capped.antt =====
-- Every run of the whiteboard messages of nexus_server/ws_handlers.go keeps the boards capped.
use phazechat_world.Prelude.{
  ℕ, ◌+◌, ◌-◌, ◌≤◌, ◌≡◌, inl, inr, Bool, not, Option, none, some, List, [], ◌∷◌, ◌++◌, arith,
  String, length, keep, length-append, Option-cases,
}
use phazechat_world.Spaces.{Spaces}
use phazechat_world.Whiteboard.{
  WbStroke, Row, Board, max_whiteboard_strokes, on_channel, whiteboard_state, append_stroke,
  relay_stroke, wb_stroke, wb_undo, wb_clear, remove_row, undo_stroke, undo_last_stroke, take_back,
  clear_whiteboard, clear_as, latest, is_stroke, by_author, validate_stroke_with_uid, board_space,
}
use phazechat_world.Whiteboard.Limits.{strokes, length-skip, whiteboard_state-append_stroke}

-- At most 4000 strokes on every board.
unfoldable pub IsCapped : Board → Type 0
IsCapped b = (c : String) → length (whiteboard_state c b) ≤ max_whiteboard_strokes

count-remove_row :
    (c : String) (id : ℕ) (rows : List Row)
    → length (strokes c (remove_row id rows)) ≤ length (strokes c rows)
unfolding strokes remove_row
count-remove_row c id [] = omega arith
count-remove_row c id (r ∷ rs) = ground (arith, count-remove_row c id rs)

count-cleared :
    (c d : String) (rows : List Row)
    → length (strokes d (keep (λ r. not (on_channel c r)) rows)) ≤ length (strokes d rows)
unfolding strokes
count-cleared c d [] = omega arith
count-cleared c d (r ∷ rs) = ground (arith, count-cleared c d rs)

count-clear :
    (c d : String) (b : Board)
    → length (whiteboard_state d (clear_whiteboard c b)) ≤ length (whiteboard_state d b)
unfolding whiteboard_state clear_whiteboard strokes
count-clear c d b = count-cleared c d b.rows

append-IsCapped :
    (decode : String → Option WbStroke) (encode : WbStroke → Option String) (stored : Bool)
    (c author stroke : String) (b b' : Board) (id : ℕ)
    → append_stroke decode encode stored c author stroke b ≡ some (id, b')
    → IsCapped b
    → IsCapped b'
unfolding IsCapped
append-IsCapped decode encode stored c author stroke b b' id e t d = ground (
  arith,
  e,
  t d,
  whiteboard_state-append_stroke decode encode stored c d author stroke b,
  length-append (whiteboard_state d b) (stroke ∷ []),
  length-skip (length (whiteboard_state d b) + 1 - max_whiteboard_strokes)
      (whiteboard_state d b ++ stroke ∷ []),
)

relay-IsCapped :
    (decode : String → Option WbStroke) (encode : WbStroke → Option String) (stored : Bool)
    (server username c clean : String) (b : Board)
    → IsCapped b
    → IsCapped (relay_stroke decode encode stored server username c clean b).0
unfolding relay_stroke
relay-IsCapped decode encode stored server username c clean b t =
    elim (Option-cases (append_stroke decode encode stored c username clean b)) [
      | inl e ↦ rw (relay_stroke, e) t
      | inr ((id, b'), e) ↦
          rw (relay_stroke, e) (append-IsCapped decode encode stored c username clean b b' id e t)
    ]

wb_stroke-IsCapped :
    (decode : String → Option WbStroke) (encode : WbStroke → Option String) (spaces : Spaces)
    (stored : Bool) (username c stroke : String) (b : Board)
    → IsCapped b
    → IsCapped (wb_stroke decode encode spaces stored username c stroke b).0
unfolding wb_stroke
wb_stroke-IsCapped decode encode spaces stored username c stroke b t =
    elim (Option-cases (validate_stroke_with_uid decode encode stroke)) [
      | inl e ↦ ground (arith, e)
      | inr (v, e) ↦ elim (Option-cases (board_space spaces username c)) [
        | inl f ↦ ground (arith, e, f)
        | inr (server, f) ↦
            ground (arith, e, f, relay-IsCapped decode encode stored server username c v.1 b t)
      ]
    ]

-- The board once a stroke was taken back, where there was one.
abbrev pub board_after : Board → Option (Row × Board) → Board
board_after b none = b
board_after b (some (r, b')) = b'

undo-IsCapped :
    (c author uid : String) (b : Board)
    → IsCapped b
    → IsCapped (board_after b (undo_stroke c author uid b))
unfolding undo_stroke IsCapped whiteboard_state strokes
undo-IsCapped c author uid b t d = elim (Option-cases (latest (is_stroke c author uid) b.rows)) [
  | inl e ↦ ground (arith, e, t d)
  | inr (r, e) ↦ ground (arith, e, t d, count-remove_row d r.id b.rows)
]

take_back-IsCapped :
    (c author uid : String) (b : Board)
    → IsCapped b
    → IsCapped (board_after b (take_back c author uid b))
unfolding take_back undo_last_stroke
take_back-IsCapped c author uid b t = elim (Option-cases (latest (by_author c author) b.rows)) [
  | inl e ↦ ground (arith, e, undo-IsCapped c author uid b t)
  | inr (r, e) ↦
      ground (arith, e, undo-IsCapped c author uid b t, undo-IsCapped c author r.stroke_uid b t)
]

-- The messages that change a board; the arguments are those of the handlers.
pub data Request : Type 0 where
  draws : Bool → String → String → String → Request
  undoes : String → String → String → Request
  clears : String → String → Request

module _ (decode : String → Option WbStroke) (encode : WbStroke → Option String)
    (spaces : Spaces) where
  unfoldable pub serve : Request → Board → Board
  serve (draws stored username c stroke) b =
      (wb_stroke decode encode spaces stored username c stroke b).0
  serve (undoes username c uid) b = (wb_undo decode encode spaces username c uid b).0
  serve (clears username c) b = (wb_clear spaces username c b).0

  unfoldable pub serve_all : List Request → Board → Board
  serve_all [] b = b
  serve_all (r ∷ rs) b = serve_all rs (serve r b)

  wb_undo-IsCapped :
      (username c uid : String) (b : Board)
      → IsCapped b
      → IsCapped (wb_undo decode encode spaces username c uid b).0
  unfolding wb_undo
  wb_undo-IsCapped username c uid b t = elim (Option-cases (take_back c username uid b)) [
    | inl e ↦ ground (arith, e)
    | inr ((r, b'), e) ↦ ground (arith, e, take_back-IsCapped c username uid b t)
  ]

  clear-IsCapped : (c : String) (b : Board) → IsCapped b → IsCapped (clear_whiteboard c b)
  unfolding IsCapped
  clear-IsCapped c b t d = omega (arith, t d, count-clear c d b)

  wb_clear-IsCapped :
      (username c : String) (b : Board) → IsCapped b → IsCapped (wb_clear spaces username c b).0
  unfolding wb_clear clear_as
  wb_clear-IsCapped username c b t = ground (arith, clear-IsCapped c b t)

  serve-IsCapped : (r : Request) (b : Board) → IsCapped b → IsCapped (serve r b)
  unfolding serve
  serve-IsCapped (draws stored username c stroke) b t =
      wb_stroke-IsCapped decode encode spaces stored username c stroke b t
  serve-IsCapped (undoes username c uid) b t = wb_undo-IsCapped username c uid b t
  serve-IsCapped (clears username c) b t = wb_clear-IsCapped username c b t

  serve_all-IsCapped : (rs : List Request) (b : Board) → IsCapped b → IsCapped (serve_all rs b)
  unfolding serve_all
  serve_all-IsCapped [] b t = t
  serve_all-IsCapped (r ∷ rs) b t = serve_all-IsCapped rs (serve r b) (serve-IsCapped r b t)

  -- Started with no strokes, whatever strokes, undos and clears follow, from whomever and on
  -- whatever channels, no board is ever shown with more than 4000 strokes.
  pub whiteboard_state-serve_all :
      (rs : List Request) (c : String) (next_id : ℕ)
      → length (whiteboard_state c (serve_all rs (record { rows = []; next_id = next_id }))) ≤ 4000
  unfolding IsCapped whiteboard_state
  whiteboard_state-serve_all rs c next_id =
      serve_all-IsCapped rs (record { rows = []; next_id = next_id }) (λ _. omega arith) c
