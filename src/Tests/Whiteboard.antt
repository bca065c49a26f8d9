-- ===== src/Tests/Whiteboard.antt =====
-- Whiteboards: nexus_server/whiteboard.go, over a codec of two strokes.
use phazechat_world.Prelude.{
  ◌+◌, ◌-◌, ◌≤◌, ◌≡◌, refl, true, ◌&&◌, Option, some, List, [], ◌∷◌, ◌++◌, arith, String, length,
  ◌==◌, if◌then◌else◌,
}
use phazechat_world.Spaces.{Spaces}
use phazechat_world.Whiteboard.{
  WbStroke, Board, wb_undo, append_stroke, undo_stroke, uid_of, whiteboard_state,
  max_whiteboard_strokes, count_rows, on_channel, trim, validate_stroke_with_uid, valid_stroke,
  valid_whiteboard_tools, contains_any, contains_char,
}
use phazechat_world.Whiteboard.Limits.{skip, state_after, whiteboard_state-append_stroke}
use phazechat_world.Whiteboard.Capped.{Request, draws, serve_all, whiteboard_state-serve_all}
use phazechat_world.Whiteboard.Others.{
  others, drawn_row, wb_undo-serve_all, undo_stroke-append_stroke,
}

abbrev boards : Spaces
boards = record {
  channels = ("board", record { server_id = "s1"; kind = "whiteboard" }) ∷ [];
  members =
      record { server_id = "s1"; username = "alice"; role = "owner" }
      ∷ record { server_id = "s1"; username = "bob"; role = "member" }
      ∷ [];
}

abbrev pen : String → WbStroke
pen id = record { id = id; tool = "pen"; color = "#fff"; width = 200; points = 3 }

abbrev no_strokes : Board
no_strokes = record { rows = []; next_id = 1 }

-- The text of a stroke is its id.
abbrev decode_id : String → Option WbStroke
decode_id raw = some (pen raw)

abbrev encode_id : WbStroke → Option String
encode_id st = some st.id

abbrev meeting : List Request
meeting = draws true "alice" "board" "a1" ∷ draws true "bob" "board" "b1" ∷ []

abbrev drawn : Board
drawn = serve_all decode_id encode_id boards meeting (record { rows = []; next_id = 1 })

whiteboard_state-append_stroke_example :
    state_after "board" drawn (append_stroke decode_id encode_id true "board" "bob" "b2" drawn) ≡ (
      if true && "board" == "board"
      then skip
          (length (whiteboard_state "board" drawn) + 1 - max_whiteboard_strokes)
          (whiteboard_state "board" drawn ++ "b2" ∷ [])
      else whiteboard_state "board" drawn)
whiteboard_state-append_stroke_example =
    whiteboard_state-append_stroke decode_id encode_id true "board" "board" "bob" "b2" drawn

whiteboard_state-serve_all_example :
    length (
      whiteboard_state "board"
        (serve_all decode_id encode_id boards meeting (record { rows = []; next_id = 1 })))
    ≤ 4000
whiteboard_state-serve_all_example =
    whiteboard_state-serve_all decode_id encode_id boards meeting "board" 1

wb_undo-serve_all_example :
    others "board" "alice" (wb_undo decode_id encode_id boards "alice" "board" "a1" drawn).0
    ≡ others "board" "alice" drawn
wb_undo-serve_all_example =
    wb_undo-serve_all decode_id encode_id boards meeting "alice" "board" "a1"

undo_stroke-append_stroke_example :
    undo_stroke "board" "bob" "b1" (record {
      rows = drawn_row decode_id encode_id "board" "bob" "b1" no_strokes ∷ [];
      next_id = 2;
    })
    ≡ some (
      drawn_row decode_id encode_id "board" "bob" "b1" no_strokes,
      record { rows = []; next_id = 2 },
    )
unfolding serve_all append_stroke uid_of count_rows trim validate_stroke_with_uid valid_stroke
    valid_whiteboard_tools contains_any contains_char on_channel
undo_stroke-append_stroke_example =
    undo_stroke-append_stroke decode_id encode_id boards [] "board" "bob" "b1" no_strokes
      (record {
        rows = drawn_row decode_id encode_id "board" "bob" "b1" no_strokes ∷ [];
        next_id = 2;
      })
      1 refl (omega arith) (λ e. cc) refl
