-- ===== src/Whiteboard.antt =====
-- nexus_server/whiteboard.go and the whiteboard messages of nexus_server/ws_handlers.go. The rows
-- of `whiteboard_strokes` stand in the order of their ids, oldest first. JSON is a parameter:
-- `decode` and `encode` stand for `json.Unmarshal` into a stroke and `json.Marshal` of it.
pub mod Limits
pub mod Capped
pub mod Undo
pub mod Others
use phazechat_world.Prelude.{
  ℕ, zero, suc, ◌+◌, ◌-◌, ◌*◌, ◌/◌, ◌%◌, ◌≤◌, ◌<◌, min, max, ◌≡◌, refl, sym, ap, subst, ◌∙◌, ◌≢◌,
  ◌↔◌, ◌⊎◌, inl, inr, Bool, true, false, not, ◌&&◌, ◌||◌, Option, none, some, List, [], ◌∷◌, ◌++◌,
  map, arith, eq_iff, eq_refl, String, Map, lookup, insert, delete, retain, guarded, lookup-insert,
  lookup-delete, lookup-retain, modify, update_all, apply, lookup-modify, lookup-update_all,
  map_laws, length, keep, any, All, length-append, length-keep-le, ltb, leb, eqb, ◌==◌,
  if◌then◌else◌, Bool-cases, Option-cases, trim_space, has, without, including, has-without,
  has-including, is_empty, starts_with,
}
use mathlib.Core.Option
use Prim.Native.Char.{code}
use Prim.Native.String.{len}
use phazechat_world.Spaces.{Channel, Spaces, is_server_member, user_server_role}

-- A stroke as `json.Unmarshal` gives it. The width stands in hundredths, rounded up, so that it is
-- positive exactly when it was, and over 20000 exactly when it was over 200.
pub record WbStroke : Type 0 where
  pub id : String
  pub tool : String
  pub color : String
  pub width : ℕ
  pub points : ℕ

-- A row of `whiteboard_strokes`.
pub record Row : Type 0 where
  pub id : ℕ
  pub channel_id : String
  pub author : String
  pub stroke_uid : String
  pub stroke : String

pub record Board : Type 0 where
  pub rows : List Row
  pub next_id : ℕ

abbrev pub max_whiteboard_strokes : ℕ
max_whiteboard_strokes = 4000

abbrev pub max_stroke_bytes : ℕ
max_stroke_bytes = 64 * 1024

unfoldable pub valid_whiteboard_tools : String → Bool
valid_whiteboard_tools tool = tool == "pen" || tool == "highlighter" || tool == "eraser"

unfoldable pub contains_char : ℕ → String → Bool
contains_char c String.[] = false
contains_char c (String.◌∷◌ d s) = eqb c (code d) || contains_char c s

-- `strings.ContainsAny`
unfoldable pub contains_any : String → String → Bool
unfolding contains_char
contains_any String.[] chars = false
contains_any (String.◌∷◌ c s) chars = contains_char (code c) chars || contains_any s chars

unfoldable pub valid_stroke : WbStroke → Bool
unfolding valid_whiteboard_tools contains_any
valid_stroke st =
    if not (valid_whiteboard_tools st.tool)
    then false
    else if eqb st.points 0 || ltb 4000 st.points
    then false
    else if eqb st.width 0 || ltb 20000 st.width
    then false
    else if st.id == "" || ltb 128 (len st.id)
    then false
    else not (ltb 32 (len st.color) || contains_any st.color ";:{}()<>\"'\\")

-- The strokes of a channel, oldest first.
unfoldable pub on_channel : String → Row → Bool
on_channel channel_id r = r.channel_id == channel_id

unfoldable pub count_rows : String → List Row → ℕ
unfolding on_channel
count_rows channel_id rows = length (keep (on_channel channel_id) rows)

-- The rows without the oldest `n` of a channel: `… AND id NOT IN (… ORDER BY id DESC LIMIT ?)`.
unfoldable pub drop_oldest : String → ℕ → List Row → List Row
unfolding on_channel
drop_oldest channel_id n [] = []
drop_oldest channel_id n (r ∷ rs) =
    if on_channel channel_id r && ltb 0 n
    then drop_oldest channel_id (n - 1) rs
    else r ∷ drop_oldest channel_id n rs

-- `… ORDER BY id ASC`
unfoldable pub whiteboard_state : String → Board → List String
unfolding on_channel
whiteboard_state channel_id b = map (λ r. r.stroke) (keep (on_channel channel_id) b.rows)

unfoldable pub clear_whiteboard : String → Board → Board
unfolding on_channel
clear_whiteboard channel_id b = record b { rows = keep (λ r. not (on_channel channel_id r)) b.rows }

unfoldable pub remove_row : ℕ → List Row → List Row
remove_row id rows = keep (λ r. not (eqb r.id id)) rows

-- `… ORDER BY id DESC LIMIT 1`
unfoldable pub latest : (Row → Bool) → List Row → Option Row
latest p [] = none
latest p (r ∷ rs) = elim (latest p rs) [ none ↦ if p r then some r else none | some q ↦ some q ]

unfoldable pub by_author : String → String → Row → Bool
by_author channel_id author r = r.channel_id == channel_id && r.author == author

unfoldable pub is_stroke : String → String → String → Row → Bool
unfolding by_author
is_stroke channel_id author uid r = by_author channel_id author r && r.stroke_uid == uid

-- The row that was taken back and the board without it.
unfoldable pub undo_stroke : String → String → String → Board → Option (Row × Board)
unfolding is_stroke latest remove_row
undo_stroke channel_id author uid b =
    if uid == "" then none else elim (latest (is_stroke channel_id author uid) b.rows) [
      | none ↦ none
      | some r ↦ some (r, record b { rows = remove_row r.id b.rows })
    ]

unfoldable pub undo_last_stroke : String → String → Board → Option (Row × Board)
unfolding by_author latest undo_stroke
undo_last_stroke channel_id author b = elim (latest (by_author channel_id author) b.rows) [
  | none ↦ none
  | some r ↦ undo_stroke channel_id author r.stroke_uid b
]

unfoldable pub take_back : String → String → String → Board → Option (Row × Board)
unfolding undo_stroke undo_last_stroke
take_back channel_id username uid b =
    if not (uid == "")
    then undo_stroke channel_id username uid b
    else undo_last_stroke channel_id username b

-- The table once a row was added: the oldest rows of the channel go where there are too many.
unfoldable pub trim : String → List Row → List Row
unfolding count_rows drop_oldest
trim channel_id rows =
    if ltb max_whiteboard_strokes (count_rows channel_id rows)
    then drop_oldest channel_id (count_rows channel_id rows - max_whiteboard_strokes) rows
    else rows

-- What is sent: to the connection that asked, or to everyone in a space.
pub data Event : Type 0 where
  wb_state : String → List String → Event
  wb_no_board : Event
  wb_error : String → String → Event
  wb_stroke_added : String → String → String → String → ℕ → Event
  wb_undone : String → String → String → ℕ → String → Event
  wb_cleared : String → String → String → Event

-- The space of a channel, where it is a whiteboard.
unfoldable pub channel_is_whiteboard : String → Spaces → Option String
channel_is_whiteboard channel_id spaces = elim (lookup channel_id spaces.channels) [
  | none ↦ none
  | some c ↦ if c.kind == "whiteboard" then some c.server_id else none
]

-- The space of a channel that is a whiteboard and whose space the user is in.
unfoldable pub board_space : Spaces → String → String → Option String
unfolding channel_is_whiteboard
board_space spaces username channel_id = elim (channel_is_whiteboard channel_id spaces) [
  | none ↦ none
  | some server_id ↦ if is_server_member server_id username spaces then some server_id else none
]

unfoldable pub wb_join : Spaces → String → String → Board → List Event
unfolding board_space whiteboard_state
wb_join spaces username channel_id b =
    if username == "" || channel_id == ""
    then []
    else elim (board_space spaces username channel_id) [
      | none ↦ wb_no_board ∷ []
      | some server_id ↦ wb_state channel_id (whiteboard_state channel_id b) ∷ []
    ]

unfoldable pub clear_as : String → String → String → String → Board → Board × List Event
unfolding clear_whiteboard
clear_as role server_id username channel_id b =
    if not (role == "owner") && not (role == "admin")
    then (b, wb_error channel_id "only space admins can clear the board" ∷ [])
    else (clear_whiteboard channel_id b, wb_cleared server_id username channel_id ∷ [])

unfoldable pub wb_clear : Spaces → String → String → Board → Board × List Event
unfolding board_space clear_as
wb_clear spaces username channel_id b =
    if username == "" || channel_id == ""
    then (b, [])
    else elim (board_space spaces username channel_id) [
      | none ↦ (b, [])
      | some server_id ↦
          clear_as (user_server_role server_id username spaces) server_id username channel_id b
    ]

-- `validateStrokeWithUID` and what it is used by, over the JSON codec.
module _ (decode : String → Option WbStroke) (encode : WbStroke → Option String) where
  unfoldable pub validate_stroke_with_uid : String → Option (String × String)
  unfolding valid_stroke
  validate_stroke_with_uid raw =
      if ltb max_stroke_bytes (len raw) then none else elim (decode raw) [
        | none ↦ none
        | some st ↦
            if valid_stroke st then Option.map (λ clean. (st.id, clean)) (encode st) else none
      ]

  unfoldable pub uid_of : String → String
  unfolding validate_stroke_with_uid
  uid_of raw = elim (validate_stroke_with_uid raw) [ none ↦ "" | some v ↦ v.0 ]

  -- `stored` says whether the insert succeeds.
  unfoldable pub append_stroke : Bool → String → String → String → Board → Option (ℕ × Board)
  unfolding uid_of trim
  append_stroke false channel_id author stroke b = none
  append_stroke true channel_id author stroke b = some (
    b.next_id,
    record {
      rows = trim channel_id (
          b.rows
          ++ record {
            id = b.next_id;
            channel_id = channel_id;
            author = author;
            stroke_uid = uid_of stroke;
            stroke = stroke;
          }
            ∷ []);
      next_id = b.next_id + 1;
    },
  )

  unfoldable pub relay_stroke :
      Bool → String → String → String → String → Board → Board × List Event
  unfolding append_stroke
  relay_stroke stored server_id username channel_id clean b =
      elim (append_stroke stored channel_id username clean b) [
        | none ↦ (b, [])
        | some (id, b') ↦ (b', wb_stroke_added server_id username channel_id clean id ∷ [])
      ]

  unfoldable pub wb_stroke : Spaces → Bool → String → String → String → Board → Board × List Event
  unfolding board_space validate_stroke_with_uid relay_stroke
  wb_stroke spaces stored username channel_id stroke b =
      if username == "" || channel_id == "" || stroke == ""
      then (b, [])
      else elim (board_space spaces username channel_id) [
        | none ↦ (b, [])
        | some server_id ↦ elim (validate_stroke_with_uid stroke) [
          | none ↦ (b, wb_error channel_id "malformed stroke" ∷ [])
          | some v ↦ relay_stroke stored server_id username channel_id v.1 b
        ]
      ]

  unfoldable pub wb_undo : Spaces → String → String → String → Board → Board × List Event
  unfolding board_space uid_of take_back
  wb_undo spaces username channel_id uid b =
      if username == "" || channel_id == ""
      then (b, [])
      else elim (board_space spaces username channel_id) [
        | none ↦ (b, [])
        | some server_id ↦ elim (take_back channel_id username uid b) [
          | none ↦ (b, [])
          | some (r, b') ↦ (b', wb_undone server_id username channel_id r.id (uid_of r.stroke) ∷ [])
        ]
      ]
