-- ===== src/Whiteboard/Others.antt =====
-- What taking strokes back does to the strokes of everyone: nexus_server/whiteboard.go.
use phazechat_world.Prelude.{
  ℕ, suc, ◌-◌, ◌≤◌, ◌<◌, ◌≡◌, refl, subst, ◌≢◌, inl, inr, Bool, true, false, not, Option, none,
  some, List, [], ◌∷◌, ◌++◌, arith, eq_iff, eq_refl, String, keep, eqb, Option-cases,
}
use phazechat_world.Spaces.{Spaces}
use phazechat_world.Whiteboard.{
  WbStroke, Row, Board, max_whiteboard_strokes, on_channel, count_rows, trim, append_stroke,
  relay_stroke, wb_stroke, wb_undo, wb_clear, remove_row, undo_stroke, uid_of, undo_last_stroke,
  take_back, clear_whiteboard, clear_as, latest, is_stroke, by_author, validate_stroke_with_uid,
  board_space,
}
use phazechat_world.Whiteboard.Capped.{
  Request, draws, undoes, clears, serve, serve_all, board_after,
}
use phazechat_world.Whiteboard.Undo.{
  Chain, Chain-keep, Chain-drop_oldest, Chain-append, remove_row-last, latest-append,
  keep-remove_row,
}

-- The ids of a board's rows ascend, below the id that is given out next.
unfoldable pub IsNumbered : Board → Type 0
IsNumbered b = Chain 0 b.next_id b.rows

-- The rows of everyone but one author on one channel.
abbrev pub others : String → String → Board → List Row
others c author b = keep (λ r. not (by_author c author r)) b.rows

undo-others :
    (c author uid : String) (b : Board)
    → IsNumbered b
    → others c author (board_after b (undo_stroke c author uid b)) ≡ others c author b
unfolding IsNumbered undo_stroke is_stroke
undo-others c author uid b t = elim (Option-cases (latest (is_stroke c author uid) b.rows)) [
  | inl e ↦ ground (arith, e)
  | inr (r, e) ↦ ground (
    arith,
    e,
    keep-remove_row (is_stroke c author uid) (λ r. not (by_author c author r)) 0 b.next_id b.rows r
        (λ q h. ground (arith, h)) t e,
  )
]

take_back-others :
    (c author uid : String) (b : Board)
    → IsNumbered b
    → others c author (board_after b (take_back c author uid b)) ≡ others c author b
unfolding take_back undo_last_stroke
take_back-others c author uid b t = elim (Option-cases (latest (by_author c author) b.rows)) [
  | inl e ↦ ground (arith, e, undo-others c author uid b t)
  | inr (r, e) ↦
      ground (arith, e, undo-others c author uid b t, undo-others c author r.stroke_uid b t)
]

undo-IsNumbered :
    (c author uid : String) (b : Board)
    → IsNumbered b
    → IsNumbered (board_after b (undo_stroke c author uid b))
unfolding IsNumbered undo_stroke remove_row
undo-IsNumbered c author uid b t = elim (Option-cases (latest (is_stroke c author uid) b.rows)) [
  | inl e ↦ ground (arith, e)
  | inr (r, e) ↦ ground (arith, e, Chain-keep (λ q. not (eqb q.id r.id)) 0 b.next_id b.rows t)
]

take_back-IsNumbered :
    (c author uid : String) (b : Board)
    → IsNumbered b
    → IsNumbered (board_after b (take_back c author uid b))
unfolding take_back undo_last_stroke
take_back-IsNumbered c author uid b t = elim (Option-cases (latest (by_author c author) b.rows)) [
  | inl e ↦ ground (arith, e, undo-IsNumbered c author uid b t)
  | inr (r, e) ↦
      ground (arith, e, undo-IsNumbered c author uid b t, undo-IsNumbered c author r.stroke_uid b t)
]

Chain-trim : (c : String) (hi : ℕ) (rows : List Row) → Chain 0 hi rows → Chain 0 hi (trim c rows)
unfolding trim
Chain-trim c hi rows t =
    ground (arith, Chain-drop_oldest c (count_rows c rows - max_whiteboard_strokes) 0 hi rows t)

blank-IsNumbered : IsNumbered (record { rows = []; next_id = 1 })
unfolding IsNumbered
blank-IsNumbered = omega arith

count-append :
    (c : String) (rows : List Row) (r : Row)
    → count_rows c (rows ++ r ∷ []) ≤ suc (count_rows c rows)
unfolding count_rows
count-append c [] r = ground arith
count-append c (q ∷ rows) r = ground (arith, count-append c rows r)

-- The board once a stroke was stored, where it was.
abbrev board_drawn : Board → Option (ℕ × Board) → Board
board_drawn b none = b
board_drawn b (some (id, b')) = b'

module _ (decode : String → Option WbStroke) (encode : WbStroke → Option String) where
  -- The row of a stroke.
  abbrev pub drawn_row : String → String → String → Board → Row
  drawn_row c author stroke b = record {
    id = b.next_id;
    channel_id = c;
    author = author;
    stroke_uid = uid_of decode encode stroke;
    stroke = stroke;
  }

module _ (decode : String → Option WbStroke) (encode : WbStroke → Option String)
    (spaces : Spaces) where
  append-IsNumbered :
      (stored : Bool) (c author stroke : String) (b : Board)
      → IsNumbered b
      → IsNumbered (board_drawn b (append_stroke decode encode stored c author stroke b))
  unfolding IsNumbered append_stroke
  append-IsNumbered false c author stroke b t = t
  append-IsNumbered true c author stroke b t =
      subst (λ k. Chain 0 k (trim c (b.rows ++ drawn_row decode encode c author stroke b ∷ [])))
        (omega arith)
        (Chain-trim c (suc b.next_id) (b.rows ++ drawn_row decode encode c author stroke b ∷ [])
          (Chain-append 0 b.next_id b.rows (drawn_row decode encode c author stroke b) refl t))

  relay-IsNumbered :
      (stored : Bool) (server username c clean : String) (b : Board)
      → IsNumbered b
      → IsNumbered (relay_stroke decode encode stored server username c clean b).0
  unfolding relay_stroke
  relay-IsNumbered stored server username c clean b t =
      elim (Option-cases (append_stroke decode encode stored c username clean b)) [
        | inl e ↦ rw (relay_stroke, e) t
        | inr ((id, b'), e) ↦ ground (arith, e, append-IsNumbered stored c username clean b t)
      ]

  wb_stroke-IsNumbered :
      (stored : Bool) (username c stroke : String) (b : Board)
      → IsNumbered b
      → IsNumbered (wb_stroke decode encode spaces stored username c stroke b).0
  unfolding wb_stroke
  wb_stroke-IsNumbered stored username c stroke b t =
      elim (Option-cases (validate_stroke_with_uid decode encode stroke)) [
        | inl e ↦ ground (arith, e)
        | inr (v, e) ↦ elim (Option-cases (board_space spaces username c)) [
          | inl f ↦ ground (arith, e, f)
          | inr (server, f) ↦
              ground (arith, e, f, relay-IsNumbered stored server username c v.1 b t)
        ]
      ]

  wb_undo-IsNumbered :
      (username c uid : String) (b : Board)
      → IsNumbered b
      → IsNumbered (wb_undo decode encode spaces username c uid b).0
  unfolding wb_undo
  wb_undo-IsNumbered username c uid b t = elim (Option-cases (take_back c username uid b)) [
    | inl e ↦ ground (arith, e)
    | inr ((r, b'), e) ↦ ground (arith, e, take_back-IsNumbered c username uid b t)
  ]

  wb_clear-IsNumbered :
      (username c : String) (b : Board) → IsNumbered b → IsNumbered (wb_clear spaces username c b).0
  unfolding wb_clear clear_as clear_whiteboard IsNumbered
  wb_clear-IsNumbered username c b t =
      ground (arith, Chain-keep (λ r. not (on_channel c r)) 0 b.next_id b.rows t)

  serve_all-IsNumbered :
      (rs : List Request) (b : Board)
      → IsNumbered b
      → IsNumbered (serve_all decode encode spaces rs b)
  unfolding serve_all serve
  serve_all-IsNumbered [] b t = t
  serve_all-IsNumbered (draws stored username c stroke ∷ rs) b t =
      serve_all-IsNumbered rs (wb_stroke decode encode spaces stored username c stroke b).0
        (wb_stroke-IsNumbered stored username c stroke b t)
  serve_all-IsNumbered (undoes username c uid ∷ rs) b t =
      serve_all-IsNumbered rs (wb_undo decode encode spaces username c uid b).0
        (wb_undo-IsNumbered username c uid b t)
  serve_all-IsNumbered (clears username c ∷ rs) b t =
      serve_all-IsNumbered rs (wb_clear spaces username c b).0 (wb_clear-IsNumbered username c b t)

  own_row :
      (c author stroke : String) (b : Board)
      → is_stroke c author (uid_of decode encode stroke) (drawn_row decode encode c author stroke b)
        ≡ true
  unfolding is_stroke by_author
  own_row c author stroke b = rw (eq_refl c, eq_refl author, eq_refl (uid_of decode encode stroke))

  wb_undo-others :
      (username c uid : String) (b : Board)
      → IsNumbered b
      → others c username (wb_undo decode encode spaces username c uid b).0 ≡ others c username b
  unfolding wb_undo
  wb_undo-others username c uid b t = elim (Option-cases (take_back c username uid b)) [
    | inl e ↦ ground (arith, e)
    | inr ((r, b'), e) ↦ ground (arith, e, take_back-others c username uid b t)
  ]

  -- Started with no strokes and after any strokes, undos and clears: an undo leaves every stroke
  -- of every other user, and the user's own on all other channels, in place and in order, whatever
  -- stroke it names and whether or not it finds one.
  pub wb_undo-serve_all :
      (rs : List Request) (username c uid : String)
      → (let b = serve_all decode encode spaces rs (record { rows = []; next_id = 1 }) in
          others c username (wb_undo decode encode spaces username c uid b).0 ≡ others c username b)
  wb_undo-serve_all rs username c uid =
      wb_undo-others username c uid
        (serve_all decode encode spaces rs (record { rows = []; next_id = 1 }))
        (serve_all-IsNumbered rs (record { rows = []; next_id = 1 }) blank-IsNumbered)

  undo-append :
      (c author stroke : String) (b b' : Board) (id : ℕ)
      → IsNumbered b
      → count_rows c b.rows < max_whiteboard_strokes
      → uid_of decode encode stroke ≢ ""
      → append_stroke decode encode true c author stroke b ≡ some (id, b')
      → undo_stroke c author (uid_of decode encode stroke) b'
        ≡ some (drawn_row decode encode c author stroke b, record b' { rows = b.rows })
  unfolding IsNumbered append_stroke undo_stroke trim
  undo-append c author stroke b b' id t h u e =
      let r = drawn_row decode encode c author stroke b in
      ground (
        arith,
        e,
        h,
        u,
        eq_iff (uid_of decode encode stroke) "",
        count-append c b.rows r,
        latest-append (is_stroke c author (uid_of decode encode stroke)) b.rows r
            (own_row c author stroke b),
        remove_row-last 0 b.next_id b.rows r refl t,
      )

  -- Started with no strokes and after any strokes, undos and clears: a stroke that is stored under
  -- an id of its own, on a board that has not reached the cap, is what its author's undo of that id
  -- gives back, and the table is then as it was.
  pub undo_stroke-append_stroke :
      (rs : List Request) (c author stroke : String) (b b' : Board) (id : ℕ)
      → serve_all decode encode spaces rs (record { rows = []; next_id = 1 }) ≡ b
      → count_rows c b.rows < max_whiteboard_strokes
      → uid_of decode encode stroke ≢ ""
      → append_stroke decode encode true c author stroke b ≡ some (id, b')
      → undo_stroke c author (uid_of decode encode stroke) b'
        ≡ some (drawn_row decode encode c author stroke b, record b' { rows = b.rows })
  undo_stroke-append_stroke rs c author stroke b b' id f = undo-append c author stroke b b' id (
      subst IsNumbered f
        (serve_all-IsNumbered rs (record { rows = []; next_id = 1 }) blank-IsNumbered))
