-- ===== src/Convos/Rows.antt =====
-- The members of group conversations, as the functions of nexus_server/main.go change them.
use phazechat_world.Prelude.{
  ◌≡◌, refl, subst, inl, inr, Bool, true, ◌&&◌, ◌||◌, List, [], ◌∷◌, ◌++◌, arith, eq_iff, String,
  keep, any, any-append, ◌==◌, Bool-cases, has,
}
use phazechat_world.Convos.{
  Membership, Convos, Message, is_membership, add_member, add_members, add_unseen,
  conversation_members, fan_out, convo_msg, after_send, store_missed,
}

abbrev pub in_rows : String → String → List Membership → Bool
in_rows id u rows = any (is_membership id u) rows

in_rows-append :
    (id d u v : String) (rows : List Membership)
    → in_rows d v (rows ++ record { convo_id = id; username = u } ∷ [])
      ≡ (in_rows d v rows || (id == d && u == v))
unfolding is_membership
in_rows-append id d u v rows =
    any-append (is_membership d v) rows (record { convo_id = id; username = u })

in_rows-add_member :
    (id d u v : String) (rows : List Membership)
    → in_rows d v (add_member id u rows) ≡ true
    → (in_rows d v rows || (id == d && u == v)) ≡ true
unfolding add_member
in_rows-add_member id d u v rows h = ground (arith, h, in_rows-append id d u v rows)

pub in_rows-add_members :
    (id d v : String) (us : List String) (rows : List Membership)
    → in_rows d v (add_members id us rows) ≡ true
    → (in_rows d v rows || (id == d && has v us)) ≡ true
unfolding add_members has
in_rows-add_members id d v [] rows h = ground (arith, h)
in_rows-add_members id d v (u ∷ us) rows h = ground (
  arith,
  in_rows-add_members id d v us (add_member id u rows) h,
  in_rows-add_member id d u v rows,
)

pub in_rows-add_unseen :
    (id d v : String) (seen us : List String) (rows : List Membership)
    → in_rows d v (add_unseen id seen us rows) ≡ true
    → (in_rows d v rows || (id == d && has v us)) ≡ true
unfolding add_unseen has
in_rows-add_unseen id d v seen [] rows h = ground (arith, h)
in_rows-add_unseen id d v seen (u ∷ us) rows h = elim (Bool-cases (has u seen)) [
  | inl e ↦ ground (arith, e, h, in_rows-add_unseen id d v seen us rows)
  | inr e ↦ ground (
    arith,
    e,
    h,
    in_rows-add_unseen id d v (u ∷ seen) us (add_member id u rows),
    in_rows-add_member id d u v rows,
  )
]

pub has-keep :
    (v : String) (p : String → Bool) (us : List String)
    → has v (keep p us) ≡ true
    → (has v us && p v) ≡ true
unfolding has
has-keep v p [] h = ground (arith, h)
has-keep v p (u ∷ us) h = elim (Bool-cases (u == v)) [
  | inl e ↦ elim (Bool-cases (p u)) [
    | inl k ↦ ground (arith, e, subst (λ w. p w ≡ true) ((eq_iff u v).0 e) k)
    | inr k ↦ ground (arith, e, h, k, has-keep v p us)
  ]
  | inr e ↦ ground (arith, e, h, has-keep v p us)
]

pub has-cons : (v u : String) (us : List String) → has v (u ∷ us) ≡ (u == v || has v us)
unfolding has
has-cons v u us = refl

after_send-members :
    (reached : Bool) (username u : String) (m : Message) (s : Convos)
    → (after_send reached username u m s).members ≡ s.members
unfolding after_send store_missed
after_send-members reached username u m s = ground arith

fan_out-members :
    (reaches : String → Bool) (username : String) (m : Message) (us : List String) (s : Convos)
    → (fan_out reaches username m us s).0.members ≡ s.members
unfolding fan_out
fan_out-members reaches username m [] s = refl
fan_out-members reaches username m (u ∷ us) s =
    let s' = after_send (reaches u) username u m s in
    ground (
      arith,
      fan_out-members reaches username m us s,
      fan_out-members reaches username m us s',
      after_send-members (reaches u) username u m s,
    )

unfoldable pub with_message : String → Message → Convos → Convos
with_message username m s = record s {
  messages = s.messages ++ record { convo_id = m.convo_id; sender = username; body = m.body } ∷ [];
}

pub convo_msg-members :
    (reaches : String → Bool) (username : String) (m : Message) (s : Convos)
    → (convo_msg reaches username m s).0.members ≡ s.members
unfolding convo_msg with_message
convo_msg-members reaches username m s = ground (
  arith,
  fan_out-members reaches username m (conversation_members m.convo_id s)
      (with_message username m s),
)
