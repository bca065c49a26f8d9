-- ===== src/Channels/Kept.antt =====
-- What a message about a post leaves alone of the others: the channel_ messages of
-- nexus_server/ws_handlers.go.
use phazechat_world.Prelude.{
  ℕ, ◌≡◌, refl, sym, ap, subst, ◌∙◌, inl, inr, Bool, true, false, ◌&&◌, ◌||◌, Option, none, some,
  List, [], ◌∷◌, ◌++◌, arith, String, lookup, ltb, eqb, ◌==◌, if◌then◌else◌, Bool-cases, trim_space,
  change_rows,
}
use Prim.Native.String.{len}
use phazechat_world.Spaces.{Channel, Spaces, is_server_member}
use phazechat_world.Channels.{
  Post, Posts, Message, find_post, update_post, post_in, post_found, channel_msg, react_found,
  channel_react, toggle_channel_reaction, edit_post, edit_found, edit_by_id, channel_edit,
  delete_post, may_delete, delete_found, delete_by_id, channel_delete, pin_post, pin_found,
  pin_by_id, channel_pin, server_of, is_space_admin,
}
use phazechat_world.Channels.Say.{has_say, has_say-same, may_delete-has_say}

abbrev pub is_id : ℕ → Option ℕ → Bool
is_id id none = false
is_id id (some j) = eqb id j

abbrev pub IsSame : Post → Post → Type 0
IsSame q p =
    (q.channel_id ≡ p.channel_id)
    × (q.sender ≡ p.sender)
    × (q.body ≡ p.body)
    × (q.deleted ≡ p.deleted)

-- A post is there and reads as another.
abbrev pub Reads : ℕ → Post → List Post → Type 0
Reads id p rows = (q : Post) × (find_post id rows ≡ some q) × IsSame q p

find_post-append :
    (id : ℕ) (rows : List Post) (r q : Post)
    → find_post id rows ≡ some q
    → find_post id (rows ++ r ∷ []) ≡ some q
unfolding find_post
find_post-append id [] r q e = ground (arith, e)
find_post-append id (s ∷ rows) r q e = ground (arith, e, find_post-append id rows r q)

find_post-id : (id : ℕ) (rows : List Post) (q : Post) → find_post id rows ≡ some q → q.id ≡ id
unfolding find_post
find_post-id id [] q e = ground (arith, e)
find_post-id id (r ∷ rows) q e = elim (Bool-cases (eqb r.id id)) [
  | inl b ↦ ground (arith, b, e)
  | inr b ↦ find_post-id id rows q (ground (arith, b, e))
]

-- A row after an update by id.
abbrev updated : ℕ → (Post → Post) → Post → Post
updated j f r = if eqb r.id j then f r else r

updated-id :
    (j : ℕ) (f : Post → Post) (r : Post)
    → ((q : Post) → (f q).id ≡ q.id)
    → (updated j f r).id ≡ r.id
updated-id j f r k = ground (arith, k r)

find_post-change_rows :
    (id j : ℕ) (f : Post → Post) (rows : List Post) (q : Post)
    → ((r : Post) → (f r).id ≡ r.id)
    → find_post id rows ≡ some q
    → find_post id (change_rows (λ r. eqb r.id j) f rows) ≡ some (updated j f q)
unfolding find_post change_rows
find_post-change_rows id j f [] q k e = ground (arith, e)
find_post-change_rows id j f (r ∷ rows) q k e = elim (Bool-cases (eqb r.id id)) [
  | inl b ↦
      let same : r ≡ q = ground (arith, b, e) in
      subst (λ p. find_post id (change_rows (λ r. eqb r.id j) f (r ∷ rows)) ≡ some (updated j f p))
        same (ground (arith, b, updated-id j f r k))
  | inr b ↦
      ground
        (arith, updated-id j f r k, b, find_post-change_rows id j f rows q k (ground (arith, b, e)))
]

Reads-update :
    (id j : ℕ) (p q : Post) (f : Post → Post) (s : Posts)
    → ((r : Post) → (f r).id ≡ r.id)
    → find_post id s.rows ≡ some q
    → IsSame (updated j f q) p
    → Reads id p (update_post j f s).rows
unfolding update_post
Reads-update id j p q f s k e same =
    (updated j f q, find_post-change_rows id j f s.rows q k e, same)

found_same :
    (id j : ℕ) (q r : Post) (rows : List Post)
    → eqb id j ≡ true
    → find_post id rows ≡ some q
    → find_post j rows ≡ some r
    → q ≡ r
found_same id j q r rows b e h =
    let same : id ≡ j = ground (arith, b) in
    let g : some q ≡ some r = sym e ∙ ap (λ i. find_post i rows) same ∙ h in cc

updated_other :
    (id j : ℕ) (f : Post → Post) (q : Post) → q.id ≡ id → eqb id j ≡ false → updated j f q ≡ q
updated_other id j f q e b = ground (arith, e, b)

-- An update that depends on the row and that the row read as p would not allow leaves it alone.
guard-Reads :
    (id j : ℕ) (p r : Post) (allowed : Post → Bool) (f : Post → Post) (s : Posts)
    → ((a : Post) → (f a).id ≡ a.id)
    → ((a b : Post) → a.channel_id ≡ b.channel_id → a.sender ≡ b.sender → allowed a ≡ allowed b)
    → find_post j s.rows ≡ some r
    → allowed r ≡ true
    → eqb id j && allowed p ≡ false
    → Reads id p s.rows
    → Reads id p (update_post j f s).rows
guard-Reads id j p r allowed f s k resp h a n (q, e, (c, d, b, x)) = elim (Bool-cases (eqb id j)) [
  | inl y ↦
      let same = found_same id j q r s.rows y e h in
      absurd (ground (arith, y, n, a, resp q p c d, ap allowed same))
  | inr y ↦ Reads-update id j p q f s k e (
      subst (λ o. IsSame o p) (sym (updated_other id j f q (find_post-id id s.rows q e) y))
        (c, d, b, x))
]

edit_found-Reads :
    (found : Option Post) (id j : ℕ) (p : Post) (spaces : Spaces) (username : String) (m : Message)
    (s : Posts)
    → find_post j s.rows ≡ found
    → eqb id j && p.sender == username ≡ false
    → Reads id p s.rows
    → Reads id p (edit_found found j spaces username m s).0.rows
unfolding edit_found edit_post
edit_found-Reads none id j p spaces username m s h n k = k
edit_found-Reads (some r) id j p spaces username m s h n k =
    elim (Bool-cases (r.sender == username)) [
      | inl e ↦ rw e (
          guard-Reads id j p r (λ a. a.sender == username) (edit_post m.body) s (λ a. refl)
            (λ a b c d. ap (λ t. t == username) d) h e n k)
      | inr e ↦ rw e k
    ]

delete_found-Reads :
    (found : Option Post) (id j : ℕ) (p : Post) (spaces : Spaces) (is_staff : String → Bool)
    (username : String) (s : Posts)
    → find_post j s.rows ≡ found
    → eqb id j && has_say spaces is_staff username p ≡ false
    → Reads id p s.rows
    → Reads id p (delete_found found j spaces is_staff username s).0.rows
unfolding delete_found delete_post
delete_found-Reads none id j p spaces is_staff username s h n k = k
delete_found-Reads (some r) id j p spaces is_staff username s h n k =
    elim (Bool-cases (may_delete spaces is_staff username r)) [
      | inl e ↦ rw e (
          guard-Reads id j p r (has_say spaces is_staff username) delete_post s (λ a. refl)
            (has_say-same spaces is_staff username) h
            (may_delete-has_say spaces is_staff username r e) n k)
      | inr e ↦ rw e k
    ]

pin_post-IsSame : (j : ℕ) (q p : Post) → IsSame q p → IsSame (updated j pin_post q) p
unfolding pin_post
pin_post-IsSame j q p k = elim (Bool-cases (eqb q.id j)) [ inl e ↦ rw e k | inr e ↦ rw e k ]

pin_found-Reads :
    (found : Option Post) (id j : ℕ) (p : Post) (spaces : Spaces) (username : String) (s : Posts)
    → Reads id p s.rows
    → Reads id p (pin_found found j spaces username s).0.rows
unfolding pin_found
pin_found-Reads none id j p spaces username s k = k
pin_found-Reads (some r) id j p spaces username s (q, e, (c, d, b, x)) =
    let server_id = server_of r.channel_id spaces in
    elim (Bool-cases (is_server_member server_id username spaces)) [
      | inl y ↦ elim (Bool-cases (is_space_admin spaces server_id username)) [
        | inl z ↦
            rw (y, z)
              (Reads-update id j p q pin_post s (unfold pin_post in λ a. refl) e
                (pin_post-IsSame j q p (c, d, b, x)))
        | inr z ↦ rw (y, z) (q, e, (c, d, b, x))
      ]
      | inr y ↦ rw y (q, e, (c, d, b, x))
    ]

post_found-Reads :
    (found : Option Channel) (id : ℕ) (p : Post) (spaces : Spaces) (username : String) (m : Message)
    (s : Posts)
    → Reads id p s.rows
    → Reads id p (post_found found spaces username m s).0.rows
unfolding post_found post_in
post_found-Reads none id p spaces username m s k = k
post_found-Reads (some c) id p spaces username m s (q, e, k) =
    elim (Bool-cases (is_server_member c.server_id username spaces)) [
      | inl y ↦ elim (Bool-cases (trim_space m.body == "" || ltb 8000 (len (trim_space m.body)))) [
        | inl z ↦ rw (y, z) (q, e, k)
        | inr z ↦ rw (y, z) (q, find_post-append id s.rows _ q e, k)
      ]
      | inr y ↦ rw y (q, e, k)
    ]

channel_react-rows :
    (spaces : Spaces) (found : Option Channel) (id : Option ℕ) (username : String) (m : Message)
    (s : Posts)
    → (react_found found id spaces username m s).0.rows ≡ s.rows
unfolding react_found toggle_channel_reaction
channel_react-rows spaces none id username m s = refl
channel_react-rows spaces (some c) none username m s = refl
channel_react-rows spaces (some c) (some id) username m s = ground arith

pub channel_msg-Reads :
    (id : ℕ) (p : Post) (spaces : Spaces) (username : String) (m : Message) (s : Posts)
    → Reads id p s.rows
    → Reads id p (channel_msg spaces username m s).0.rows
unfolding channel_msg
channel_msg-Reads id p spaces username m s k =
    elim (Bool-cases (username == "" || m.channel_id == "")) [
      | inl e ↦ rw e k
      | inr e ↦
          rw e (post_found-Reads (lookup m.channel_id spaces.channels) id p spaces username m s k)
    ]

pub channel_react-Reads :
    (id : ℕ) (p : Post) (spaces : Spaces) (j : Option ℕ) (username : String) (m : Message)
    (s : Posts)
    → Reads id p s.rows
    → Reads id p (channel_react spaces j username m s).0.rows
unfolding channel_react
channel_react-Reads id p spaces j username m s k =
    elim (Bool-cases (username == "" || m.channel_id == "" || m.msg_id == "" || m.reaction == "")) [
      | inl e ↦ rw e k
      | inr e ↦ rw e (
          subst (Reads id p)
            (sym (channel_react-rows spaces (lookup m.channel_id spaces.channels) j username m s))
            k)
    ]

edit_by_id-Reads :
    (j : Option ℕ) (id : ℕ) (p : Post) (spaces : Spaces) (username : String) (m : Message)
    (s : Posts)
    → is_id id j && p.sender == username ≡ false
    → Reads id p s.rows
    → Reads id p (edit_by_id j spaces username m s).0.rows
unfolding edit_by_id
edit_by_id-Reads none id p spaces username m s n k = k
edit_by_id-Reads (some j) id p spaces username m s n k =
    edit_found-Reads (find_post j s.rows) id j p spaces username m s refl n k

pub channel_edit-Reads :
    (id : ℕ) (p : Post) (spaces : Spaces) (j : Option ℕ) (username : String) (m : Message)
    (s : Posts)
    → is_id id j && p.sender == username ≡ false
    → Reads id p s.rows
    → Reads id p (channel_edit spaces j username m s).0.rows
unfolding channel_edit
channel_edit-Reads id p spaces j username m s n k =
    elim (Bool-cases (username == "" || m.msg_id == "" || m.body == "")) [
      | inl e ↦ rw e k
      | inr e ↦ elim (Bool-cases (ltb 8000 (len m.body))) [
        | inl l ↦ rw (e, l) k
        | inr l ↦ rw (e, l) (edit_by_id-Reads j id p spaces username m s n k)
      ]
    ]

delete_by_id-Reads :
    (j : Option ℕ) (id : ℕ) (p : Post) (spaces : Spaces) (is_staff : String → Bool)
    (username : String) (s : Posts)
    → is_id id j && has_say spaces is_staff username p ≡ false
    → Reads id p s.rows
    → Reads id p (delete_by_id j spaces is_staff username s).0.rows
unfolding delete_by_id
delete_by_id-Reads none id p spaces is_staff username s n k = k
delete_by_id-Reads (some j) id p spaces is_staff username s n k =
    delete_found-Reads (find_post j s.rows) id j p spaces is_staff username s refl n k

pub channel_delete-Reads :
    (id : ℕ) (p : Post) (spaces : Spaces) (is_staff : String → Bool) (j : Option ℕ)
    (username : String) (m : Message) (s : Posts)
    → is_id id j && has_say spaces is_staff username p ≡ false
    → Reads id p s.rows
    → Reads id p (channel_delete spaces is_staff j username m s).0.rows
unfolding channel_delete
channel_delete-Reads id p spaces is_staff j username m s n k =
    elim (Bool-cases (username == "" || m.msg_id == "")) [
      | inl e ↦ rw e k
      | inr e ↦ rw e (delete_by_id-Reads j id p spaces is_staff username s n k)
    ]

pin_by_id-Reads :
    (j : Option ℕ) (id : ℕ) (p : Post) (spaces : Spaces) (username : String) (s : Posts)
    → Reads id p s.rows
    → Reads id p (pin_by_id j spaces username s).0.rows
unfolding pin_by_id
pin_by_id-Reads none id p spaces username s k = k
pin_by_id-Reads (some j) id p spaces username s k =
    pin_found-Reads (find_post j s.rows) id j p spaces username s k

pub channel_pin-Reads :
    (id : ℕ) (p : Post) (spaces : Spaces) (j : Option ℕ) (username : String) (m : Message)
    (s : Posts)
    → Reads id p s.rows
    → Reads id p (channel_pin spaces j username m s).0.rows
unfolding channel_pin
channel_pin-Reads id p spaces j username m s k =
    elim (Bool-cases (username == "" || m.msg_id == "")) [
      | inl e ↦ rw e k
      | inr e ↦ rw e (pin_by_id-Reads j id p spaces username s k)
    ]
