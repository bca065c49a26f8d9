-- ===== src/Registry/Laws.antt =====
-- nexus_server/clients.go: what the registry promises.
use phazechat_world.Prelude.{
  ℕ, ◌≡◌, refl, sym, ap, ◌∙◌, inl, inr, Bool, true, false, Option, none, some, List, [], ◌∷◌, ◌++◌,
  arith, eq_iff, eq_refl, ◌⊎◌, subst, String, lookup, delete, lookup-insert, lookup-delete, length,
  any, ltb, eqb, ◌==◌, if◌then◌else◌, Bool-cases,
}
use phazechat_world.Registry.{
  Conn, Server, slice_of, clients_of, add_client, remove_first, store_slice, remove_client,
  drop_all_clients, is_online,
}

-- No user is registered without a connection.
abbrev pub IsOccupied : Option (List ℕ) → Type 0
IsOccupied none = Unit {0}
IsOccupied (some []) = ⊥
IsOccupied (some (c ∷ cs)) = Unit {0}

abbrev pub IsTidy : Server → Type 0
IsTidy s = (username : String) → IsOccupied (lookup username s.clients)

-- Registering a connection adds it to its user's, as the newest, and changes no other user's.
pub clients_of-add_client :
    (username other : String) (c : ℕ) (s : Server)
    → clients_of other (add_client username c s)
      ≡ (if username == other then clients_of username s ++ c ∷ [] else clients_of other s)
unfolding clients_of add_client slice_of
clients_of-add_client username other c s = ground (
  arith,
  eq_iff username other,
  lookup-insert username other (clients_of username s ++ c ∷ []) s.clients,
)

clients_of-store_slice :
    (username other : String) (cs : List ℕ) (s : Server)
    → clients_of other (store_slice username cs s).1
      ≡ (if username == other then cs else clients_of other s)
unfolding clients_of store_slice slice_of
clients_of-store_slice username other [] s = ground (arith, lookup-delete username other s.clients)
clients_of-store_slice username other (c ∷ cs) s =
    ground (arith, lookup-insert username other (c ∷ cs) s.clients)

pub clients_of-remove_client :
    (username other : String) (c : ℕ) (s : Server)
    → clients_of other (remove_client username c s).1
      ≡ (if username == other then remove_first c (clients_of username s) else clients_of other s)
unfolding remove_client
clients_of-remove_client username other c s =
    clients_of-store_slice username other (remove_first c (clients_of username s)) s

remove_first-append :
    (c : ℕ) (cs : List ℕ) → any (λ d. eqb d c) cs ≡ false → remove_first c (cs ++ c ∷ []) ≡ cs
unfolding remove_first
remove_first-append c [] h = ground arith
remove_first-append c (d ∷ cs) h = ground (arith, remove_first-append c cs)

store_slice_count :
    (username : String) (cs : List ℕ) (s : Server) → (store_slice username cs s).0 ≡ length cs
unfolding store_slice
store_slice_count username [] s = refl
store_slice_count username (c ∷ cs) s = refl

remove_client_left :
    (username : String) (c : ℕ) (s : Server)
    → (remove_client username c s).0 ≡ length (remove_first c (clients_of username s))
unfolding remove_client
remove_client_left username c s =
    store_slice_count username (remove_first c (clients_of username s)) s

-- What is left of a list when the first entry of a connection goes: the list was without it and
-- stays, or it loses one entry, before which the connection does not occur.
abbrev pub IsWithout : ℕ → List ℕ → List ℕ → Type 0
IsWithout c old new =
    ((any (λ d. eqb d c) old ≡ false) × (new ≡ old))
    ⊎ ((before : List ℕ) × (after : List ℕ) × (old ≡ before ++ c ∷ after)
        × (any (λ d. eqb d c) before ≡ false)
        × (new ≡ before ++ after))

remove_first-IsWithout : (c : ℕ) (cs : List ℕ) → IsWithout c cs (remove_first c cs)
unfolding remove_first
remove_first-IsWithout c [] = inl (refl, refl)
remove_first-IsWithout c (d ∷ cs) = elim (Bool-cases (eqb d c)) [
  | inl e ↦ rw e (inr ([], cs, ap (λ x. x ∷ cs) (ground (arith, e)), refl, refl))
  | inr e ↦ rw e (elim (remove_first-IsWithout c cs) [
    | inl (n, same) ↦ inl (ground (arith, e, n), ap (λ l. d ∷ l) same)
    | inr (before, after, old, n, new) ↦
        inr (d ∷ before, after, ap (λ l. d ∷ l) old, ground (arith, e, n), ap (λ l. d ∷ l) new)
  ])
]

-- Dropping a connection takes one entry of it, the first, out of its user's list, all others kept
-- in order, or changes nothing where the list has none; it changes no other user's list; the number
-- returned is how many the user has left, and it is zero exactly when the user is then offline.
pub remove_client_lem :
    (username other : String) (c : ℕ) (s : Server)
    → let (left, s') = remove_client username c s in
      IsWithout c (clients_of username s) (clients_of username s')
      × (clients_of other s'
          ≡ (if username == other then clients_of username s' else clients_of other s))
      × (left ≡ length (clients_of username s'))
      × (is_online username s' ≡ ltb 0 left)
unfolding is_online
remove_client_lem username other c s = (
  subst (IsWithout c (clients_of username s)) (sym own)
      (remove_first-IsWithout c (clients_of username s)),
  subst
      (λ l.
        clients_of other (remove_client username c s).1
        ≡ (if username == other then l else clients_of other s))
      (sym own) (clients_of-remove_client username other c s),
  left,
  ap (ltb 0) (sym left),
)
  where
    own :
        clients_of username (remove_client username c s).1 ≡ remove_first c (clients_of username s)
    own = clients_of-remove_client username username c s ∙ rw (eq_refl username)

    left :
        (remove_client username c s).0 ≡ length (clients_of username (remove_client username c s).1)
    left = remove_client_left username c s ∙ ap length (sym own)

-- A connection that opens and closes leaves every user's connections as they were.
pub remove_client-add_client :
    (username other : String) (c : ℕ) (s : Server)
    → any (λ d. eqb d c) (clients_of username s) ≡ false
    → clients_of other (remove_client username c (add_client username c s)).1 ≡ clients_of other s
remove_client-add_client username other c s h = ground (
  arith,
  clients_of-remove_client username other c (add_client username c s),
  clients_of-add_client username username c s,
  clients_of-add_client username other c s,
  eq_refl username,
  eq_iff username other,
  remove_first-append c (clients_of username s) h,
)

IsTidy-add_client :
    (username : String) (c : ℕ) (s : Server) → IsTidy s → IsTidy (add_client username c s)
unfolding add_client
IsTidy-add_client username c s t other =
    rw (lookup-insert username other (clients_of username s ++ c ∷ []) s.clients)
      (elim (Bool-cases (username == other)) [
        | inl e ↦ rw e (occupied (clients_of username s))
        | inr e ↦ rw e (t other)
      ])
  where
    occupied : (cs : List ℕ) → IsOccupied (some (cs ++ c ∷ []))
    occupied [] = tt
    occupied (d ∷ cs) = tt

IsTidy-delete :
    (username : String) (s : Server)
    → IsTidy s
    → IsTidy (record s { clients = delete username s.clients })
IsTidy-delete username s t other = ground (arith, lookup-delete username other s.clients, t other)

IsTidy-store_slice :
    (username : String) (cs : List ℕ) (s : Server) → IsTidy s → IsTidy (store_slice username cs s).1
unfolding store_slice
IsTidy-store_slice username [] s t other = IsTidy-delete username s t other
IsTidy-store_slice username (c ∷ cs) s t other =
    ground (arith, lookup-insert username other (c ∷ cs) s.clients, t other)

-- What changes the registry.
pub data Change : Type 0 where
  opens closes : String → ℕ → Change
  drops : String → Change

unfoldable pub change : Change → Server → Server
change (opens username c) s = add_client username c s
change (closes username c) s = (remove_client username c s).1
change (drops username) s = (drop_all_clients username s).1

unfoldable pub changes : List Change → Server → Server
changes [] s = s
changes (c ∷ cs) s = changes cs (change c s)

change-IsTidy : (c : Change) (s : Server) → IsTidy s → IsTidy (change c s)
unfolding change remove_client drop_all_clients
change-IsTidy (opens username c) s t = IsTidy-add_client username c s t
change-IsTidy (closes username c) s t =
    IsTidy-store_slice username (remove_first c (clients_of username s)) s t
change-IsTidy (drops username) s t = IsTidy-delete username s t

changes-IsTidy : (cs : List Change) (s : Server) → IsTidy s → IsTidy (changes cs s)
unfolding changes
changes-IsTidy [] s t = t
changes-IsTidy (c ∷ cs) s t = changes-IsTidy cs (change c s) (change-IsTidy c s t)

abbrev is_some : Option (List ℕ) → Bool
is_some none = false
is_some (some cs) = true

is_online_of :
    (username : String) (s : Server)
    → IsOccupied (lookup username s.clients)
    → is_online username s ≡ is_some (lookup username s.clients)
unfolding is_online clients_of slice_of
is_online_of username s t = ground arith

-- After any openings, closings and evictions from an empty registry, a user is online exactly
-- when the registry's map has a key for the user, which is what the count and the list of online
-- users go by.
pub is_online-changes :
    (cs : List Change) (username : String) (conns : ℕ → Conn)
    → is_online username (changes cs (record { clients = []; conns = conns }))
      ≡ is_some (lookup username (changes cs (record { clients = []; conns = conns })).clients)
unfolding lookup
is_online-changes cs username conns =
    is_online_of username (changes cs (record { clients = []; conns = conns }))
      (changes-IsTidy cs (record { clients = []; conns = conns }) (λ _. tt) username)
