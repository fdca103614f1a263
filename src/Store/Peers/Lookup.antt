-- ===== src/Store/Peers/Lookup.antt =====
-- What `GetPeer` finds after the peer methods of internal/store/store.go.
use wgrift.Base.{
  ◌⊎◌, ◌≡◌, refl, ◌∙◌, Bool, false, Option, none, some, List, [], ◌∷◌, ◌++◌, arith, Text, text_eq,
  text_eq_iff, pos, select, find_first, any, if◌then◌else◌, inl, inr, Bool-cases,
}
use wgrift.Base.Result.{ok}
use wgrift.Base.Tables.{find_first-append, find_first-append_other}
use wgrift.Models.{Peer}
use wgrift.Store.Db.{Db, update_where, delete_where, peer_exists}
use wgrift.Store.Peers.{insert_peer, select_peer, set_peer, remove_peer}

-- The row of a new peer, with the columns that the statement leaves out at their defaults.
abbrev pub new_row : Peer → Peer
new_row p = record p { last_handshake = none; transfer_rx = pos 0; transfer_tx = pos 0 }

abbrev pub replaced : Peer → Option Peer → Option Peer
replaced p none = none
replaced p (some old) = some (record p { created_at = old.created_at })

-- What a statement that went through tells of the tables before and after it.
insert_peer-ok :
    (p : Peer) (fk : Bool) (db db' : Db)
    → insert_peer p fk db ≡ ok db'
    → (peer_exists p.id db ≡ false) × (db' ≡ record db { peers = db.peers ++ new_row p ∷ [] })
unfolding insert_peer
insert_peer-ok p fk db db' h = ground arith

-- After an insertion that is not refused, the new peer is found under its identifier, and every
-- other identifier finds what it found before.
pub select_peer-insert_peer :
    (p : Peer) (fk : Bool) (db db' : Db) (id : Text)
    → insert_peer p fk db ≡ ok db'
    → select_peer id db' ≡ (if text_eq p.id id then some (new_row p) else select_peer id db)
unfolding select_peer
select_peer-insert_peer p fk db db' id h =
    let (fresh, same) = insert_peer-ok p fk db db' h in
    elim (Bool-cases (text_eq p.id id)) [
      | inl yes' ↦
          rw (same, yes')
            (find_first-append (λ q. text_eq q.id id) db.peers (new_row p)
                (rw (← (text_eq_iff p.id id).0 yes') fresh)
              ∙ rw yes' refl)
      | inr no' ↦
          rw (same, no') (find_first-append_other (λ q. text_eq q.id id) db.peers (new_row p) no')
    ]

find_first-update_where :
    (p : Peer) (id : Text) (ps : List Peer)
    → find_first
        (λ q. text_eq q.id id)
        (update_where
          (λ old. text_eq old.id p.id)
          (λ old. record p { created_at = old.created_at })
          ps)
      ≡ (if text_eq p.id id
          then replaced p (find_first (λ q. text_eq q.id id) ps)
          else find_first (λ q. text_eq q.id id) ps)
unfolding find_first update_where
find_first-update_where p id [] = ground arith
find_first-update_where p id (q ∷ ps) = ground (
  arith,
  find_first-update_where p id ps,
  text_eq_iff p.id id,
  text_eq_iff q.id p.id,
  text_eq_iff q.id id,
)

set_peer-ok :
    (p : Peer) (fk : Bool) (db db' : Db)
    → set_peer p fk db ≡ ok db'
    → ((peer_exists p.id db ≡ false) × (db' ≡ db))
      ⊎ (db' ≡ record db {
        peers =
            update_where
              (λ old. text_eq old.id p.id)
              (λ old. record p { created_at = old.created_at })
              db.peers;
      })
unfolding set_peer
set_peer-ok p fk db db' h = ground arith

find_first-none :
    (id : Text) (ps : List Peer)
    → any (λ q. text_eq q.id id) ps ≡ false
    → find_first (λ q. text_eq q.id id) ps ≡ none
unfolding find_first any
find_first-none id [] h = refl
find_first-none id (q ∷ ps) h = ground (arith, find_first-none id ps)

-- After an update that is not refused, the identifier of the new row finds that row with the old
-- creation time, or nothing where there was no row; every other identifier finds what it found.
pub select_peer-set_peer :
    (p : Peer) (fk : Bool) (db db' : Db) (id : Text)
    → set_peer p fk db ≡ ok db'
    → select_peer id db'
      ≡ (if text_eq p.id id then replaced p (select_peer id db) else select_peer id db)
unfolding select_peer
select_peer-set_peer p fk db db' id h = elim (set_peer-ok p fk db db' h) [
  | inl (missing, same) ↦ elim (Bool-cases (text_eq p.id id)) [
    | inl yes' ↦
        let absent = find_first-none id db.peers (rw (← (text_eq_iff p.id id).0 yes') missing) in
        rw (same, yes', absent) refl
    | inr no' ↦ rw (same, no') refl
  ]
  | inr same ↦ rw same (find_first-update_where p id db.peers)
]

remove_peer-ok :
    (id : Text) (fk : Bool) (db db' : Db)
    → remove_peer id fk db ≡ ok db'
    → db'.peers ≡ delete_where (λ q. text_eq q.id id) db.peers
unfolding remove_peer
remove_peer-ok id fk db db' h = ground arith

find_first-delete_where :
    (deleted id : Text) (ps : List Peer)
    → find_first (λ q. text_eq q.id id) (delete_where (λ q. text_eq q.id deleted) ps)
      ≡ (if text_eq deleted id then none else find_first (λ q. text_eq q.id id) ps)
unfolding find_first delete_where select
find_first-delete_where deleted id [] = ground arith
find_first-delete_where deleted id (q ∷ ps) = ground (
  arith,
  find_first-delete_where deleted id ps,
  text_eq_iff deleted id,
  text_eq_iff q.id deleted,
  text_eq_iff q.id id,
)

-- A deletion takes away the peer with the identifier, and no other.
pub select_peer-remove_peer :
    (deleted id : Text) (fk : Bool) (db db' : Db)
    → remove_peer deleted fk db ≡ ok db'
    → select_peer id db' ≡ (if text_eq deleted id then none else select_peer id db)
unfolding select_peer
select_peer-remove_peer deleted id fk db db' h =
    rw (remove_peer-ok deleted fk db db' h) (find_first-delete_where deleted id db.peers)
