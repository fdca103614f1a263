-- ===== src/Store/Consistent/Peers.antt =====
-- The peer statements of internal/store/store.go and the consistency of the tables.
use wgrift.Base.{
  ◌≡◌, refl, sym, ◌∙◌, Bool, true, false, not, ◌&&◌, List, [], ◌∷◌, ◌++◌, arith, Text, text_eq,
  text_eq_iff, any, every, every-append, inl, inr, Bool-cases,
}
use wgrift.Base.Tables.{any-append, any-select}
use wgrift.Models.{Peer}
use wgrift.App.Keeps.{After}
use wgrift.Store.Db.{
  Db, update_where, delete_where, peer_type_allowed, interface_exists, peer_exists,
}
use wgrift.Store.Peers.{insert_peer, set_peer, remove_peer}
use wgrift.Store.Peers.Lookup.{new_row}
use wgrift.Store.Keys.{
  IsDistinct-append, IsDistinct-select, IsDistinct-update_where, every-select, every-weaken,
  every-update_where, any-update_where,
}
use wgrift.Store.Renewal.{IsDistinct-renew}
use wgrift.Store.Apart.{IsNumbered-select}
use wgrift.Store.Consistent.{IsConsistent}

-- What the statement has tested before it writes.
record IsNew (p : Peer) (db : Db) : Type 0 where
  allowed : peer_type_allowed p.peer_type ≡ true
  new_id : peer_exists p.id db ≡ false
  new_key : any (λ q. text_eq q.public_key p.public_key) db.peers ≡ false
  belongs : interface_exists p.interface_id db ≡ true

insert_peer-After :
    (p : Peer) (db : Db) (P : Db → Type 0)
    → (IsNew p db → P (record db { peers = db.peers ++ new_row p ∷ [] }))
    → After P (insert_peer p true db)
unfolding insert_peer
insert_peer-After p db P h = elim (Bool-cases (peer_type_allowed p.peer_type)) [
  | inr bad ↦ rw bad tt
  | inl allowed ↦ elim (Bool-cases (peer_exists p.id db)) [
    | inl old ↦ rw (allowed, old) tt
    | inr new_id ↦ elim (Bool-cases (any (λ q. text_eq q.public_key p.public_key) db.peers)) [
      | inl old ↦ rw (allowed, new_id, old) tt
      | inr new_key ↦ elim (Bool-cases (interface_exists p.interface_id db)) [
        | inr gone ↦ rw (allowed, new_id, new_key, gone) tt
        | inl belongs ↦
            rw (allowed, new_id, new_key, belongs)
              (h (record {
                allowed = allowed;
                new_id = new_id;
                new_key = new_key;
                belongs = belongs;
              }))
      ]
    ]
  ]
]

inserted-IsConsistent :
    (p : Peer) (db : Db)
    → IsConsistent db
    → IsNew p db
    → IsConsistent (record db { peers = db.peers ++ new_row p ∷ [] })
inserted-IsConsistent p db c n = record {
  interface_ids = c.interface_ids;
  interface_types = c.interface_types;
  peer_ids = IsDistinct-append (λ q. q.id) db.peers (new_row p) n.new_id c.peer_ids;
  public_keys = IsDistinct-append (λ q. q.public_key) db.peers (new_row p) n.new_key c.public_keys;
  peer_types =
      every-append (λ q. peer_type_allowed q.peer_type) db.peers (new_row p ∷ [])
      ∙ unfold every in ground (arith, c.peer_types, n.allowed);
  peers_belong =
      every-append (λ q. interface_exists q.interface_id db) db.peers (new_row p ∷ [])
      ∙ unfold every in ground (arith, c.peers_belong, n.belongs);
  logs_belong =
      every-weaken _ _ db.connection_logs
        (λ l h.
          any-append (λ q. text_eq q.id l.peer_id) db.peers (new_row p ∷ []) ∙ ground (arith, h))
        c.logs_belong;
  user_ids = c.user_ids;
  usernames = c.usernames;
  roles = c.roles;
  sessions_belong = c.sessions_belong;
  session_ids = c.session_ids;
  log_ids = c.log_ids;
  log_events = c.log_events;
  identities = c.identities;
  keyed = c.keyed;
}

-- An insertion of a peer keeps the tables consistent.
pub insert_peer-IsConsistent :
    (p : Peer) (db : Db) → IsConsistent db → After IsConsistent (insert_peer p true db)
insert_peer-IsConsistent p db c = insert_peer-After p db IsConsistent (inserted-IsConsistent p db c)

-- A deletion of a peer does, as its logs go with it.
pub remove_peer-IsConsistent :
    (id : Text) (db : Db) → IsConsistent db → After IsConsistent (remove_peer id true db)
unfolding remove_peer delete_where
remove_peer-IsConsistent id db c = record {
  interface_ids = c.interface_ids;
  interface_types = c.interface_types;
  peer_ids = IsDistinct-select (λ q. q.id) _ db.peers c.peer_ids;
  public_keys = IsDistinct-select (λ q. q.public_key) _ db.peers c.public_keys;
  peer_types = every-select _ _ _ db.peers (λ q h k. h) c.peer_types;
  peers_belong = every-select _ _ _ db.peers (λ q h k. h) c.peers_belong;
  logs_belong =
      every-select _ _ _ db.connection_logs
        (λ l h k.
          any-select (λ q. text_eq q.id l.peer_id) (λ q. not (text_eq q.id id)) db.peers
            (λ q e. ground (arith, k, text_eq_iff q.id l.peer_id))
          ∙ h)
        c.logs_belong;
  user_ids = c.user_ids;
  usernames = c.usernames;
  roles = c.roles;
  sessions_belong = c.sessions_belong;
  session_ids = c.session_ids;
  log_ids = IsNumbered-select (λ l. l.id) db.last_log_id _ db.connection_logs c.log_ids;
  log_events = every-select _ _ _ db.connection_logs (λ l h k. h) c.log_events;
  identities = c.identities;
  keyed = c.keyed;
}

-- The row that replaces the one with its identifier.
abbrev renewed : Peer → List Peer → List Peer
renewed p ps =
    update_where (λ q. text_eq q.id p.id) (λ q. record p { created_at = q.created_at }) ps

abbrev taken : Peer → Peer → Bool
taken p q = not (text_eq q.id p.id) && text_eq q.public_key p.public_key

renewed-id :
    (p : Peer) (ps : List Peer) (k : Text)
    → any (λ q. text_eq q.id k) (renewed p ps) ≡ any (λ q. text_eq q.id k) ps
renewed-id p ps k =
    any-update_where (λ q. text_eq q.id k) _ _ ps (λ q h. rw ((text_eq_iff q.id p.id).0 h) refl)

set_peer-After :
    (p : Peer) (db : Db) (P : Db → Type 0)
    → P db
    → (peer_type_allowed p.peer_type ≡ true
        → any (taken p) db.peers ≡ false
        → interface_exists p.interface_id db ≡ true
        → P (record db { peers = renewed p db.peers }))
    → After P (set_peer p true db)
unfolding set_peer
set_peer-After p db P same h = elim (Bool-cases (peer_exists p.id db)) [
  | inr missing ↦ rw missing same
  | inl there ↦ elim (Bool-cases (peer_type_allowed p.peer_type)) [
    | inr bad ↦ rw (there, bad) tt
    | inl allowed ↦ elim (Bool-cases (any (taken p) db.peers)) [
      | inl old ↦ rw (there, allowed, old) tt
      | inr free ↦ elim (Bool-cases (interface_exists p.interface_id db)) [
        | inr gone ↦ rw (there, allowed, free, gone) tt
        | inl belongs ↦ rw (there, allowed, free, belongs) (h allowed free belongs)
      ]
    ]
  ]
]

-- An update of a peer keeps the tables consistent, whatever it changes in the row.
pub set_peer-IsConsistent :
    (p : Peer) (db : Db) → IsConsistent db → After IsConsistent (set_peer p true db)
set_peer-IsConsistent p db c = set_peer-After p db IsConsistent c (λ allowed free belongs. record {
  interface_ids = c.interface_ids;
  interface_types = c.interface_types;
  peer_ids =
      IsDistinct-update_where (λ q. q.id) _ _ db.peers (λ q h. sym ((text_eq_iff q.id p.id).0 h))
        c.peer_ids;
  public_keys =
      IsDistinct-renew (λ q. q.id) (λ q. q.public_key) p.id p.public_key
        (λ q. record p { created_at = q.created_at }) (λ q. refl) db.peers c.peer_ids c.public_keys
        free;
  peer_types = every-update_where _ _ _ db.peers (λ q h. allowed) c.peer_types;
  peers_belong = every-update_where _ _ _ db.peers (λ q h. belongs) c.peers_belong;
  logs_belong =
      every-weaken _ _ db.connection_logs (λ l h. renewed-id p db.peers l.peer_id ∙ h)
        c.logs_belong;
  user_ids = c.user_ids;
  usernames = c.usernames;
  roles = c.roles;
  sessions_belong = c.sessions_belong;
  session_ids = c.session_ids;
  log_ids = c.log_ids;
  log_events = c.log_events;
  identities = c.identities;
  keyed = c.keyed;
})
