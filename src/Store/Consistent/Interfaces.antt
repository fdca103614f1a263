-- ===== src/Store/Consistent/Interfaces.antt =====
-- The interface statements of internal/store/store.go and the consistency of the tables.
use wgrift.Base.{
  ◌≡◌, refl, sym, ◌∙◌, true, false, not, List, [], ◌∷◌, arith, Text, text_eq, text_eq_iff, select,
  any, every, every-append, inl, inr, Bool-cases,
}
use wgrift.Base.Tables.{any-append, any-select}
use wgrift.Models.{Interface, Peer}
use wgrift.App.Keeps.{After}
use wgrift.Store.Db.{Db, update_where, delete_where, interface_type_allowed, interface_exists}
use wgrift.Store.Interfaces.{insert_interface, set_interface, remove_interface}
use wgrift.Store.Keys.{
  IsDistinct-append, IsDistinct-select, IsDistinct-update_where, every-select, every-weaken,
  every-update_where, any-update_where, update_where-none,
}
use wgrift.Store.Apart.{IsNumbered-select}
use wgrift.Store.Consistent.{IsConsistent}

-- An insertion of an interface keeps the tables consistent.
pub insert_interface-IsConsistent :
    (i : Interface) (db : Db) → IsConsistent db → After IsConsistent (insert_interface i true db)
unfolding insert_interface
insert_interface-IsConsistent i db c = elim (Bool-cases (interface_type_allowed i.interface_type)) [
  | inr bad ↦ rw bad tt
  | inl allowed ↦ elim (Bool-cases (interface_exists i.id db)) [
    | inl old ↦ rw (allowed, old) tt
    | inr new ↦
        rw (allowed, new)
          (record {
            interface_ids = IsDistinct-append (λ j. j.id) db.interfaces i new c.interface_ids;
            interface_types =
                every-append (λ j. interface_type_allowed j.interface_type) db.interfaces (i ∷ [])
                ∙ unfold every in ground (arith, c.interface_types, allowed);
            peer_ids = c.peer_ids;
            public_keys = c.public_keys;
            peer_types = c.peer_types;
            peers_belong =
                every-weaken _ _ db.peers
                  (λ p h.
                    any-append (λ j. text_eq j.id p.interface_id) db.interfaces (i ∷ [])
                    ∙ ground (arith, h))
                  c.peers_belong;
            logs_belong = c.logs_belong;
            user_ids = c.user_ids;
            usernames = c.usernames;
            roles = c.roles;
            sessions_belong = c.sessions_belong;
            session_ids = c.session_ids;
            log_ids = c.log_ids;
            log_events = c.log_events;
            identities = c.identities;
            keyed = c.keyed;
          })
  ]
]

types_allowed :
    (i : Interface) (is : List Interface)
    → (any (λ j. text_eq j.id i.id) is ≡ true → interface_type_allowed i.interface_type ≡ true)
    → every (λ j. interface_type_allowed j.interface_type) is ≡ true
    → every
        (λ j. interface_type_allowed j.interface_type)
        (update_where
          (λ old. text_eq old.id i.id)
          (λ old. record i { created_at = old.created_at })
          is)
      ≡ true
types_allowed i is allowed h = elim (Bool-cases (any (λ j. text_eq j.id i.id) is)) [
  | inl there ↦
      every-update_where (λ j. interface_type_allowed j.interface_type) (λ old. text_eq old.id i.id)
        (λ old. record i { created_at = old.created_at }) is (λ j e. allowed there) h
  | inr missing ↦
      rw
        (update_where-none (λ old. text_eq old.id i.id)
          (λ old. record i { created_at = old.created_at }) is missing)
        h
]

still_exists :
    (i : Interface) (is : List Interface) (k : Text)
    → any
        (λ j. text_eq j.id k)
        (update_where
          (λ old. text_eq old.id i.id)
          (λ old. record i { created_at = old.created_at })
          is)
      ≡ any (λ j. text_eq j.id k) is
still_exists i is k =
    any-update_where (λ j. text_eq j.id k) _ _ is (λ j e. rw ((text_eq_iff j.id i.id).0 e) refl)

updated-IsConsistent :
    (i : Interface) (db : Db)
    → IsConsistent db
    → (interface_exists i.id db ≡ true → interface_type_allowed i.interface_type ≡ true)
    → IsConsistent (record db {
      interfaces =
          update_where
            (λ old. text_eq old.id i.id)
            (λ old. record i { created_at = old.created_at })
            db.interfaces;
    })
updated-IsConsistent i db c allowed = record {
  interface_ids =
      IsDistinct-update_where (λ j. j.id) _ _ db.interfaces
        (λ j h. sym ((text_eq_iff j.id i.id).0 h)) c.interface_ids;
  interface_types = types_allowed i db.interfaces allowed c.interface_types;
  peer_ids = c.peer_ids;
  public_keys = c.public_keys;
  peer_types = c.peer_types;
  peers_belong =
      every-weaken _ _ db.peers (λ p h. still_exists i db.interfaces p.interface_id ∙ h)
        c.peers_belong;
  logs_belong = c.logs_belong;
  user_ids = c.user_ids;
  usernames = c.usernames;
  roles = c.roles;
  sessions_belong = c.sessions_belong;
  session_ids = c.session_ids;
  log_ids = c.log_ids;
  log_events = c.log_events;
  identities = c.identities;
  keyed = c.keyed;
}

-- An update of an interface does too.
pub set_interface-IsConsistent :
    (i : Interface) (db : Db) → IsConsistent db → After IsConsistent (set_interface i true db)
unfolding set_interface
set_interface-IsConsistent i db c = elim (Bool-cases (interface_exists i.id db)) [
  | inr missing ↦ rw missing (updated-IsConsistent i db c (λ e. ground arith))
  | inl there ↦ elim (Bool-cases (interface_type_allowed i.interface_type)) [
    | inr bad ↦ rw (there, bad) tt
    | inl allowed ↦ rw (there, allowed) (updated-IsConsistent i db c (λ e. allowed))
  ]
]

abbrev gone_with : Text → Db → List Peer
gone_with id db = select (λ p. text_eq p.interface_id id) db.peers

-- A log that belongs to no peer that goes belongs to one that stays.
stays :
    (id k : Text) (ps : List Peer)
    → any (λ q. text_eq q.id k) ps ≡ true
    → any (λ p. text_eq p.id k) (select (λ p. text_eq p.interface_id id) ps) ≡ false
    → any (λ q. text_eq q.id k) (delete_where (λ p. text_eq p.interface_id id) ps) ≡ true
unfolding any select delete_where
stays id k [] h e = h
stays id k (p ∷ ps) h e = ground (arith, stays id k ps)

-- A deletion of an interface does, as its peers and their logs go with it.
pub remove_interface-IsConsistent :
    (id : Text) (db : Db) → IsConsistent db → After IsConsistent (remove_interface id true db)
unfolding remove_interface delete_where
remove_interface-IsConsistent id db c = record {
  interface_ids = IsDistinct-select (λ j. j.id) _ db.interfaces c.interface_ids;
  interface_types = every-select _ _ _ db.interfaces (λ j h k. h) c.interface_types;
  peer_ids = IsDistinct-select (λ q. q.id) _ db.peers c.peer_ids;
  public_keys = IsDistinct-select (λ q. q.public_key) _ db.peers c.public_keys;
  peer_types = every-select _ _ _ db.peers (λ q h k. h) c.peer_types;
  peers_belong =
      every-select _ _ _ db.peers
        (λ p h k.
          any-select (λ j. text_eq j.id p.interface_id) (λ j. not (text_eq j.id id)) db.interfaces
            (λ j e. ground (arith, k, text_eq_iff j.id p.interface_id))
          ∙ h)
        c.peers_belong;
  logs_belong =
      every-select _ _ _ db.connection_logs
        (λ l h k. unfold delete_where in stays id l.peer_id db.peers h (ground arith))
        c.logs_belong;
  user_ids = c.user_ids;
  usernames = c.usernames;
  roles = c.roles;
  sessions_belong = c.sessions_belong;
  session_ids = c.session_ids;
  log_ids = IsNumbered-select (λ l. l.id) db.last_log_id _ db.connection_logs c.log_ids;
  log_events = every-select _ _ _ db.connection_logs (λ l h k. h) c.log_events;
  identities = c.identities;
  keyed = c.keyed;
}
