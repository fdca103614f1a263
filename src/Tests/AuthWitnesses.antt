-- ===== src/Tests/AuthWitnesses.antt =====
-- The theorems on authentication at concrete stores.
use wgrift.Base.{[], ◌∷◌, codes}
use wgrift.Store.Db.{Db, empty_db}
use wgrift.Auth.{Service, validate_session, create_initial_admin}
use wgrift.Auth.Sessions.{Validation, validate_session-Validation}
use wgrift.Auth.Setup.{Setup, create_initial_admin-Setup}
use wgrift.Tests.Fixtures.{calm, root_user, world_of}

abbrev service : Service
service = record { session_timeout = 100; max_session_age = 1000; min_password_length = 8 }

abbrev logged_in : Db
logged_in = record empty_db {
  users = record root_user { id = codes "u1" } ∷ [];
  sessions =
      record {
        id = codes "s1";
        user_id = codes "u1";
        csrf_token = codes "t";
        expires_at = 500;
        created_at = 5;
        last_seen_at = 5;
        ip_address = [];
        user_agent = [];
      }
      ∷ [];
}

validate_session-Validation_example :
    Validation calm service
      (codes "s1")
      (world_of logged_in)
      (validate_session service (codes "s1") calm (world_of logged_in))
validate_session-Validation_example =
    validate_session-Validation calm service (codes "s1") (world_of logged_in)

create_initial_admin-Setup_example :
    Setup service
      (codes "root")
      (codes "correct horse")
      (world_of empty_db)
      (create_initial_admin service (codes "root") (codes "correct horse") calm (world_of empty_db))
create_initial_admin-Setup_example =
    create_initial_admin-Setup calm service (codes "root") (codes "correct horse")
      (world_of empty_db)
