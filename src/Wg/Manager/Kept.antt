-- ===== src/Wg/Manager/Kept.antt =====
-- `DeleteInterface` of internal/wg/manager.go: what it asks first, and what it takes away.
use wgrift.Base.{◌≡◌, Bool, true, false, none, [], ◌∷◌, ◌++◌, Text, is_nil}
use wgrift.Base.Result.{Result, ok, err}
use wgrift.App.{World, Error, ◌>>◌, delete}
use wgrift.App.Reads.{Reads}
use wgrift.Store.Db.{Db}
use wgrift.Store.Peers.{select_peers}
use wgrift.Store.Interfaces.{select_interface}

-- What allows a deletion: it is forced, or the interface has no peers.
pub data MayDelete (db : Db) (id : Text) : Bool → Type 0 where
  forced : MayDelete db id true
  has_no_peers : is_nil (select_peers id db) ≡ true → MayDelete db id false

-- The outcomes of a deletion. The kernel is asked to drop the interface only if the deletion may
-- be, and the row is taken away only after that.
pub data Deletion (id : Text) (force : Bool) (w : World)
    : Result Error (Unit {0}) × World → Type 0 where
  kept :
      (e : Error) (w' : World) → w'.db ≡ w.db → w'.calls ≡ w.calls → Deletion id force w (err e, w')
  row_kept :
      (e : Error) (w' : World)
      → MayDelete w.db id force
      → w'.db ≡ w.db
      → w'.calls ≡ w.calls ++ delete id ∷ []
      → Deletion id force w (err e, w')
  deleted :
      (w' : World)
      → MayDelete w.db id force
      → select_interface id w'.db ≡ none
      → w'.calls ≡ w.calls ++ delete id ∷ []
      → Deletion id force w (ok tt, w')
