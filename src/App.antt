-- ===== src/App.antt =====
-- Methods that talk to the database, the clock, the kernel and the cryptographic libraries. The
-- environment answers: every call reads its answer at the current tick, and moves the tick on, so
-- a theorem for all environments covers every answer and every failure at every point. What was
-- written before an error stays written: the world comes back beside the error too.
pub mod External
pub mod Keeps
pub mod Reads
pub mod Total
pub mod Yields
use Prim.Native.String.{String}
use wgrift.Base.{
  ℕ, ℤ, ◌+◌, ◌≡◌, refl, Bool, true, false, Option, none, some, List, [], ◌∷◌, ◌++◌, Text,
  if◌then◌else◌,
}
use wgrift.Base.Result.{Result, ok, err}
use wgrift.Models.{Time}
use wgrift.Store.Db.{Db, Constraint}
use wgrift.App.External.{OauthConfig, ResolvedProvider, OidcCache, IdToken}

-- A peer of `wgctrl`'s device: the zero time stands for no handshake, and the endpoint is the text
-- of its address.
pub record LivePeer : Type 0 where
  pub public_key : Text
  pub last_handshake : Time
  pub receive_bytes : ℤ
  pub transmit_bytes : ℤ
  pub endpoint : Option Text

-- What the code calls and does not implement. Failures of the database driver, the pooled
-- connection's foreign key pragma, and the calls of the operating system are told by tick.
pub record Env : Type 0 where
  pub clock : ℕ → Time
  pub uuid : ℕ → Text
  pub db_fails : ℕ → Bool
  pub foreign_keys : ℕ → Bool
  pub encrypt : ℕ → Text → Option Text
  pub decrypt : Text → Option Text
  -- a private key and its public key
  pub generate_key_pair : ℕ → Option (Text × Text)
  pub generate_preshared_key : ℕ → Option Text
  pub public_key : Text → Option Text
  pub random_token : ℕ → Option Text
  pub hash_password : ℕ → Text → Option Text
  pub check_password : Text → Text → Bool
  pub net_fails : ℕ → Bool
  pub net_exists : ℕ → Bool
  -- the peers that the kernel has for an interface
  pub device : ℕ → Text → Option (List LivePeer)
  -- the endpoint that the discovery finds for an issuer
  pub discover : ℕ → Text → Option Text
  -- `AuthCodeURL` with a state and a nonce
  pub auth_code_url : OauthConfig → Text → Text → Text
  -- the answer to a code, and the identity token in it
  pub exchange : ℕ → OauthConfig → Text → Option (Option Text)
  pub verify_id_token : ℕ → ResolvedProvider → Text → Option IdToken
  -- whether `net/mail` reads an address
  pub parse_address : Text → Bool
  pub read_file : ℕ → Text → Option Text
  pub getenv : Text → Text
  -- `unicode.ToLower`, a table of the language's library
  pub to_lower : ℕ → ℕ
  pub qr_png : Text → Option Text
  -- a message to an address that the mail server took
  pub send_mail : ℕ → Text → Bool

-- The calls of a `NetManager` that change the system.
pub data NetCall : Type 0 where
  set_down delete quick_up quick_down : Text → NetCall
  sync_conf save_conf : Text → Text → NetCall

pub record World : Type 0 where
  pub db : Db
  pub tick : ℕ
  -- the calls made so far, the latest last
  pub calls : List NetCall
  pub oidc : OidcCache

-- Errors keep the message of `fmt.Errorf`, and the error that `%w` wraps.
pub data Error : Type 0 where
  message : String → Error
  message_about : String → Text → Error
  wrapped : String → Error → Error
  driver : Error
  violated : Constraint → Error
  external : Error

abbrev pub App : Type 0 → Type 0
App A = Env → World → Result Error A × World

module _ {A : Type 0} where
  pub pure : A → App A
  pure a env w = (ok a, w)

  pub fail : Error → App A
  fail e env w = (err e, w)

abbrev pub continue : {A B : Type 0} → Result Error A → (A → App B) → App B
continue (ok a) f env w = f a env w
continue (err e) f env w = (err e, w)

infixl 10 ◌>>=◌ ◌>>◌
-- Opening this opens `pure` and `fail` too.
unfoldable pub ◌>>=◌ : {A B : Type 0} → App A → (A → App B) → App B
unfolding pure fail
◌>>=◌ m f env w = let (r, w') = m env w in continue r f env w'

abbrev pub ◌>>◌ : {A B : Type 0} → App A → App B → App B
m >> n = m >>= λ _. n

abbrev pub wrap_error : {A : Type 0} → String → Result Error A → Result Error A
wrap_error text (ok a) = ok a
wrap_error text (err e) = err (wrapped text e)

-- `if err != nil { return fmt.Errorf("text: %w", err) }` behind a call.
unfoldable pub wrapping : {A : Type 0} → String → App A → App A
wrapping text m env w = let (r, w') = m env w in (wrap_error text r, w')

-- `_ = call`, and `if err := call; err != nil` where the branch goes on.
unfoldable pub attempt : {A : Type 0} → App A → App (Result Error A)
attempt m env w = let (r, w') = m env w in (ok r, w')

abbrev advance : World → World
advance w = record w { tick = w.tick + 1 }

unfoldable pub time_now : App Time
time_now env w = (ok (env.clock w.tick), advance w)

unfoldable pub new_uuid : App Text
new_uuid env w = (ok (env.uuid w.tick), advance w)

-- A SELECT.
unfoldable pub query : {A : Type 0} → (Db → A) → App A
query f env w = (if env.db_fails w.tick then err driver else ok (f w.db), advance w)

abbrev pub executed : World → Result Constraint Db → Result Error (Unit {0}) × World
executed w (ok db) = (ok tt, record w { db = db; tick = w.tick + 1 })
executed w (err c) = (err (violated c), advance w)

-- A statement that writes. It is told whether its connection enforces foreign keys; one that
-- violates a constraint, or that the driver fails, changes nothing.
unfoldable pub execute : (Bool → Db → Result Constraint Db) → App (Unit {0})
execute f env w =
    if env.db_fails w.tick
    then (err driver, advance w)
    else executed w (f (env.foreign_keys w.tick) w.db)

abbrev pub or_external : {A : Type 0} → Option A → Result Error A
or_external none = err external
or_external (some a) = ok a

-- A call of a library that may fail.
unfoldable pub external_call : {A : Type 0} → (Env → ℕ → Option A) → App A
external_call f env w = (or_external (f env w.tick), advance w)

-- A call that changes the system, and whether it failed.
unfoldable pub net_call : NetCall → App (Unit {0})
net_call call env w = (
  if env.net_fails w.tick then err external else ok tt,
  record w { tick = w.tick + 1; calls = w.calls ++ call ∷ [] },
)

unfoldable pub net_exists : App Bool
net_exists env w =
    (if env.net_fails w.tick then err external else ok (env.net_exists w.tick), advance w)

-- A read of the OIDC service's state under its lock, and a write.
unfoldable pub cached : {A : Type 0} → (OidcCache → A) → App A
cached f env w = (ok (f w.oidc), w)

unfoldable pub set_cache : OidcCache → App (Unit {0})
set_cache cache env w = (ok tt, record w { oidc = cache })
