-- ===== src/Server/Answers.antt =====
-- The answers of the handlers of internal/server: the status and the cookie of a response.
pub mod Rows
pub mod Settings
use Prim.Native.String.{String}
use wgrift.Base.{
  leb, ◌==◌, ◌||◌, ◌⊎◌, inl, inr, ◌≡◌, refl, Bool, true, false, Option, none, some, Text, is_nil,
  if◌then◌else◌, ℕ,
}
use wgrift.Base.Result.{Result, ok, err}
use wgrift.App.{
  Env, World, App, Error, pure, ◌>>=◌, attempt, cached, set_cache, external_call, or_external,
}
use wgrift.App.External.{OidcCache}
use wgrift.App.Total.{Total, Returns, Total-pure, Total-attempt, Total-bind, Total-if}
use wgrift.Server.{Server, Request, external_url, setting_or_blank}
use wgrift.Server.Peers.{ip_taken}
use wgrift.Server.Response.{
  Response, Body, Cookie, Payload, json, json_list, json_error, config_file, image, redirect,
  response, write_json_list, write_error, write_validation_error, answering, unless_error,
  or_not_found,
}

-- An action of a handler that goes on, whatever it returns.
abbrev pub Runs : Env → {A : Type 0} → App A → Type 0
Runs env m = Total env (λ a. Unit) m

-- The status and the cookie that go with a body: an error has a status of 400 or more and sets no
-- cookie, but for the validation error, whose status is 200; what was asked for comes with 200, or
-- with 201 for a new row, and a redirection is a 302.
abbrev pub Fits : ℕ → Option Cookie → Body → Type 0
Fits status cookie (json v) = (status == 200 || status == 201) ≡ true
Fits status cookie (json_list v total) = status ≡ 200
Fits status cookie (json_error e) =
    (cookie ≡ none) × ((leb 400 status ≡ true) ⊎ ((status ≡ 200) × (e ≡ ip_taken)))
Fits status cookie (config_file text name) = status ≡ 200
Fits status cookie (image png) = status ≡ 200
Fits status cookie (redirect url) = status ≡ 302

abbrev pub IsAnswer : Response → Type 0
IsAnswer resp = Fits resp.status resp.cookie resp.body

-- The handler returns a response, whose status fits its body.
abbrev pub Answers : Env → App Response → Type 0
Answers env m = Total env IsAnswer m

module _ {env : Env} where
  Total-unless_error :
      {A : Type 0} (Q : Response → Type 0) (failed : Error → App Response) (r : Result Error A)
      (next : A → App Response)
      → ((e : Error) → Total env Q (failed e))
      → ((a : A) → Total env Q (next a))
      → Total env Q (unless_error failed r next)
  Total-unless_error Q failed (ok a) next he ha = ha a
  Total-unless_error Q failed (err e) next he ha = he e

  -- A handler that goes on behind a call answers if both of its branches do.
  pub Total-answering :
      {A : Type 0} (Q : Response → Type 0) (failed : Error → App Response) (m : App A)
      (next : A → App Response)
      → ((e : Error) → Total env Q (failed e))
      → ((a : A) → Total env Q (next a))
      → Total env Q (answering failed m next)
  unfolding answering
  Total-answering Q failed m next he ha =
      Total-bind (λ r. Unit) _ _ _ (Total-attempt m)
        (λ r u. Total-unless_error Q failed r next he ha)

  pub setting_or_blank-Total : (key : Text) → Total env (λ v. Unit) (setting_or_blank key)
  unfolding setting_or_blank
  setting_or_blank-Total key =
      Total-bind (λ r. Unit) _ _ _ (Total-attempt _) (λ r u. Total-pure _ _ tt)

  pub external_url-Total : (s : Server) (r : Request) → Total env (λ url. Unit) (external_url s r)
  unfolding external_url
  external_url-Total s r =
      Total-bind (λ r. Unit) _ _ _ (setting_or_blank-Total _) (λ url u. Total-pure _ _ tt)

  pub Runs-pure : {A : Type 0} (a : A) → Runs env (pure a)
  Runs-pure a = Total-pure _ a tt

  pub Runs-bind :
      {A B : Type 0} (m : App A) (f : A → App B)
      → Runs env m
      → ((a : A) → Runs env (f a))
      → Runs env (m >>= f)
  Runs-bind m f hm hf = Total-bind (λ a. Unit) _ m f hm (λ a u. hf a)

  pub Runs-if :
      {A : Type 0} (b : Bool) (m n : App A)
      → Runs env m
      → Runs env n
      → Runs env (if b then m else n)
  Runs-if b m n hm hn = Total-if _ b m n (λ h. hm) (λ h. hn)

  pub Answers-payload :
      (status : ℕ) (v : Payload) (cookie : Option Cookie)
      → (status == 200 || status == 201) ≡ true
      → Answers env (pure (record { status = status; body = json v; cookie = cookie }))
  Answers-payload status v cookie h = Total-pure IsAnswer _ h

  pub Answers-list : (v : Payload) (total : ℕ) → Answers env (write_json_list 200 v total)
  Answers-list v total = Total-pure IsAnswer _ refl

  pub Answers-error :
      (status : ℕ) (e : Error) → leb 400 status ≡ true → Answers env (write_error status e)
  Answers-error status e h = Total-pure IsAnswer _ (refl, inl h)

  pub Answers-validation_error : Answers env (write_validation_error ip_taken)
  Answers-validation_error = Total-pure IsAnswer _ (refl, inr (refl, refl))

  pub Answers-config :
      (conf name : Text) → Answers env (pure (response 200 (config_file conf name)))
  Answers-config conf name = Total-pure IsAnswer _ refl

  pub Answers-image : (png : Text) → Answers env (pure (response 200 (image png)))
  Answers-image png = Total-pure IsAnswer _ refl

  pub Answers-redirect :
      (url : Text) (cookie : Option Cookie)
      → Answers env (pure (record { status = 302; body = redirect url; cookie = cookie }))
  Answers-redirect url cookie = Total-pure IsAnswer _ refl

  pub Answers-bind :
      {A : Type 0} (m : App A) (f : A → App Response)
      → Runs env m
      → ((a : A) → Answers env (f a))
      → Answers env (m >>= f)
  Answers-bind m f hm hf = Total-bind (λ a. Unit) _ m f hm (λ a u. hf a)

  pub Answers-if :
      (b : Bool) (m n : App Response)
      → Answers env m
      → Answers env n
      → Answers env (if b then m else n)
  Answers-if b m n hm hn = Total-if _ b m n (λ h. hm) (λ h. hn)

  pub Runs-cached : {A : Type 0} (f : OidcCache → A) → Runs env (cached f)
  unfolding cached
  Runs-cached f = record { at = λ w. tt }

  pub Runs-set_cache : (cache : OidcCache) → Runs env (set_cache cache)
  unfolding set_cache
  Runs-set_cache cache = record { at = λ w. tt }

  -- A call of a library function that cannot fail.
  pub Runs-external_call :
      {A : Type 0} (f : Env → ℕ → A) → Runs env (external_call (λ env t. some (f env t)))
  unfolding external_call
  Runs-external_call f = record { at = λ w. tt }

  pub Answers-answering :
      {A : Type 0} (failed : Error → App Response) (m : App A) (next : A → App Response)
      → ((e : Error) → Answers env (failed e))
      → ((a : A) → Answers env (next a))
      → Answers env (answering failed m next)
  Answers-answering failed m next he ha = Total-answering _ failed m next he ha

  pub Answers-unless_error :
      {A : Type 0} (failed : Error → App Response) (r : Result Error A) (next : A → App Response)
      → ((e : Error) → Answers env (failed e))
      → ((a : A) → Answers env (next a))
      → Answers env (unless_error failed r next)
  Answers-unless_error failed r next he ha = Total-unless_error _ failed r next he ha

  pub Answers-or_not_found :
      {A : Type 0} (text : String) (found : Option A) (next : A → App Response)
      → ((a : A) → Answers env (next a))
      → Answers env (or_not_found text found next)
  Answers-or_not_found text none next h = Answers-error _ _ refl
  Answers-or_not_found text (some a) next h = h a

pub ruleset answers_rules = (
  Answers-payload, Answers-list, Answers-error, Answers-validation_error, Answers-config,
  Answers-image, Answers-redirect, Answers-bind, Answers-if, Answers-answering,
  Answers-unless_error, Answers-or_not_found, Runs-pure, Runs-bind, Runs-if, Runs-cached,
  Runs-set_cache, Runs-external_call, Total-attempt, setting_or_blank-Total, external_url-Total,
  refl,
)
