-- ===== src/Wg/Sync/Pushed.antt =====
-- What `SyncInterface` of internal/wg/manager.go does with a configuration.
use mathlib.Core.List.{append_assoc}
use wgrift.Base.{
  ℕ, ◌+◌, ◌≡◌, refl, ap, ◌∙◌, Bool, true, false, List, [], ◌∷◌, ◌++◌, Text, inl, inr, Bool-cases,
}
use wgrift.Base.Result.{Result, ok, err}
use wgrift.App.{
  Env, World, Error, NetCall, ◌>>=◌, wrapping, net_call, attempt, sync_conf, save_conf, quick_up,
}
use wgrift.Confgen.Generate.{ServerConfParams, generate_server_conf, generate_stripped_conf}
use wgrift.Wg.Sync.{apply_conf}

-- The calls that an action added.
pub record Added (w w' : World) (calls : List NetCall) : Type 0 where
  pub same_db : w'.db ≡ w.db
  pub added : w'.calls ≡ w.calls ++ calls

-- The last call failed.
abbrev NetFailed : Env → World → Type 0
NetFailed env w = (k : ℕ) × (w.tick ≡ k + 1) × (env.net_fails k ≡ true)

-- What a sync did with a configuration, by whether the interface was told to be running: a running
-- one is given the stripped file, and only one that is not is brought up; the full file is saved
-- behind the one and before the other.
pub data Pushed (env : Env) (id : Text) (params : ServerConfParams) (w : World)
    : Bool → Result Error (Unit {0}) × World → Type 0 where
  reloaded :
      (w' : World)
      → Added w w' (
          sync_conf id (generate_stripped_conf params)
          ∷ save_conf id (generate_server_conf params)
          ∷ [])
      → Pushed env id params w true (ok tt, w')
  reload_failed :
      (e : Error) (w' : World)
      → Added w w' (sync_conf id (generate_stripped_conf params) ∷ [])
      → NetFailed env w'
      → Pushed env id params w true (err e, w')
  started :
      (w' : World)
      → Added w w' (save_conf id (generate_server_conf params) ∷ quick_up id ∷ [])
      → Pushed env id params w false (ok tt, w')
  save_failed :
      (e : Error) (w' : World)
      → Added w w' (save_conf id (generate_server_conf params) ∷ [])
      → NetFailed env w'
      → Pushed env id params w false (err e, w')
  start_failed :
      (e : Error) (w' : World)
      → Added w w' (save_conf id (generate_server_conf params) ∷ quick_up id ∷ [])
      → NetFailed env w'
      → Pushed env id params w false (err e, w')

added_two : (w : World) (a b : NetCall) → (w.calls ++ a ∷ []) ++ b ∷ [] ≡ w.calls ++ (a ∷ b ∷ [])
added_two w a b = append_assoc w.calls (a ∷ []) (b ∷ [])

pub apply_conf-Pushed :
    (env : Env) (id : Text) (params : ServerConfParams) (running : Bool) (w : World)
    → Pushed env id params w running (apply_conf id params running env w)
unfolding apply_conf ◌>>=◌ net_call wrapping attempt
apply_conf-Pushed env id params true w = elim (Bool-cases (env.net_fails w.tick)) [
  | inl bad ↦
      rw bad (reload_failed _ _ (record { same_db = refl; added = refl }) (w.tick, refl, bad))
  | inr good ↦ rw good (reloaded _ (record { same_db = refl; added = added_two w _ _ }))
]
apply_conf-Pushed env id params false w = elim (Bool-cases (env.net_fails w.tick)) [
  | inl bad ↦ rw bad (save_failed _ _ (record { same_db = refl; added = refl }) (w.tick, refl, bad))
  | inr good ↦ elim (Bool-cases (env.net_fails (w.tick + 1))) [
    | inl bad ↦
        rw (good, bad)
          (start_failed _ _ (record { same_db = refl; added = added_two w _ _ })
            (w.tick + 1, refl, bad))
    | inr up ↦ rw (good, up) (started _ (record { same_db = refl; added = added_two w _ _ }))
  ]
]

-- Two worlds with the same tables and calls have the same outcomes.
pub Added-moved :
    (w v w' : World) (cs : List NetCall)
    → v.db ≡ w.db
    → v.calls ≡ w.calls
    → Added v w' cs
    → Added w w' cs
Added-moved w v w' cs db calls h = record {
  same_db = h.same_db ∙ db;
  added = h.added ∙ ap (λ c. c ++ cs) calls;
}

pub Pushed-moved :
    (env : Env) (id : Text) (params : ServerConfParams) (w v : World) (running : Bool)
    (r : Result Error (Unit {0}) × World)
    → v.db ≡ w.db
    → v.calls ≡ w.calls
    → Pushed env id params v running r
    → Pushed env id params w running r
Pushed-moved env id params w v _ _ db calls (reloaded w' a) =
    reloaded w' (Added-moved w v w' _ db calls a)
Pushed-moved env id params w v _ _ db calls (reload_failed e w' a f) =
    reload_failed e w' (Added-moved w v w' _ db calls a) f
Pushed-moved env id params w v _ _ db calls (started w' a) =
    started w' (Added-moved w v w' _ db calls a)
Pushed-moved env id params w v _ _ db calls (save_failed e w' a f) =
    save_failed e w' (Added-moved w v w' _ db calls a) f
Pushed-moved env id params w v _ _ db calls (start_failed e w' a f) =
    start_failed e w' (Added-moved w v w' _ db calls a) f
