-- ===== src/App/Reads.antt =====
-- Actions that only read: they leave the tables and the system alone, and what they return is told
-- by the tables and the answers of the environment.
use Prim.Native.String.{String}
use wgrift.Base.{
  ℕ, ◌+◌, ◌≡◌, refl, ◌∙◌, Bool, true, false, Option, none, some, if◌then◌else◌, Bool-cases, inl,
  inr,
}
use wgrift.Base.Result.{Result, ok, err}
use wgrift.Store.Db.{Db}
use wgrift.App.{
  Env, World, App, Error, pure, fail, ◌>>=◌, wrapping, wrap_error, query, external_call,
  or_external, net_exists, time_now, new_uuid, continue,
}

-- The result of an action that only read, in the world it started from.
abbrev pub Told : {A : Type 0} → (A → Type 0) → World → Result Error A × World → Type 0
Told P w (ok a, w') = P a × (w'.db ≡ w.db) × (w'.calls ≡ w.calls)
Told P w (err e, w') = (w'.db ≡ w.db) × (w'.calls ≡ w.calls)

-- `m` only reads, and from the tables `db` it returns nothing but what `P` admits.
pub record Reads (env : Env) (db : Db) {A : Type 0} (P : A → Type 0) (m : App A) : Type 0 where
  pub at : (w : World) → w.db ≡ db → Told P w (m env w)

Told-or_external :
    (env : Env) {A : Type 0} (P : A → Type 0) (w : World) (r : Option A)
    → ((a : A) → r ≡ some a → P a)
    → Told P w (or_external r, record w { tick = w.tick + 1 })
Told-or_external env P w none h = (refl, refl)
Told-or_external env P w (some a) h = (h a refl, refl, refl)

Told-wrapped :
    {A : Type 0} (P : A → Type 0) (text : String) (w : World) (r : Result Error A × World)
    → Told P w r
    → Told P w (wrap_error text r.0, r.1)
Told-wrapped P text w (ok a, w') h = h
Told-wrapped P text w (err e, w') h = h

Told-continued :
    (env : Env) {A B : Type 0} (P : A → Type 0) (Q : B → Type 0) (w : World)
    (r : Result Error A × World) (f : A → App B)
    → Told P w r
    → ((a : A) (w' : World) → P a → w'.db ≡ w.db → Told Q w' (f a env w'))
    → Told Q w (continue r.0 f env r.1)
Told-continued env P Q w (err e, w') f h then' = h
Told-continued env P Q w (ok a, w') f (pa, db, calls) then' =
    moved Q w w' (f a env w') db calls (then' a w' pa db)
  where
    moved :
        {B : Type 0} (Q : B → Type 0) (w w' : World) (s : Result Error B × World)
        → w'.db ≡ w.db
        → w'.calls ≡ w.calls
        → Told Q w' s
        → Told Q w s
    moved Q w w' (ok b, w'') db calls (qb, d, c) = (qb, d ∙ db, c ∙ calls)
    moved Q w w' (err e, w'') db calls (d, c) = (d ∙ db, c ∙ calls)

module _ {env : Env} {db : Db} where
  pub Reads-pure : {A : Type 0} (P : A → Type 0) (a : A) → P a → Reads env db P (pure a)
  unfolding pure
  Reads-pure P a h = record { at = λ w e. (h, refl, refl) }

  pub Reads-fail : {A : Type 0} (P : A → Type 0) (e : Error) → Reads env db P (fail e)
  unfolding fail
  Reads-fail P e = record { at = λ w h. (refl, refl) }

  pub Reads-query : {A : Type 0} (P : A → Type 0) (f : Db → A) → P (f db) → Reads env db P (query f)
  unfolding query
  Reads-query P f h = record {
    at = λ w e. elim (Bool-cases (env.db_fails w.tick)) [
      | inl down ↦ rw down (refl, refl)
      | inr up ↦ rw (up, e) (h, refl, refl)
    ];
  }

  pub Reads-external_call :
      {A : Type 0} (P : A → Type 0) (f : Env → ℕ → Option A)
      → ((t : ℕ) (a : A) → f env t ≡ some a → P a)
      → Reads env db P (external_call f)
  unfolding external_call
  Reads-external_call P f h = record {
    at = λ w e. Told-or_external env P w (f env w.tick) (h w.tick);
  }

  pub Reads-time_now : Reads env db (λ t. Unit) time_now
  unfolding time_now
  Reads-time_now = record { at = λ w e. (tt, refl, refl) }

  -- A time that the clock told.
  pub Reads-clock : Reads env db (λ now. (t : ℕ) × (now ≡ env.clock t)) time_now
  unfolding time_now
  Reads-clock = record { at = λ w e. ((w.tick, refl), refl, refl) }

  pub Reads-new_uuid : Reads env db (λ t. Unit) new_uuid
  unfolding new_uuid
  Reads-new_uuid = record { at = λ w e. (tt, refl, refl) }

  pub Reads-net_exists : Reads env db (λ b. Unit) net_exists
  unfolding net_exists
  Reads-net_exists = record {
    at = λ w e. elim (Bool-cases (env.net_fails w.tick)) [
      | inl down ↦ rw down (refl, refl)
      | inr up ↦ rw up (tt, refl, refl)
    ];
  }

  -- What the system told when it was asked.
  pub Reads-net_exists_told : Reads env db (λ b. (t : ℕ) × (env.net_exists t ≡ b)) net_exists
  unfolding net_exists
  Reads-net_exists_told = record {
    at = λ w e. elim (Bool-cases (env.net_fails w.tick)) [
      | inl down ↦ rw down (refl, refl)
      | inr up ↦ rw up ((w.tick, refl), refl, refl)
    ];
  }

  pub Reads-wrapping :
      {A : Type 0} (P : A → Type 0) (text : String) (m : App A)
      → Reads env db P m
      → Reads env db P (wrapping text m)
  unfolding wrapping
  Reads-wrapping P text m h = record { at = λ w e. Told-wrapped P text w (m env w) (h.at w e) }

  pub Reads-bind :
      {A B : Type 0} (P : A → Type 0) (Q : B → Type 0) (m : App A) (f : A → App B)
      → Reads env db P m
      → ((a : A) → P a → Reads env db Q (f a))
      → Reads env db Q (m >>= f)
  unfolding ◌>>=◌
  Reads-bind P Q m f h then' = record {
    at = λ w e.
        Told-continued env P Q w (m env w) f (h.at w e)
          (λ a w' pa same. (then' a pa).at w' (same ∙ e));
  }

  pub Reads-if :
      {A : Type 0} (P : A → Type 0) (b : Bool) (m n : App A)
      → (b ≡ true → Reads env db P m)
      → (b ≡ false → Reads env db P n)
      → Reads env db P (if b then m else n)
  Reads-if P true m n hm hn = hm refl
  Reads-if P false m n hm hn = hn refl

told_then :
    (env : Env) {A B : Type 0} (P : A → Type 0) (Q : Result Error B × World → Type 0) (w : World)
    (r : Result Error A × World) (f : A → App B)
    → Told P w r
    → ((e : Error) (w' : World) → w'.db ≡ w.db → w'.calls ≡ w.calls → Q (err e, w'))
    → ((a : A) (w' : World) → P a → w'.db ≡ w.db → w'.calls ≡ w.calls → Q (f a env w'))
    → Q (continue r.0 f env r.1)
told_then env P Q w (ok a, w') f (pa, db, calls) failed then' = then' a w' pa db calls
told_then env P Q w (err e, w') f (db, calls) failed then' = failed e w' db calls

-- What follows an action that only read starts with the same tables and the same calls.
pub Reads-then :
    {env : Env} {A B : Type 0} (P : A → Type 0) (Q : Result Error B × World → Type 0) (w : World)
    (m : App A) (f : A → App B)
    → Reads env w.db P m
    → ((e : Error) (w' : World) → w'.db ≡ w.db → w'.calls ≡ w.calls → Q (err e, w'))
    → ((a : A) (w' : World) → P a → w'.db ≡ w.db → w'.calls ≡ w.calls → Q (f a env w'))
    → Q ((m >>= f) env w)
unfolding ◌>>=◌
Reads-then {env} P Q w m f h failed then' =
    told_then env P Q w (m env w) f (h.at w refl) failed then'
