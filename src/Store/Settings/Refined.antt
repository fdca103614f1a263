-- ===== src/Store/Settings/Refined.antt =====
-- The settings of internal/store/store_settings.go as a function from keys to values.
use wgrift.Base.{
  ◌+◌, ◌≡◌, refl, Bool, true, false, some, List, [], ◌∷◌, arith, Text, text_eq, text_eq_iff,
  if◌then◌else◌, Bool-cases, inl, inr,
}
use wgrift.Base.Result.{Result, ok, err}
use wgrift.App.{
  Env, World, Error, ◌>>=◌, ◌>>◌, App, pure, wrapping, query, execute, time_now, attempt, continue,
}
use wgrift.Store.Settings.{setting_of, put_setting, get_setting, set_setting, or_empty}

-- The specification: a setting that was never written is empty.
abbrev pub Settings : Type 0
Settings = Text → Text

abbrev pub read_as : List (Text × Text) → Settings
read_as rows key = or_empty (setting_of key rows)

abbrev pub update : Settings → Text → Text → Settings
update f key value k = if text_eq key k then value else f k

read_as-put_setting :
    (key value : Text) (rows : List (Text × Text)) (k : Text)
    → read_as (put_setting key value rows) k ≡ update (read_as rows) key value k
unfolding put_setting setting_of
read_as-put_setting key value [] k = ground arith
read_as-put_setting key value ((k', v) ∷ rows) k = elim (Bool-cases (text_eq k' key)) [
  | inl same ↦ rw same (rw ((text_eq_iff k' key).0 same) (at_key (text_eq key k)))
  | inr other ↦ elim (Bool-cases (text_eq k' k)) [
    | inl here ↦
        let kept : text_eq key k ≡ false =
          ground (arith, text_eq_iff k' key, text_eq_iff k' k, text_eq_iff key k) in
        rw (other, here, kept) refl
    | inr gone ↦ rw (other, gone) (read_as-put_setting key value rows k)
  ]
]
  where
    at_key :
        (b : Bool)
        → or_empty (if b then some value else setting_of k rows)
          ≡ (if b then value else or_empty (if b then some v else setting_of k rows))
    at_key true = refl
    at_key false = refl

-- The calls of a client.
pub data Call : Type 0 where
  put : (key value : Text) → Call
  get : (key : Text) → Call

abbrev pub call : Call → App Text
call (put key value) = do set_setting key value; pure value
call (get key) = get_setting key

unfoldable pub run : List Call → App (List (Result Error Text))
run [] = pure []
run (c ∷ cs) = do r ← attempt (call c); rs ← run cs; pure (r ∷ rs)

-- What the specification allows: a write updates the function, a read is told its value, and either
-- may fail, which leaves the function as it was.
pub data Allows : Settings → List Call → List (Result Error Text) → Settings → Type 0 where
  done : (f : Settings) → Allows f [] [] f
  written :
      (f g : Settings) (key value : Text) (cs : List Call) (rs : List (Result Error Text))
      → Allows (update f key value) cs rs g
      → Allows f (put key value ∷ cs) (ok value ∷ rs) g
  told :
      (f g : Settings) (key : Text) (cs : List Call) (rs : List (Result Error Text))
      → Allows f cs rs g
      → Allows f (get key ∷ cs) (ok (f key) ∷ rs) g
  failed :
      (f g : Settings) (c : Call) (e : Error) (cs : List Call) (rs : List (Result Error Text))
      → Allows f cs rs g
      → Allows f (c ∷ cs) (err e ∷ rs) g

-- The results of a run and the settings that it leaves.
abbrev pub Ran : Settings → List Call → Result Error (List (Result Error Text)) × World → Type 0
Ran f cs (ok rs, w) = Allows f cs rs (read_as w.db.settings)
Ran f cs (err e, w) = ⊥

-- What one call makes of the settings.
abbrev Stepped : Settings → Call → Result Error Text × World → Type 0
Stepped f c (err e, w) = read_as w.db.settings ≡ f
Stepped f (put key value) (ok v, w) = (v ≡ value) × (read_as w.db.settings ≡ update f key value)
Stepped f (get key) (ok v, w) = (v ≡ f key) × (read_as w.db.settings ≡ f)

call-Stepped : (env : Env) (c : Call) (w : World) → Stepped (read_as w.db.settings) c (call c env w)
unfolding ◌>>=◌ set_setting get_setting wrapping execute query time_now
call-Stepped env (put key value) w = elim (Bool-cases (env.db_fails (w.tick + 1))) [
  | inl down ↦ rw down refl
  | inr up ↦ rw up (refl, λ i k. read_as-put_setting key value w.db.settings k i)
]
call-Stepped env (get key) w = elim (Bool-cases (env.db_fails w.tick)) [
  | inl down ↦ rw down refl
  | inr up ↦ rw up (refl, refl)
]

extended :
    (env : Env) (f : Settings) (c : Call) (cs : List Call) (called : Result Error Text × World)
    (rest : Result Error (List (Result Error Text)) × World)
    → Stepped f c called
    → Ran (read_as called.1.db.settings) cs rest
    → Ran f (c ∷ cs) (continue rest.0 (λ rs. pure (called.0 ∷ rs)) env rest.1)
unfolding ◌>>=◌
extended env f c cs (err e, w) (ok rs, w') same h = failed f _ c e cs rs (rw same at h)
extended env f (put key value) cs (ok v, w) (ok rs, w') (is, same) h =
    rw is (written f _ key value cs rs (rw same at h))
extended env f (get key) cs (ok v, w) (ok rs, w') (is, same) h =
    rw is (told f _ key cs rs (rw same at h))
extended env f c cs called (err e, w') stepped h = absurd h

-- The settings table refines a function from keys to texts: any run of writes and reads, with
-- failures of the store at any point, returns what the function allows, where a write replaces the
-- value of its key and of no other, and a read is told the value last written, or the empty text.
pub run-Ran :
    (env : Env) (cs : List Call) (w : World) → Ran (read_as w.db.settings) cs (run cs env w)
unfolding run ◌>>=◌ attempt
run-Ran env [] w = done _
run-Ran env (c ∷ cs) w =
    extended env (read_as w.db.settings) c cs (call c env w) _ (call-Stepped env c w)
      (run-Ran env cs (call c env w).1)
