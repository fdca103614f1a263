-- ===== src/Store/Logs/Durations.antt =====
-- The durations of `computeLogDurations` in internal/store/store_logs.go.
use wgrift.Base.{
  ℤ, pos, negsuc, ◌≤◌, ◌≡◌, refl, ap, true, ◌&&◌, Option, none, some, List, [], ◌∷◌, map, arith,
  Text, text_eq, leb, All, inl, inr, Bool-cases,
}
use wgrift.Models.{Time, ConnectionLog}
use wgrift.Store.Logs.{
  connected, disconnected, seconds_between, matching_connect, with_duration, compute_log_durations,
}

-- The latest entry first, as the queries return them.
abbrev pub IsDescending : List ConnectionLog → Type 0
IsDescending [] = Unit
IsDescending (l ∷ ls) = All (λ m. m.recorded_at ≤ l.recorded_at) ls × IsDescending ls

abbrev pub IsNonNegative : ℤ → Type 0
IsNonNegative (pos n) = Unit
IsNonNegative (negsuc n) = ⊥

abbrev pub without_duration : ConnectionLog → ConnectionLog
without_duration l = record l { duration = pos 0 }

matching_connect-le :
    (id : Text) (t u : Time) (ls : List ConnectionLog)
    → All (λ m. m.recorded_at ≤ t) ls
    → matching_connect id ls ≡ some u
    → u ≤ t
unfolding matching_connect
matching_connect-le id t u [] h e = ground arith
matching_connect-le id t u (l ∷ ls) h e =
    elim (Bool-cases (text_eq l.peer_id id && text_eq l.event connected)) [
      | inl yes' ↦ ground (arith, h.0)
      | inr no' ↦ matching_connect-le id t u ls h.1 (rw no' at e)
    ]

seconds_between-IsNonNegative : (a b : Time) → b ≤ a → IsNonNegative (seconds_between a b)
unfolding seconds_between
seconds_between-IsNonNegative a b h = let le : leb b a ≡ true = ground arith in rw le tt

with_duration-IsNonNegative :
    (l : ConnectionLog) (found : Option Time)
    → IsNonNegative l.duration
    → ((t : Time) → found ≡ some t → t ≤ l.recorded_at)
    → IsNonNegative (with_duration l found).duration
with_duration-IsNonNegative l none h le = h
with_duration-IsNonNegative l (some t) h le =
    seconds_between-IsNonNegative l.recorded_at t (le t refl)

with_duration-same :
    (l : ConnectionLog) (found : Option Time)
    → without_duration (with_duration l found) ≡ without_duration l
with_duration-same l none = refl
with_duration-same l (some t) = refl

-- In a list with the latest entry first, no duration is negative, and nothing but the durations
-- changes.
pub compute_log_durations-IsNonNegative :
    (ls : List ConnectionLog)
    → IsDescending ls
    → All (λ l. IsNonNegative l.duration) ls
    → All (λ l. IsNonNegative l.duration) (compute_log_durations ls)
      × (map without_duration (compute_log_durations ls) ≡ map without_duration ls)
unfolding compute_log_durations
compute_log_durations-IsNonNegative [] d h = (tt, refl)
compute_log_durations-IsNonNegative (l ∷ ls) d h =
    let (nonneg, same) = compute_log_durations-IsNonNegative ls d.1 h.1 in
    elim (Bool-cases (text_eq l.event disconnected)) [
      | inl yes' ↦
          rw (yes', same)
            (
              (
                with_duration-IsNonNegative l (matching_connect l.peer_id ls) h.0
                    (λ t e. matching_connect-le l.peer_id l.recorded_at t ls d.0 e),
                nonneg,
              ),
              ap (λ x. x ∷ map without_duration ls)
                  (with_duration-same l (matching_connect l.peer_id ls)),
            )
      | inr no' ↦ rw (no', same) ((h.0, nonneg), refl)
    ]
