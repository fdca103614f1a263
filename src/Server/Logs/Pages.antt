-- ===== src/Server/Logs/Pages.antt =====
-- The pages that internal/server/handler_logs.go answers with.
use Prim.Native.Nat.{zero}
use wgrift.Base.{
  ℕ, ℤ, pos, negsuc, suc, ◌≤◌, ◌≡◌, refl, Option, none, some, List, [], ◌∷◌, arith, Text, atoi, map,
  length, take, Bool,
}
use wgrift.Base.Result.{Result, ok, err}
use wgrift.Models.{ConnectionLog}
use wgrift.App.{Env, Error}
use wgrift.App.Yields.{
  Yields, Returned, Yields-pure, Yields-any, Yields-query, Yields-wrapping, Yields-bind,
  Yields-attempt,
}
use wgrift.Store.Logs.{list_logs, list_connection_logs, select_logs, compute_log_durations}
use wgrift.Server.Response.{
  Body, json_list, json_error, the_logs, answering, unless_error, write_json_list, its_error,
}
use wgrift.Server.Logs.{limit_or, parse_pagination, handle_interface_logs}

limit_or-bounds : (n : Option ℤ) → (1 ≤ limit_or 50 n) × (limit_or 50 n ≤ 200)
limit_or-bounds none = ground arith
limit_or-bounds (some (pos n)) = ground arith
limit_or-bounds (some (negsuc n)) = ground arith

length-map-take : {A B : Type 0} (f : A → B) (n : ℕ) (xs : List A) → length (map f (take n xs)) ≤ n
length-map-take f zero xs = ground arith
length-map-take f (suc n) [] = ground arith
length-map-take f (suc n) (x ∷ xs) = ground (arith, length-map-take f n xs)

length-compute_log_durations :
    (ls : List ConnectionLog) → length (compute_log_durations ls) ≡ length ls
unfolding compute_log_durations
length-compute_log_durations [] = refl
length-compute_log_durations (l ∷ ls) = ground (arith, length-compute_log_durations ls)

-- A page of no more than `most` entries, or an error.
abbrev pub IsPage : ℕ → Body → Type 0
IsPage most (json_list (the_logs ls) total) = length ls ≤ most
IsPage most (json_error e) = Unit
IsPage most _ = ⊥

module _ {env : Env} where
  list_logs-Yields :
      (p : ConnectionLog → Bool) (limit offset : ℕ)
      → Yields env (λ found. length found.0 ≤ limit) (list_logs p limit offset)
  unfolding list_logs select_logs
  list_logs-Yields p limit offset =
      Yields-bind (λ total. Unit) _ _ _ (Yields-any _)
        (λ total u.
          Yields-bind (λ ls. length ls ≤ limit) _ _ _
            (Yields-wrapping _ _ _ (Yields-query _ _ (λ db. length-map-take _ limit _)))
            (λ ls h.
              let same = length-compute_log_durations ls in
              let short : length (compute_log_durations ls) ≤ limit = rw same h in
              Yields-pure _ (compute_log_durations ls, total) short))

  paged :
      (most : ℕ) (r : Result Error (List ConnectionLog × ℕ))
      → Returned (λ found. length found.0 ≤ most) r
      → Yields env
          (λ resp. IsPage most resp.body)
          (unless_error (its_error 500) r (λ found. write_json_list 200 (the_logs found.0) found.1))
  paged most (ok found) h = Yields-pure _ _ h
  paged most (err e) h = Yields-pure _ _ tt

-- Whatever limit and offset a query has, a page of an interface's log has at most the limit that is
-- taken from it, which is between 1 and 200.
pub handle_interface_logs-Yields :
    (env : Env) (iface_id limit offset : Text)
    → (1 ≤ (parse_pagination limit offset).0)
      × ((parse_pagination limit offset).0 ≤ 200)
      × Yields env
          (λ resp. IsPage (parse_pagination limit offset).0 resp.body)
          (handle_interface_logs iface_id limit offset)
unfolding parse_pagination handle_interface_logs answering list_connection_logs
handle_interface_logs-Yields env iface_id limit offset = (
  (limit_or-bounds (atoi limit)).0,
  (limit_or-bounds (atoi limit)).1,
  Yields-bind (Returned (λ found. length found.0 ≤ limit_or 50 (atoi limit))) _ _ _
      (Yields-attempt _ _ (list_logs-Yields _ (limit_or 50 (atoi limit)) _)) (λ r h. paged _ r h),
)
