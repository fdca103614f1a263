-- ===== src/Server/Dashboard/Totals.antt =====
-- The totals that internal/server/handler_dashboard.go counts in its two loops.
use wgrift.Base.{
  ℕ, ℤ, pos, ◌+◌, ◌≤◌, ◌≡◌, refl, sym, List, [], ◌∷◌, ◌++◌, arith, map, length, length-append,
  Bool-cases, inl, inr,
}
use wgrift.Base.Result.{Result, ok, err}
use wgrift.Models.{Interface}
use wgrift.App.{Env, Error}
use wgrift.App.Total.{Total, Total-pure, Total-attempt, Total-bind}
use wgrift.Poller.{Poller}
use wgrift.Wg.Status.{PeerStatus, InterfaceStatus}
use wgrift.Server.{Server}
use wgrift.Server.Answers.{Total-answering}
use wgrift.Server.Response.{
  Body, json, the_dashboard, InterfaceSummary, ActiveConnection, DashboardResponse, json_error,
}
use wgrift.Server.Dashboard.{
  add64, first_summary, count_peer, add_connection, connection, count_peers, summarize, add_summary,
  add_interfaces, empty_dashboard, handle_dashboard,
}

pub sum_of : {A : Type 0} → (A → ℕ) → List A → ℕ
sum_of f [] = 0
sum_of f (x ∷ xs) = f x + sum_of f xs

sum_of-append :
    {A : Type 0} (f : A → ℕ) (xs : List A) (x : A) → sum_of f (xs ++ x ∷ []) ≡ sum_of f xs + f x
unfolding sum_of
sum_of-append f [] x = ground arith
sum_of-append f (y ∷ xs) x = ground (arith, sum_of-append f xs x)

-- The sum of `int64` numbers from the left.
pub sum64_from : ℤ → List ℤ → ℤ
sum64_from n [] = n
sum64_from n (x ∷ xs) = sum64_from (add64 n x) xs

sum64_from-append :
    {A : Type 0} (f : A → ℤ) (n : ℤ) (xs : List A) (x : A)
    → sum64_from n (map f (xs ++ x ∷ [])) ≡ add64 (sum64_from n (map f xs)) (f x)
unfolding sum64_from
sum64_from-append f n [] x = refl
sum64_from-append f n (y ∷ xs) x = sum64_from-append f (add64 n (f y)) xs x

-- The totals of a response are those of its summaries and its connections.
pub record IsTotal (d : DashboardResponse) : Type 0 where
  pub peers : d.total_peers ≡ sum_of (λ i. i.total_peers) d.interfaces
  pub active : d.active_peers ≡ sum_of (λ i. i.connected_peers) d.interfaces
  pub connections : length d.active_connections ≡ d.active_peers
  pub no_more : d.active_peers ≤ d.total_peers
  pub received : d.total_rx ≡ sum64_from (pos 0) (map (λ i. i.total_rx) d.interfaces)
  pub sent : d.total_tx ≡ sum64_from (pos 0) (map (λ i. i.total_tx) d.interfaces)

-- As many connections are added as peers are counted connected, and no more than peers are counted.
abbrev IsCounted :
    InterfaceSummary → List ActiveConnection → InterfaceSummary × List ActiveConnection → Type 0
IsCounted before conns (after, conns') =
    (length conns' + before.connected_peers ≡ length conns + after.connected_peers)
    × (after.connected_peers + before.total_peers ≤ before.connected_peers + after.total_peers)

count_peer-IsCounted :
    (poller : Poller) (p : PeerStatus) (summary : InterfaceSummary) (conns : List ActiveConnection)
    → IsCounted summary conns (count_peer p summary, add_connection poller summary.id p conns)
count_peer-IsCounted poller p summary conns = elim (Bool-cases p.connected) [
  | inl on ↦
      rw on
        (ground (arith, length-append conns (connection poller summary.id p ∷ [])), ground arith)
  | inr off ↦ rw off (refl, ground arith)
]

IsCounted-then :
    (s t : InterfaceSummary) (cs ds : List ActiveConnection)
    (r : InterfaceSummary × List ActiveConnection)
    → IsCounted s cs (t, ds)
    → IsCounted t ds r
    → IsCounted s cs r
IsCounted-then s t cs ds (u, es) h k = (ground (arith, h, k), ground (arith, h, k))

count_peers-IsCounted :
    (poller : Poller) (ps : List PeerStatus) (summary : InterfaceSummary)
    (conns : List ActiveConnection)
    → IsCounted summary conns (count_peers poller ps (summary, conns))
unfolding count_peers
count_peers-IsCounted poller [] summary conns = (refl, ground arith)
count_peers-IsCounted poller (p ∷ ps) summary conns =
    let next = count_peer p summary in
    let grown = add_connection poller summary.id p conns in
    IsCounted-then summary next conns grown (count_peers poller ps (next, grown))
      (count_peer-IsCounted poller p summary conns) (count_peers-IsCounted poller ps next grown)

summarize-IsCounted :
    (poller : Poller) (iface : Interface) (conns : List ActiveConnection)
    (status : Result Error InterfaceStatus)
    → IsCounted (first_summary iface) conns (summarize poller iface conns status)
summarize-IsCounted poller iface conns (err e) = (refl, ground arith)
summarize-IsCounted poller iface conns (ok status) =
    count_peers-IsCounted poller status.peers _ conns

add_summary-IsTotal :
    (d : DashboardResponse) (iface : Interface) (counted : InterfaceSummary × List ActiveConnection)
    → IsCounted (first_summary iface) d.active_connections counted
    → IsTotal d
    → IsTotal (add_summary d counted)
add_summary-IsTotal d iface (summary, conns) c h = record {
  peers = ground (arith, h.peers, sum_of-append (λ i. i.total_peers) d.interfaces summary);
  active = ground (arith, h.active, sum_of-append (λ i. i.connected_peers) d.interfaces summary);
  connections = ground (arith, c, h.connections);
  no_more = ground (arith, c, h.no_more);
  received = rw h.received (sym (sum64_from-append (λ i. i.total_rx) (pos 0) d.interfaces summary));
  sent = rw h.sent (sym (sum64_from-append (λ i. i.total_tx) (pos 0) d.interfaces summary));
}

module _ {env : Env} where
  add_interfaces-Total :
      (poller : Poller) (ifaces : List Interface) (d : DashboardResponse)
      → IsTotal d
      → Total env IsTotal (add_interfaces poller d ifaces)
  unfolding add_interfaces
  add_interfaces-Total poller [] d h = Total-pure _ d h
  add_interfaces-Total poller (iface ∷ ifaces) d h =
      Total-bind (λ r. Unit) _ _ _ (Total-attempt _)
        (λ status u.
          add_interfaces-Total poller ifaces _
            (add_summary-IsTotal d iface _ (summarize-IsCounted poller iface _ status) h))

-- The response is an error of the store, or a dashboard with its totals.
abbrev pub ShowsTotals : Body → Type 0
ShowsTotals (json (the_dashboard d)) = IsTotal d
ShowsTotals (json_error e) = Unit
ShowsTotals _ = ⊥

-- The dashboard adds up: its peers, its active peers and its traffic are the sums of those of its
-- interfaces, traffic in the arithmetic of 64 bits; it lists one connection for each active peer,
-- and no more of them than peers. Otherwise it is an error.
pub handle_dashboard-Total :
    (env : Env) (s : Server) → Total env (λ resp. ShowsTotals resp.body) (handle_dashboard s)
unfolding handle_dashboard sum_of sum64_from
handle_dashboard-Total env s =
    Total-answering _ _ _ _ (λ e. Total-pure _ _ tt)
      (λ ifaces.
        Total-bind IsTotal _ _ _
          (add_interfaces-Total s.poller ifaces empty_dashboard (record {
            peers = refl;
            active = refl;
            connections = refl;
            no_more = ground arith;
            received = refl;
            sent = refl;
          }))
          (λ d h. Total-pure _ _ h))
