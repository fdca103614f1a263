-- ===== src/Tests/ServerWitnesses.antt =====
-- The theorems on the server and on logins at concrete requests.
use wgrift.Base.{◌≡◌, refl, [], ◌∷◌, List, codes, text_eq, ◌≤◌}
use wgrift.Base.Result.{ok, err}
use wgrift.App.{World, message}
use wgrift.Store.Db.{empty_db}
use wgrift.Store.Consistent.{IsConsistent}
use wgrift.Server.Consistent.Requested.{started, asked, asked_public, Requested-IsConsistent}
use wgrift.App.Total.{Total}
use wgrift.App.Yields.{Yields}
use wgrift.Store.Settings.Refined.{put, get, run, read_as, Ran, run-Ran, Call}
use wgrift.Oidc.Callback.{handle_callback}
use wgrift.Oidc.Callback.Granted.{Granted, handle_callback-Granted}
use wgrift.Oidc.Callback.Replay.{handle_callback-handle_callback}
use wgrift.Server.Answers.{Answers}
use wgrift.Server.Dashboard.{handle_dashboard}
use wgrift.Server.Dashboard.Totals.{ShowsTotals, handle_dashboard-Total}
use wgrift.Server.Logs.{parse_pagination, handle_interface_logs}
use wgrift.Server.Logs.Pages.{IsPage, handle_interface_logs-Yields}
use wgrift.Server.Oidc.{CallbackQuery, handle_oidc_callback}
use wgrift.Server.Oidc.Redirects.{IsLocalRedirect, handle_oidc_callback-Total}
use wgrift.Server.Routes.{
  PublicRoute, post_setup, delete_one_user, serve, api, get_dashboard, serve_public, get_session,
}
use wgrift.Server.Routes.Guarded.{IsForbidden, may_use, serve-IsForbidden}
use wgrift.Server.Routes.Entered.{Entered, api-Entered}
use wgrift.Server.Routes.Answered.{api-Answers, serve_public-Answers}
use wgrift.Tests.Fixtures.{calm, world_of}
use wgrift.Tests.ServerFixtures.{server, request, viewer, logged_in, trusting, waiting}

handle_callback-Granted_example :
    Granted trusting
      (codes "code")
      (codes "st")
      (codes "https://vpn.example")
      waiting
      (handle_callback (codes "code") (codes "st") (codes "https://vpn.example") trusting waiting).0
handle_callback-Granted_example =
    handle_callback-Granted trusting (codes "code") (codes "st") (codes "https://vpn.example")
      waiting

handle_callback-handle_callback_example :
    (handle_callback
      (codes "again")
      (codes "st")
      (codes "https://vpn.example")
      trusting
      (handle_callback
        (codes "code")
        (codes "st")
        (codes "https://vpn.example")
        trusting
        waiting).1).0
    ≡ err (message "invalid or expired OIDC state")
handle_callback-handle_callback_example =
    handle_callback-handle_callback trusting (λ t. refl) (codes "st") (codes "code")
      (codes "https://vpn.example") (codes "again") (codes "https://vpn.example") waiting

serve-IsForbidden_example :
    IsForbidden
      (world_of logged_in)
      (serve server request viewer (delete_one_user (codes "u1")) calm (world_of logged_in))
unfolding may_use text_eq
serve-IsForbidden_example =
    serve-IsForbidden calm server request viewer (delete_one_user (codes "u1")) (world_of logged_in)
      refl

api-Entered_example :
    Entered calm server request
      (delete_one_user (codes "u2"))
      (world_of logged_in)
      (api server request (delete_one_user (codes "u2")) calm (world_of logged_in))
api-Entered_example =
    api-Entered calm server request (delete_one_user (codes "u2")) (world_of logged_in)

api-Answers_example : Answers calm (api server request get_dashboard)
api-Answers_example = api-Answers server request get_dashboard

serve_public-Answers_example : Answers calm (serve_public server request get_session)
serve_public-Answers_example = serve_public-Answers server request get_session

abbrev query : CallbackQuery
query = record { error = []; code = codes "code"; state = codes "st" }

handle_oidc_callback-Total_example :
    Total trusting IsLocalRedirect (handle_oidc_callback server request query)
handle_oidc_callback-Total_example = handle_oidc_callback-Total trusting server request query

handle_dashboard-Total_example :
    Total calm (λ resp. ShowsTotals resp.body) (handle_dashboard server)
handle_dashboard-Total_example = handle_dashboard-Total calm server

handle_interface_logs-Yields_example :
    (1 ≤ (parse_pagination (codes "500") []).0)
    × ((parse_pagination (codes "500") []).0 ≤ 200)
    × Yields calm
        (λ resp. IsPage (parse_pagination (codes "500") []).0 resp.body)
        (handle_interface_logs (codes "wg0") (codes "500") [])
handle_interface_logs-Yields_example =
    handle_interface_logs-Yields calm (codes "wg0") (codes "500") []

abbrev calls : List Call
calls = put (codes "a") (codes "1") ∷ put (codes "b") (codes "2") ∷ get (codes "a") ∷ []

run-Ran_example :
    Ran (read_as (world_of logged_in).db.settings) calls (run calls calm (world_of logged_in))
run-Ran_example = run-Ran calm calls (world_of logged_in)

abbrev setup : PublicRoute
setup = post_setup (ok (record { username = codes "root"; password = codes "correct horse" }))

abbrev set_up : World
set_up = (serve_public server request setup calm (world_of empty_db)).1

Requested-IsConsistent_example :
    IsConsistent (api server request (delete_one_user (codes "u2")) calm set_up).1.db
Requested-IsConsistent_example =
    Requested-IsConsistent calm (api server request (delete_one_user (codes "u2")) calm set_up).1
      (λ t. refl)
      (asked server request (delete_one_user (codes "u2")) set_up
        (asked_public server request setup (world_of empty_db) (started (world_of empty_db) refl)))
