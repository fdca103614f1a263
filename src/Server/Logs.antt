-- ===== src/Server/Logs.antt =====
-- internal/server/handler_logs.go.
pub mod Pages
use wgrift.Base.{
  ℕ, ℤ, pos, negsuc, leb, ltb, ◌&&◌, Bool, Option, none, some, Text, is_nil, atoi, if◌then◌else◌,
}
use wgrift.App.{App, pure, ◌>>=◌}
use wgrift.Store.Logs.{list_connection_logs, list_peer_connection_logs}
use wgrift.Server.Response.{Response, write_json_list, its_error, answering, the_logs}

abbrev pub limit_or : ℕ → Option ℤ → ℕ
limit_or default none = default
limit_or default (some (pos n)) = if ltb 0 n && leb n 200 then n else default
limit_or default (some (negsuc n)) = default

abbrev pub offset_or : ℕ → Option ℤ → ℕ
offset_or default none = default
offset_or default (some (pos n)) = n
offset_or default (some (negsuc n)) = default

-- The limit and the offset of the query's texts, an absent one being empty.
unfoldable pub parse_pagination : Text → Text → ℕ × ℕ
parse_pagination limit offset = (limit_or 50 (atoi limit), offset_or 0 (atoi offset))

unfoldable pub handle_interface_logs : Text → Text → Text → App Response
unfolding parse_pagination
handle_interface_logs iface_id limit offset =
    let page = parse_pagination limit offset in
    answering (its_error 500) (list_connection_logs iface_id page.0 page.1)
      (λ found. write_json_list 200 (the_logs found.0) found.1)

unfoldable pub handle_peer_logs : Text → Text → Text → App Response
unfolding parse_pagination
handle_peer_logs peer_id limit offset =
    let page = parse_pagination limit offset in
    answering (its_error 500) (list_peer_connection_logs peer_id page.0 page.1)
      (λ found. write_json_list 200 (the_logs found.0) found.1)
