-- ===== src/Server/Dashboard.antt =====
-- internal/server/handler_dashboard.go.
pub mod Totals
use wgrift.Base.{
  ℕ, ℤ, pos, negsuc, ◌+◌, ◌-◌, ◌*◌, ◌%◌, ◌^◌, ltb, ◌==◌, Bool, true, false, Option, none, some,
  List, [], ◌∷◌, ◌++◌, Text, if◌then◌else◌,
}
use wgrift.Base.Result.{Result, ok, err}
use wgrift.Models.{Interface, Peer}
use wgrift.App.{App, Error, pure, ◌>>=◌, attempt}
use wgrift.Store.Interfaces.{list_interfaces}
use wgrift.Poller.{Poller, get_connected_since}
use wgrift.Wg.Status.{PeerStatus, InterfaceStatus, get_status}
use wgrift.Server.{Server}
use wgrift.Server.Response.{
  Response, InterfaceSummary, ActiveConnection, DashboardResponse, write_json, its_error, answering,
  the_dashboard,
}

-- `int64` addition wraps around: numbers as words of 64 bits, and back.
abbrev pub to_word : ℤ → ℕ
to_word (pos n) = n % 2 ^ 64
to_word (negsuc n) = 2 ^ 64 - 1 - n % 2 ^ 64

abbrev pub of_word : ℕ → ℤ
of_word m = if ltb m (2 ^ 63) then pos m else negsuc (2 ^ 64 - 1 - m)

unfoldable pub add64 : ℤ → ℤ → ℤ
add64 a b = of_word ((to_word a + to_word b) % 2 ^ 64)

abbrev pub first_summary : Interface → InterfaceSummary
first_summary iface = record {
  id = iface.id;
  interface_type = iface.interface_type;
  address = iface.address;
  listen_port = iface.listen_port;
  endpoint = iface.endpoint;
  enabled = iface.enabled;
  running = false;
  public_key = [];
  total_peers = 0;
  connected_peers = 0;
  total_rx = pos 0;
  total_tx = pos 0;
}

abbrev pub connection : Poller → Text → PeerStatus → ActiveConnection
connection poller iface_id p = record {
  interface_id = iface_id;
  peer_id = p.peer.id;
  peer_name = p.peer.name;
  peer_type = p.peer.peer_type;
  address = p.peer.address;
  endpoint = p.endpoint;
  last_handshake = p.last_handshake;
  connected_since =
      if get_connected_since poller p.peer.public_key == 0
      then p.last_handshake
      else get_connected_since poller p.peer.public_key;
  transfer_rx = p.transfer_rx;
  transfer_tx = p.transfer_tx;
}

-- One round of the loop over the peers of an interface: its summary, and the connections.
abbrev pub count_peer : PeerStatus → InterfaceSummary → InterfaceSummary
count_peer p summary = record summary {
  total_peers = summary.total_peers + 1;
  connected_peers = if p.connected then summary.connected_peers + 1 else summary.connected_peers;
  total_rx = add64 summary.total_rx p.transfer_rx;
  total_tx = add64 summary.total_tx p.transfer_tx;
}

abbrev pub add_connection :
    Poller → Text → PeerStatus → List ActiveConnection → List ActiveConnection
add_connection poller iface_id p conns =
    if p.connected then conns ++ connection poller iface_id p ∷ [] else conns

unfoldable pub count_peers :
    Poller
    → List PeerStatus
    → InterfaceSummary × List ActiveConnection
    → InterfaceSummary × List ActiveConnection
unfolding add64
count_peers poller [] (summary, conns) = (summary, conns)
count_peers poller (p ∷ ps) (summary, conns) =
    count_peers poller ps (count_peer p summary, add_connection poller summary.id p conns)

-- An interface whose status fails keeps its first summary.
abbrev pub summarize :
    Poller
    → Interface
    → List ActiveConnection
    → Result Error InterfaceStatus
    → InterfaceSummary × List ActiveConnection
summarize poller iface conns (err e) = (first_summary iface, conns)
summarize poller iface conns (ok status) = count_peers poller status.peers (
  record (first_summary iface) { public_key = status.public_key; running = status.running },
  conns,
)

abbrev pub add_summary :
    DashboardResponse → InterfaceSummary × List ActiveConnection → DashboardResponse
add_summary resp (summary, conns) = record {
  interfaces = resp.interfaces ++ summary ∷ [];
  active_connections = conns;
  total_peers = resp.total_peers + summary.total_peers;
  active_peers = resp.active_peers + summary.connected_peers;
  total_rx = add64 resp.total_rx summary.total_rx;
  total_tx = add64 resp.total_tx summary.total_tx;
}

-- The loop over the interfaces.
unfoldable pub add_interfaces : Poller → DashboardResponse → List Interface → App DashboardResponse
unfolding add64 count_peers
add_interfaces poller resp [] = pure resp
add_interfaces poller resp (iface ∷ ifaces) = do
  status ← attempt (get_status iface.id)
  add_interfaces poller (add_summary resp (summarize poller iface resp.active_connections status))
      ifaces

abbrev pub empty_dashboard : DashboardResponse
empty_dashboard = record {
  interfaces = [];
  active_connections = [];
  total_peers = 0;
  active_peers = 0;
  total_rx = pos 0;
  total_tx = pos 0;
}

unfoldable pub handle_dashboard : Server → App Response
unfolding add_interfaces
handle_dashboard s = answering (its_error 500) list_interfaces (λ ifaces. do
  resp ← add_interfaces s.poller empty_dashboard ifaces
  write_json 200 (the_dashboard resp))
