-- ===== src/Tests/PollerWitnesses.antt =====
-- The theorem on the poller for a peer that stays connected.
use wgrift.Base.{Bool, false, pos, true, [], ◌∷◌}
use wgrift.App.Total.{Total}
use wgrift.Wg.Status.{PeerStatus}
use wgrift.Poller.{Poller, PeerSnapshot, poll_peer}
use wgrift.Poller.Alternating.{IsAlternating, events, events-IsAlternating}
use wgrift.Poller.Tracked.{IsTracked, poll_peer-Total}
use wgrift.Tests.Fixtures.{calm, wg0, laptop_row}

abbrev poller : Poller
poller = record {
  last_state =
      (
        laptop_row.public_key,
        record {
          is_connected = true;
          connected_since = 7;
          transfer_rx = pos 1;
          transfer_tx = pos 1;
          endpoint = [];
        },
      )
      ∷ [];
  seed_connected = [];
  alerts = [];
  has_alert_fn = true;
}

abbrev still_connected : PeerStatus
still_connected = record {
  peer = laptop_row;
  has_private_key = true;
  last_handshake = 9;
  transfer_rx = pos 2;
  transfer_tx = pos 1;
  connected = true;
  endpoint = [];
}

poll_peer-Total_example :
    Total calm (IsTracked poller still_connected) (poll_peer wg0 poller still_connected)
poll_peer-Total_example = poll_peer-Total calm wg0 poller still_connected

abbrev snapshot_of : Bool → PeerSnapshot
snapshot_of b = record {
  is_connected = b;
  connected_since = 0;
  transfer_rx = pos 0;
  transfer_tx = pos 0;
  endpoint = [];
}

events-IsAlternating_example :
    IsAlternating true
      (events (snapshot_of true) (snapshot_of true ∷ snapshot_of false ∷ snapshot_of true ∷ []))
events-IsAlternating_example =
    events-IsAlternating (snapshot_of true)
      (snapshot_of true ∷ snapshot_of false ∷ snapshot_of true ∷ [])
