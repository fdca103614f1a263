-- ===== src/Server/Running.antt =====
-- internal/server/handler_interfaces.go: the adoption of a configuration file, and the handlers of
-- a running interface.
use wgrift.Base.{
  ◌==◌, ◌||◌, Option, none, some, List, [], ◌∷◌, ◌++◌, map, Text, codes, text_eq, is_nil, split_at,
  join_with, length, if◌then◌else◌,
}
use wgrift.Models.{Time}
use wgrift.App.{App, Error, message, wrapped, external_call}
use wgrift.Confgen.Parse.{ParsedConfig, parse_config}
use wgrift.Poller.{Poller, get_connected_since}
use wgrift.Wg.Status.{PeerStatus, get_status}
use wgrift.Wg.Import.{import_interface}
use wgrift.Wg.Manager.{start_interface, stop_interface, restart_interface}
use wgrift.Server.{Server, text_or}
use wgrift.Server.Interfaces.{if_parsed}
use wgrift.Server.Response.{
  Response, Decoded, write_json, write_error, its_error, answering, with_json, status_is, adopted,
  the_status,
}

-- One element of a path: an empty one and a dot stay, two dots go back.
abbrev pub step_into : List Text → Text → List Text
step_into stack part =
    if is_nil part || text_eq part (codes ".")
    then stack
    else if text_eq part (codes "..")
    then drop_last stack
    else stack ++ part ∷ []
  where
    drop_last : List Text → List Text
    drop_last [] = []
    drop_last (x ∷ []) = []
    drop_last (x ∷ y ∷ xs) = x ∷ drop_last (y ∷ xs)

unfoldable pub walk : List Text → List Text → List Text
walk stack [] = stack
walk stack (part ∷ parts) = walk (step_into stack part) parts

-- `filepath.Join("/etc/wireguard", id+".conf")`.
unfoldable pub config_path : Text → Text
unfolding walk
config_path id =
    let parts = walk (codes "etc" ∷ codes "wireguard" ∷ []) (split_at b'/' (id ++ codes ".conf")) in
    codes "/" ++ join_with (codes "/") parts

pub record AdoptRequest : Type 0 where
  pub id : Text
  pub interface_type : Text

unfoldable pub adopt_as : Text → Text → ParsedConfig → App Response
adopt_as id interface_type parsed =
    answering (its_error 500) (import_interface parsed id interface_type)
      (λ iface. write_json 201 (adopted iface (length parsed.peers)))

abbrev pub cannot_read : Error → App Response
cannot_read e = write_error 400 (wrapped "cannot read" e)

unfoldable pub handle_adopt_interface : Decoded AdoptRequest → App Response
unfolding config_path adopt_as
handle_adopt_interface body = with_json body (λ req.
    if is_nil req.id
    then write_error 400 (message "id is required")
    else answering cannot_read (external_call (λ env t. env.read_file t (config_path req.id)))
        (λ text.
          if_parsed (parse_config text)
            (adopt_as req.id (text_or req.interface_type (codes "client-access")))))

unfoldable pub handle_start_interface : Text → App Response
handle_start_interface id =
    answering (its_error 500) (start_interface id) (λ _. write_json 200 (status_is "started"))

unfoldable pub handle_stop_interface : Text → App Response
handle_stop_interface id =
    answering (its_error 500) (stop_interface id) (λ _. write_json 200 (status_is "stopped"))

unfoldable pub handle_restart_interface : Text → App Response
handle_restart_interface id =
    answering (its_error 500) (restart_interface id) (λ _. write_json 200 (status_is "restarted"))

abbrev pub known_time : Time → Option Time
known_time t = if t == 0 then none else some t

-- When a connected peer connected: as the poller knows, and by its handshake otherwise.
unfoldable pub connected_since : Poller → PeerStatus → Option Time
connected_since poller p =
    if p.connected
    then known_time (
        if get_connected_since poller p.peer.public_key == 0
        then p.last_handshake
        else get_connected_since poller p.peer.public_key)
    else none

-- The poller is woken up behind the answer; that only moves its next round forward.
unfoldable pub handle_interface_status : Server → Text → App Response
unfolding connected_since
handle_interface_status s id =
    answering (its_error 500) (get_status id)
      (λ status. write_json 200 (the_status status (map (connected_since s.poller) status.peers)))
