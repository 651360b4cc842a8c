-- ===== src/Examples/Tunnels.antt =====
-- Tunnels on the default ports, of which the first one is taken.
use dskcpy.Prelude.{◌≡◌, refl, Bool, true, false, [], none, some, not, ◌==◌}
use dskcpy.Adb.Tunnel.{
  Answers, World, PortRange, init, reverse_from, enable_tunnel_reverse_any_port, tunnel_open,
  tunnel_close,
}
use dskcpy.Adb.Tunnel.Close.{Clean, close_opened}
use dskcpy.Adb.Tunnel.Open.{AfterOpen, tunnel_open_lem}

abbrev first_is_taken : Answers
first_is_taken = record {
  reverse = λ p. true;
  reverse_remove = λ p. true;
  forward = λ p. true;
  forward_remove = λ p. true;
  socket = λ p. true;
  listen = λ p. not (p == 27183);
  interrupted_reverse = λ p. false;
  interrupted_forward = λ p. false;
}

abbrev default_ports : PortRange
default_ports = record { first = 27183; last = 27199 }

abbrev closed_world : World
closed_world = record { tunnel = init; reversed = none; forwarded = [] }

tunnel_example :
    (result : Bool × World) × (tunnel_open first_is_taken default_ports false closed_world
      ≡ some result)
    × AfterOpen first_is_taken default_ports closed_world result
tunnel_example = tunnel_open_lem first_is_taken default_ports false closed_world refl

-- The tunnel by the second port.
abbrev open_world : World
open_world = record {
  tunnel = record {
    enabled = true;
    forward = false;
    server_socket = some 27184;
    local_port = 27184;
  };
  reversed = some 27184;
  forwarded = [];
}

opens_second : tunnel_open first_is_taken default_ports false closed_world ≡ some (true, open_world)
unfolding tunnel_open enable_tunnel_reverse_any_port reverse_from init
opens_second = refl

close_example : (w : World) × (tunnel_close first_is_taken open_world ≡ some (true, w)) × Clean w
close_example =
    close_opened first_is_taken default_ports false closed_world open_world ((λ p. refl), λ p. refl)
      (λ p. refl) refl refl refl opens_second
