-- ===== src/Adb/Tunnel.antt =====
-- app/src/adb/adb_tunnel.c: the tunnel between a port of the computer and the socket of the device.
-- What adb and the network answer is the parameter `Answers`; the rules that adb keeps are part of
-- the state: `adb reverse` has one for the socket of the device, which a new one replaces.
pub mod Port
pub mod Open
pub mod Close
use dskcpy.Prelude.{
  ℕ, zero, suc, ◌+◌, ◌-◌, ◌≤◌, ◌&&◌, not, Bool, true, false, List, [], ◌∷◌, Option, none, some, ltb,
  ◌==◌, if◌then◌else◌,
}

pub record Answers : Type 0 where
  -- Whether a command succeeds for a port.
  pub reverse : ℕ → Bool
  pub reverse_remove : ℕ → Bool
  pub forward : ℕ → Bool
  pub forward_remove : ℕ → Bool
  -- Whether a socket is made, and then listens on the port.
  pub socket : ℕ → Bool
  pub listen : ℕ → Bool
  -- Whether the client is interrupted behind an attempt with the port.
  pub interrupted_reverse : ℕ → Bool
  pub interrupted_forward : ℕ → Bool

-- `struct sc_adb_tunnel`; the server socket is the port on which it listens.
pub record Tunnel : Type 0 where
  pub enabled : Bool
  pub forward : Bool
  pub server_socket : Option ℕ
  pub local_port : ℕ

-- The tunnel, the port to which the socket of the device leads by `adb reverse`, if to one, and the
-- ports with a rule of `adb forward`.
pub record World : Type 0 where
  pub tunnel : Tunnel
  pub reversed : Option ℕ
  pub forwarded : List ℕ

pub record PortRange : Type 0 where
  pub first : ℕ
  pub last : ℕ

abbrev pub remove_port : ℕ → List ℕ → List ℕ
remove_port port [] = []
remove_port port (p ∷ ports) =
    if p == port then remove_port port ports else p ∷ remove_port port ports

-- `sc_adb_reverse` and `sc_adb_reverse_remove`
abbrev pub add_reverse : ℕ → World → World
add_reverse port w = record w { reversed = some port }

abbrev pub drop_reverse : Answers → ℕ → World → World
drop_reverse a port w = if a.reverse_remove port then record w { reversed = none } else w

-- `sc_adb_tunnel_init`
unfoldable pub init : Tunnel
init = record { enabled = false; forward = false; server_socket = none; local_port = 0 }

-- The loop of `enable_tunnel_reverse_any_port`, with one unit of fuel for each port.
unfoldable pub reverse_from : Answers → ℕ → (port last : ℕ) → World → Option (Bool × World)
reverse_from a zero port last w = none
reverse_from a (suc fuel) port last w =
    let w1 = add_reverse port w in
    let w2 = drop_reverse a port w1 in
    let retry = reverse_from a fuel (port + 1) last w2 in
    if not (a.reverse port)
    then some (false, w)
    else if a.socket port && a.listen port
    then some (
      true,
      record w1 {
        tunnel = record w.tunnel { server_socket = some port; local_port = port; enabled = true };
      },
    )
    else if a.interrupted_reverse port
    then some (false, w1)
    else if ltb port last
    then retry
    else some (false, w2)

-- The loop of `enable_tunnel_forward_any_port`.
unfoldable pub forward_from : Answers → ℕ → (port last : ℕ) → World → Option (Bool × World)
forward_from a zero port last w = none
forward_from a (suc fuel) port last w =
    let retry = forward_from a fuel (port + 1) last w in
    if a.forward port
    then some (
      true,
      record w {
        tunnel = record w.tunnel { local_port = port; enabled = true };
        forwarded = port ∷ w.forwarded;
      },
    )
    else if a.interrupted_forward port
    then some (false, w)
    else if ltb port last
    then retry
    else some (false, w)

abbrev pub tries : PortRange → ℕ
tries r = r.last - r.first + 1

unfoldable pub enable_tunnel_reverse_any_port : Answers → PortRange → World → Option (Bool × World)
enable_tunnel_reverse_any_port a r w = reverse_from a (tries r) r.first r.last w

unfoldable pub enable_tunnel_forward_any_port : Answers → PortRange → World → Option (Bool × World)
enable_tunnel_forward_any_port a r w =
    forward_from a (tries r) r.first r.last
      (record w { tunnel = record w.tunnel { forward = true } })

abbrev pub or_forward : Answers → PortRange → Option (Bool × World) → Option (Bool × World)
or_forward a r none = none
or_forward a r (some (true, w)) = some (true, w)
or_forward a r (some (false, w)) = enable_tunnel_forward_any_port a r w

-- `sc_adb_tunnel_open`; a failed assertion is `none`.
unfoldable pub tunnel_open : Answers → PortRange → Bool → World → Option (Bool × World)
tunnel_open a r force_adb_forward w =
    let reverse = or_forward a r (enable_tunnel_reverse_any_port a r w) in
    if w.tunnel.enabled
    then none
    else if force_adb_forward
    then enable_tunnel_forward_any_port a r w
    else reverse

-- `sc_adb_tunnel_close`
unfoldable pub tunnel_close : Answers → World → Option (Bool × World)
tunnel_close a w =
    let t = w.tunnel in
    let off = record w { tunnel = record t { enabled = false } } in
    if not t.enabled
    then none
    else if t.forward
    then some (
      a.forward_remove t.local_port,
      if a.forward_remove t.local_port
          then record off { forwarded = remove_port t.local_port w.forwarded }
          else off,
    )
    else elim t.server_socket [
      | none ↦ none
      | some listening ↦ some (a.reverse_remove t.local_port, drop_reverse a t.local_port off)
    ]
