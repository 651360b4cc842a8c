-- ===== src/Recorder/Media.antt =====
-- The media packets of the recorder of app/src/recorder.c: those that are no config packets.
use dskcpy.Prelude.{
  ℕ, List, [], ◌∷◌, ◌++◌, Option, none, some, if◌then◌else◌, ◌≡◌, refl, ap, sym, map, arith,
}
use dskcpy.Recorder.{Packet, Frame, Timed, is_some, take_packet, drop_config}

-- The numbers of the media packets of a queue, of what is held, and of the frames written.
abbrev pub media : List Packet → List ℕ
media [] = []
media (p ∷ q) = if is_some p.pts then p.id ∷ media q else media q

abbrev pub held : Option Packet → List ℕ
held none = []
held (some p) = media (p ∷ [])

abbrev pub previous_id : Option Timed → List ℕ
previous_id none = []
previous_id (some p) = p.id ∷ []

abbrev pub written : List Frame → List ℕ
written fs = map (λ (f : Frame). f.id) fs

pub media-append : (a b : List Packet) → media (a ++ b) ≡ media a ++ media b
media-append [] b = refl
media-append (p ∷ a) b = ground (arith, media-append a b)

pub written-append : (a b : List Frame) → written (a ++ b) ≡ written a ++ written b
written-append [] b = refl
written-append (f ∷ a) b = ap (λ t. f.id ∷ t) (written-append a b)

pub held-take_packet :
    (p : Option Packet) (q : List Packet)
    → held (take_packet p q).0 ++ media (take_packet p q).1 ≡ held p ++ media q
unfolding take_packet
held-take_packet none [] = refl
held-take_packet none (x ∷ q) = sym (media-append (x ∷ []) q)
held-take_packet (some x) q = refl

pub held-drop_config : (p : Option Packet) → held (drop_config p) ≡ held p
unfolding drop_config
held-drop_config none = refl
held-drop_config (some p) = ground arith
