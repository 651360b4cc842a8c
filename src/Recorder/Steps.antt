-- ===== src/Recorder/Steps.antt =====
-- What the steps of a turn of the recorder of app/src/recorder.c keep of the packets.
use dskcpy.Prelude.{
  sub_ℤ, ℕ, Bool, true, false, List, [], ◌∷◌, ◌++◌, Option, none, some, if◌then◌else◌, ◌≡◌, refl,
  ap, sym, ◌∙◌, arith, append_assoc, append-nil,
}
use dskcpy.Recorder.{Packet, Frame, Timed, Muxer, Stream, Local, write_stream, rescale, fix_pts}
use dskcpy.Recorder.Round.{video_step, audio_step, timed}
use dskcpy.Recorder.Media.{held, previous_id, written, written-append}

written_if :
    (fs : List Frame) (f : Frame) (ok : Bool)
    → written (if ok then fs ++ (f ∷ []) else fs) ≡ written fs ++ (if ok then f.id ∷ [] else [])
written_if fs f true = written-append fs (f ∷ [])
written_if fs f false = sym (append-nil (written fs))

pub written-write_stream :
    (accepts : Frame → Bool) (st : Stream) (f : Frame)
    → written (write_stream accepts st f).1.frames
      ≡ written st.frames ++ (if (write_stream accepts st f).0 then f.id ∷ [] else [])
unfolding write_stream
written-write_stream accepts st f =
    let frame : Frame = record f { pts = fix_pts st.last_pts f.pts } in
    written_if st.frames frame (accepts frame)

-- All packets of the video stream that the thread still has or has written.
abbrev pub video_all : Local → List ℕ
video_all l =
    written l.video_stream.frames ++ (previous_id l.video_pkt_previous ++ held l.video_pkt)

abbrev pub audio_all : Local → List ℕ
audio_all l = written l.audio_stream.frames ++ held l.audio_pkt

-- The number of a packet, of whatever kind.
abbrev pub any_id : Option Packet → List ℕ
any_id none = []
any_id (some p) = p.id ∷ []

-- What a write of the packet before does to the stream, whether it went well or not.
video_written :
    (l : Local) (now : Timed) (id : ℕ) (ok : Bool) (st : Stream)
    → written st.frames ≡ written l.video_stream.frames ++ (if ok then id ∷ [] else [])
    → let r : Bool × Local =
        if ok
        then (true, record l { video_stream = st; video_pkt_previous = some now; video_pkt = none })
        else (false, record l { video_stream = st; video_pkt_previous = none }) in
      (r.0 ≡ true → video_all r.1 ≡ written l.video_stream.frames ++ (id ∷ now.id ∷ []))
      × (r.0 ≡ false → written r.1.video_stream.frames ≡ written l.video_stream.frames)
video_written l now id true st e = (
  λ t.
      ap (λ w. w ++ (now.id ∷ [])) e
      ∙ append_assoc (written l.video_stream.frames) (id ∷ []) (now.id ∷ []),
  λ f. ground (arith, f),
)
video_written l now id false st e =
    (λ t. ground (arith, t), λ f. e ∙ append-nil (written l.video_stream.frames))

pub video_step_lem :
    (mux : Muxer) (origin : ℕ) (l : Local) (p : Option Packet) (previous : Option Timed)
    → l.video_pkt ≡ p
    → l.video_pkt_previous ≡ previous
    → let r = video_step mux origin l p previous in
      (r.0 ≡ true
        → video_all r.1 ≡ written l.video_stream.frames ++ (previous_id previous ++ any_id p))
      × (r.0 ≡ false → written r.1.video_stream.frames ≡ written l.video_stream.frames)
unfolding video_step
video_step_lem mux origin l none previous e e' = ((λ t. rw e (rw e' refl)), λ f. ground (arith, f))
video_step_lem mux origin l (some p) none e e' = ((λ t. refl), λ f. refl)
video_step_lem mux origin l (some p) (some q) e e' =
    let f : Frame =
      rescale mux.rescale_video
        (record { id = q.id; pts = q.pts; duration = sub_ℤ (timed origin p).pts q.pts }) in
    video_written l (timed origin p) q.id (write_stream mux.accepts l.video_stream f).0
      (write_stream mux.accepts l.video_stream f).1
      (written-write_stream mux.accepts l.video_stream f)

audio_written :
    (l : Local) (id : ℕ) (ok : Bool) (st : Stream)
    → written st.frames ≡ written l.audio_stream.frames ++ (if ok then id ∷ [] else [])
    → let r : Bool × Local =
        if ok
        then (true, record l { audio_stream = st; audio_pkt = none })
        else (false, record l { audio_stream = st }) in
      (r.0 ≡ true → audio_all r.1 ≡ written l.audio_stream.frames ++ (id ∷ []))
      × (r.0 ≡ false → written r.1.audio_stream.frames ≡ written l.audio_stream.frames)
audio_written l id true st e = ((λ t. append-nil (written st.frames) ∙ e), λ f. ground (arith, f))
audio_written l id false st e =
    ((λ t. ground (arith, t)), λ f. e ∙ append-nil (written l.audio_stream.frames))

pub audio_step_lem :
    (mux : Muxer) (origin : ℕ) (l : Local) (p : Option Packet)
    → l.audio_pkt ≡ p
    → let r = audio_step mux origin l p in
      (r.0 ≡ true → audio_all r.1 ≡ written l.audio_stream.frames ++ any_id p)
      × (r.0 ≡ false → written r.1.audio_stream.frames ≡ written l.audio_stream.frames)
unfolding audio_step
audio_step_lem mux origin l none e = ((λ t. rw e refl), λ f. ground (arith, f))
audio_step_lem mux origin l (some p) e =
    let f : Frame =
      rescale mux.rescale_audio
        (record { id = p.id; pts = (timed origin p).pts; duration = p.duration }) in
    audio_written l p.id (write_stream mux.accepts l.audio_stream f).0
      (write_stream mux.accepts l.audio_stream f).1
      (written-write_stream mux.accepts l.audio_stream f)
