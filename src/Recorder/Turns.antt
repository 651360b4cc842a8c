-- ===== src/Recorder/Turns.antt =====
-- No packet is lost in a turn of the recorder of app/src/recorder.c.
use dskcpy.Prelude.{
  ℕ, Bool, true, false, List, [], ◌∷◌, ◌++◌, Option, none, some, if◌then◌else◌, ◌≡◌, refl, ap, sym,
  ap₂, ◌∙◌, arith, append_assoc, append-nil, length, ◌≤◌, pos,
}
use dskcpy.Recorder.{
  Packet, Frame, Timed, Muxer, Stream, Local, is_some, is_empty, write_stream, drop_config, rescale,
}
use dskcpy.Recorder.Round.{
  video_step, audio_step, write_last, Phase, running, ended, failed, crashed, write_packets,
}
use dskcpy.Recorder.Media.{media, held, previous_id, written}
use dskcpy.Recorder.Steps.{
  video_all, audio_all, any_id, video_step_lem, audio_step_lem, written-write_stream,
}

-- Where the packets of a stream are: all of them with the thread while it runs, written but for the
-- last ones when it has ended, and the first ones written when it has failed.
abbrev pub Kept : Phase → (taken all frames : List ℕ) → ℕ → Type 0
Kept running taken all frames most = taken ≡ all
Kept ended taken all frames most = (lost : List ℕ) × (taken ≡ frames ++ lost) × (length lost ≤ most)
Kept failed taken all frames most = (lost : List ℕ) × taken ≡ frames ++ lost
Kept crashed taken all frames most = ⊥

abbrev pub VideoKept : Phase → List ℕ → List ℕ → Local → Type 0
VideoKept p taken queued l = Kept p taken (video_all l ++ queued) (written l.video_stream.frames) 1

abbrev pub AudioKept : Phase → List ℕ → List ℕ → Local → Type 0
AudioKept p taken queued l = Kept p taken (audio_all l ++ queued) (written l.audio_stream.frames) 0

pub audio-video_step :
    (mux : Muxer) (origin : ℕ) (l : Local) (p : Option Packet) (previous : Option Timed)
    → let r = (video_step mux origin l p previous).1 in
      (r.audio_stream ≡ l.audio_stream) × (r.audio_pkt ≡ l.audio_pkt)
unfolding video_step
audio-video_step mux origin l none previous = (refl, refl)
audio-video_step mux origin l (some p) none = (refl, refl)
audio-video_step mux origin l (some p) (some q) = ground arith

pub video-audio_step :
    (mux : Muxer) (origin : ℕ) (l : Local) (p : Option Packet)
    → let r = (audio_step mux origin l p).1 in
      (video_all r ≡ video_all l) × (r.video_pkt ≡ l.video_pkt)
unfolding audio_step
video-audio_step mux origin l none = (refl, refl)
video-audio_step mux origin l (some p) = ground arith

written_both :
    (l v a : Local) (v_ok a_ok : Bool) (vq aq : List ℕ)
    → (v_ok ≡ true → video_all v ≡ video_all l)
      × (v_ok ≡ false → written v.video_stream.frames ≡ written l.video_stream.frames)
    → (a_ok ≡ true → audio_all a ≡ audio_all l)
      × (a_ok ≡ false → written a.audio_stream.frames ≡ written l.audio_stream.frames)
    → (v.audio_stream ≡ l.audio_stream)
    → video_all a ≡ video_all v
    → let r : Phase × Local = if v_ok then (if a_ok then running else failed, a) else (failed, v) in
      VideoKept r.0 (video_all l ++ vq) vq r.1 × AudioKept r.0 (audio_all l ++ aq) aq r.1
written_both l v a true true vq aq ve ae e e' =
    (ap (λ t. t ++ vq) (sym (e' ∙ ve.0 refl)), ap (λ t. t ++ aq) (sym (ae.0 refl)))
written_both l v a true false vq aq ve ae e e' = (
  (_, ap (λ t. t ++ vq) (sym (e' ∙ ve.0 refl)) ∙ append_assoc (written a.video_stream.frames) _ vq),
  (
    _,
    append_assoc (written l.audio_stream.frames) _ aq
        ∙ ap (λ t. t ++ (held l.audio_pkt ++ aq)) (sym (ae.1 refl)),
  ),
)
written_both l v a false ok vq aq ve ae e e' = (
  (
    _,
    append_assoc (written l.video_stream.frames) _ vq
        ∙ ap (λ t. t ++ ((previous_id l.video_pkt_previous ++ held l.video_pkt) ++ vq))
            (sym (ve.1 refl)),
  ),
  (
    _,
    append_assoc (written l.audio_stream.frames) _ aq
        ∙ ap (λ (t : Stream). written t.frames ++ (held l.audio_pkt ++ aq)) (sym e),
  ),
)

-- Past the choice of the origin, with the config packets dropped.
pub write_packets_lem :
    (mux : Muxer) (l : Local) (choice : Option (Option ℕ)) (vq aq : List ℕ)
    → any_id l.video_pkt ≡ held l.video_pkt
    → any_id l.audio_pkt ≡ held l.audio_pkt
    → let r = write_packets mux l choice in
      VideoKept r.0 (video_all l ++ vq) vq r.1 × AudioKept r.0 (audio_all l ++ aq) aq r.1
unfolding write_packets
write_packets_lem mux l none vq aq ev ea = (
  (_, append_assoc (written l.video_stream.frames) _ vq),
  (_, append_assoc (written l.audio_stream.frames) _ aq),
)
write_packets_lem mux l (some none) vq aq ev ea = (refl, refl)
write_packets_lem mux l (some (some origin)) vq aq ev ea =
    let l' : Local = record l { pts_origin = some origin } in
    let v = video_step mux origin l' l.video_pkt l.video_pkt_previous in
    let a = audio_step mux origin v.1 v.1.audio_pkt in
    let ve = video_step_lem mux origin l' l.video_pkt l.video_pkt_previous refl refl in
    let ae = audio_step_lem mux origin v.1 v.1.audio_pkt refl in
    let same = audio-video_step mux origin l' l.video_pkt l.video_pkt_previous in
    let same' = video-audio_step mux origin v.1 v.1.audio_pkt in
    written_both l v.1 a.1 v.0 a.0 vq aq
      (
        λ t.
            ve.0 t
            ∙ ap (λ w. written l.video_stream.frames ++ (previous_id l.video_pkt_previous ++ w)) ev,
        ve.1,
      )
      (
        λ t.
            ae.0 t
            ∙ ap₂ (λ (st : Stream) (p : Option Packet). written st.frames ++ any_id p) same.0 same.1
            ∙ ap (λ w. written l.audio_stream.frames ++ w) ea,
        λ f. ae.1 f ∙ ap (λ (t : Stream). written t.frames) same.0,
      )
      same.0 same'.0

pub media-empty : (q : List Packet) → is_empty q ≡ true → media q ≡ []
media-empty [] e = refl
media-empty (p ∷ q) e = ground (arith, e)

pub held-none : (p : Option Packet) → is_some p ≡ false → held p ≡ []
held-none none e = refl
held-none (some p) e = ground (arith, e)

pub any_id-drop_config : (p : Option Packet) → any_id (drop_config p) ≡ held (drop_config p)
unfolding drop_config
any_id-drop_config none = refl
any_id-drop_config (some p) = ground arith

last_of :
    (ok : Bool) (before after : List ℕ) (id : ℕ)
    → after ≡ before ++ (if ok then id ∷ [] else [])
    → (lost : List ℕ) × (before ++ (id ∷ []) ≡ after ++ lost) × (length lost ≤ 1)
last_of true before after id e = ([], sym e ∙ sym (append-nil after), omega arith)
last_of false before after id e =
    (id ∷ [], ap (λ t. t ++ (id ∷ [])) (sym (append-nil before) ∙ sym e), omega arith)

-- The write of the last packet, when nothing else is left.
pub write_last_lem :
    (mux : Muxer) (l : Local) (previous : Option Timed)
    → let r = write_last mux l previous in
      ((lost : List ℕ) × (written l.video_stream.frames ++ previous_id previous
          ≡ written r.video_stream.frames ++ lost)
        × (length lost ≤ 1))
      × (r.audio_stream ≡ l.audio_stream)
unfolding write_last
write_last_lem mux l none = (([], refl, omega arith), refl)
write_last_lem mux l (some q) =
    let f : Frame =
      rescale mux.rescale_video (record { id = q.id; pts = q.pts; duration = pos 100000 }) in
    (
      last_of (write_stream mux.accepts l.video_stream f).0 (written l.video_stream.frames) _ q.id
          (written-write_stream mux.accepts l.video_stream f),
      refl,
    )
