-- ===== src/Recorder/Complete.antt =====
-- What a whole turn of the recorder of app/src/recorder.c does with the packets of both streams.
use dskcpy.Prelude.{
  ℕ, ◌&&◌, ◌||◌, not, Bool, true, false, List, [], ◌∷◌, ◌++◌, Option, none, some, if◌then◌else◌,
  ◌≡◌, refl, ap, sym, ◌∙◌, arith, append-nil, length, ◌≤◌,
}
use dskcpy.Recorder.{
  Packet, Muxer, Stream, Shared, Local, is_some, is_empty, must_wait, take_packet, choose_origin,
}
use dskcpy.Recorder.Round.{
  stopping, Phase, ended, failed, crashed, write_packets, write_last, drop_configs, work,
  take_packets,
}
use dskcpy.Recorder.Media.{media, previous_id, written, held-drop_config}
use dskcpy.Recorder.Steps.{video_all, audio_all}
use dskcpy.Recorder.Turns.{
  VideoKept, AudioKept, write_packets_lem, media-empty, held-none, any_id-drop_config,
  write_last_lem,
}

abbrev pub is_idle : Local → Bool
is_idle l = not (is_some l.video_pkt) && not (is_some l.audio_pkt)

abbrev pub may_end : Shared → Bool
may_end s = s.stopped && (is_empty s.video_queue && is_empty s.audio_queue)

video_all-drop_configs : (l : Local) → video_all (drop_configs l) ≡ video_all l
unfolding drop_configs
video_all-drop_configs l =
    ap (λ w. written l.video_stream.frames ++ (previous_id l.video_pkt_previous ++ w))
      (held-drop_config l.video_pkt)

audio_all-drop_configs : (l : Local) → audio_all (drop_configs l) ≡ audio_all l
unfolding drop_configs
audio_all-drop_configs l =
    ap (λ w. written l.audio_stream.frames ++ w) (held-drop_config l.audio_pkt)

-- What the end of the loop leaves unwritten: at most the last packet of the video.
end_left :
    (mux : Muxer) (s : Shared) (l : Local)
    → is_idle l ≡ true
    → may_end s ≡ true
    → let r = write_last mux l l.video_pkt_previous in
      ((lost : List ℕ) × (video_all l ++ media s.video_queue
          ≡ written r.video_stream.frames ++ lost)
        × (length lost ≤ 1))
      × (audio_all l ++ media s.audio_queue ≡ written r.audio_stream.frames ++ [])
end_left mux s l idle end =
    let last = write_last_lem mux l l.video_pkt_previous in
    (
      (
        last.0.0,
        rw (media-empty s.video_queue (ground (arith, end))) (
            rw (held-none l.video_pkt (ground (arith, idle))) (
              append-nil (written l.video_stream.frames ++ (previous_id l.video_pkt_previous ++ []))
              ∙ ap (λ w. written l.video_stream.frames ++ w)
                  (append-nil (previous_id l.video_pkt_previous))
              ∙ last.0.1)),
        last.0.2,
      ),
      rw (media-empty s.audio_queue (ground (arith, end))) (
          rw (held-none l.audio_pkt (ground (arith, idle))) (
            append-nil (written l.audio_stream.frames ++ [])
            ∙ ap (λ (st : Stream). written st.frames ++ []) (sym last.1))),
    )

end_lem :
    (trailer : Bool) (mux : Muxer) (s : Shared) (l : Local)
    → is_idle l ≡ true
    → may_end s ≡ true
    → let r = write_last mux l l.video_pkt_previous in
      let p : Phase = if trailer then ended else failed in
      VideoKept p (video_all l ++ media s.video_queue) (media s.video_queue) r
      × AudioKept p (audio_all l ++ media s.audio_queue) (media s.audio_queue) r
end_lem true mux s l idle end = let e = end_left mux s l idle end in (e.0, ([], e.1, omega arith))
end_lem false mux s l idle end = let e = end_left mux s l idle end in ((e.0.0, e.0.1), ([], e.1))

work_cases :
    (mux : Muxer) (late : Bool) (s : Shared) (l : Local) (idle : Bool)
    → is_idle l ≡ idle
    → (idle ≡ true → may_end s ≡ true)
    → let d = drop_configs l in
      let r : Phase × Local =
        if idle
        then (if may_end s
            then (
              if mux.writes_trailer then ended else failed,
              write_last mux l l.video_pkt_previous,
            )
            else (crashed, l))
        else write_packets mux d
            (choose_origin (stopping late s) d.pts_origin d.video_pkt d.audio_pkt) in
      VideoKept r.0 (video_all l ++ media s.video_queue) (media s.video_queue) r.1
      × AudioKept r.0 (audio_all l ++ media s.audio_queue) (media s.audio_queue) r.1
unfolding drop_configs
work_cases mux late s l true e may = rw (may refl) (end_lem mux.writes_trailer mux s l e (may refl))
work_cases mux late s l false e may =
    let d = drop_configs l in
    rw (sym (video_all-drop_configs l)) (
      rw (sym (audio_all-drop_configs l)) (
        write_packets_lem mux d
          (choose_origin (stopping late s) d.pts_origin d.video_pkt d.audio_pkt)
          (media s.video_queue) (media s.audio_queue) (any_id-drop_config l.video_pkt)
          (any_id-drop_config l.audio_pkt)))

-- Behind the pops.
pub work_lem :
    (mux : Muxer) (late : Bool) (s : Shared) (l : Local)
    → (is_idle l ≡ true → may_end s ≡ true)
    → let r = work mux late s l in
      VideoKept r.0 (video_all l ++ media s.video_queue) (media s.video_queue) r.1
      × AudioKept r.0 (audio_all l ++ media s.audio_queue) (media s.audio_queue) r.1
unfolding work
work_lem mux late s l may = work_cases mux late s l (is_idle l) refl may

-- After the pops a queue whose packet is missing is empty.
pub popped :
    (p : Option Packet) (q : List Packet)
    → let r = take_packet p q in
      (is_some r.0 ≡ (is_some p || not (is_empty q))) × (is_some r.0 ≡ false → is_empty r.1 ≡ true)
unfolding take_packet
popped none [] = (refl, λ e. refl)
popped none (x ∷ q) = (refl, λ e. ground (arith, e))
popped (some x) q = (refl, λ e. ground (arith, e))

pub woken :
    (s : Shared) (l : Local)
    → must_wait s l ≡ false
    → is_idle (take_packets s l).1 ≡ true
    → may_end (take_packets s l).0 ≡ true
unfolding must_wait take_packets
woken s l w idle =
    ground (arith, w, idle, popped l.video_pkt s.video_queue, popped l.audio_pkt s.audio_queue)
