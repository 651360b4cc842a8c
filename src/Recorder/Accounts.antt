-- ===== src/Recorder/Accounts.antt =====
-- app/src/recorder.c: the packets that the sinks have taken, in every history of the recorder.
use dskcpy.Prelude.{
  ℕ, ◌&&◌, ◌||◌, Bool, true, false, List, ◌++◌, if◌then◌else◌, ◌≡◌, refl, ap, sym, subst, ◌∙◌,
  arith, append_assoc,
}
use dskcpy.Recorder.{Muxer, Shared, Local, must_wait, take_packet}
use dskcpy.Recorder.Round.{
  Phase, running, ended, failed, crashed, work, take_packets, is_unused, turn,
}
use dskcpy.Recorder.Media.{media, held, previous_id, written, held-take_packet}
use dskcpy.Recorder.Steps.{video_all, audio_all}
use dskcpy.Recorder.Turns.{Kept, VideoKept, AudioKept}
use dskcpy.Recorder.Complete.{work_lem, woken}
use dskcpy.Recorder.Streams.{is_ended, turn-stopped}
use dskcpy.Recorder.Unused.{video_ok, audio_ok, turn_unused}
use dskcpy.Recorder.History.{Session, discard, work_on}

pub record Inv (z : Session) : Type 0 where
  pub video_kept : VideoKept z.phase (media z.video_taken) (media z.shared.video_queue) z.local
  pub audio_kept : AudioKept z.phase (media z.audio_taken) (media z.shared.audio_queue) z.local
  pub video_unused : (z.shared.video || is_unused z.local.video_pkt z.shared.video_queue) ≡ true
  pub audio_unused : (z.shared.audio || is_unused z.local.audio_pkt z.shared.audio_queue) ≡ true
  pub video_open : z.shared.video ≡ true → z.video_init ≡ true
  pub audio_open : z.shared.audio ≡ true → z.audio_init ≡ true
  pub stops_first : is_ended z.phase ≡ true → z.shared.stopped ≡ true

-- One more packet behind those of a queue.
pub Kept-push :
    (p : Phase) (taken all q more frames : List ℕ) (most : ℕ)
    → is_ended p ≡ false
    → Kept p taken (all ++ q) frames most
    → Kept p (taken ++ more) (all ++ (q ++ more)) frames most
Kept-push running taken all q more frames most e k = ap (λ t. t ++ more) k ∙ append_assoc all q more
Kept-push ended taken all q more frames most e k = ground (arith, e)
Kept-push failed taken all q more frames most e k =
    (k.0 ++ more, ap (λ t. t ++ more) k.1 ∙ append_assoc frames k.0 more)
Kept-push crashed taken all q more frames most e k = k

video_taken_lem :
    (s : Shared) (l : Local)
    → let t = take_packets s l in
      video_all t.1 ++ media t.0.video_queue ≡ video_all l ++ media s.video_queue
unfolding take_packets
video_taken_lem s l =
    let w = written l.video_stream.frames in
    let p = previous_id l.video_pkt_previous in
    let r = take_packet l.video_pkt s.video_queue in
    append_assoc w (p ++ held r.0) (media r.1)
    ∙ ap (λ t. w ++ t)
        (append_assoc p (held r.0) (media r.1)
          ∙ ap (λ t. p ++ t) (held-take_packet l.video_pkt s.video_queue)
          ∙ sym (append_assoc p (held l.video_pkt) (media s.video_queue)))
    ∙ sym (append_assoc w (p ++ held l.video_pkt) (media s.video_queue))

audio_taken_lem :
    (s : Shared) (l : Local)
    → let t = take_packets s l in
      audio_all t.1 ++ media t.0.audio_queue ≡ audio_all l ++ media s.audio_queue
unfolding take_packets
audio_taken_lem s l =
    let w = written l.audio_stream.frames in
    let r = take_packet l.audio_pkt s.audio_queue in
    append_assoc w (held r.0) (media r.1)
    ∙ ap (λ t. w ++ t) (held-take_packet l.audio_pkt s.audio_queue)
    ∙ sym (append_assoc w (held l.audio_pkt) (media s.audio_queue))

turn_cases :
    (mux : Muxer) (late : Bool) (s : Shared) (l : Local) (waits : Bool)
    → must_wait s l ≡ waits
    → (s.video || is_unused l.video_pkt s.video_queue) ≡ true
    → (s.audio || is_unused l.audio_pkt s.audio_queue) ≡ true
    → let taken = take_packets s l in
      let done = work mux late taken.0 taken.1 in
      let r : Phase × (Shared × Local) =
        if waits
        then (running, (s, l))
        else if (s.video || is_unused l.video_pkt s.video_queue)
            && (s.audio || is_unused l.audio_pkt s.audio_queue)
        then (done.0, (taken.0, done.1))
        else (crashed, (s, l)) in
      VideoKept r.0 (video_all l ++ media s.video_queue) (media r.1.0.video_queue) r.1.1
      × AudioKept r.0 (audio_all l ++ media s.audio_queue) (media r.1.0.audio_queue) r.1.1
turn_cases mux late s l true w ev ea = (refl, refl)
turn_cases mux late s l false w ev ea =
    let taken = take_packets s l in
    let k = work_lem mux late taken.0 taken.1 (woken s l w) in
    rw ev (rw ea (rw (sym (video_taken_lem s l)) (rw (sym (audio_taken_lem s l)) k)))

-- A turn keeps the packets of both streams.
turn_lem :
    (mux : Muxer) (late : Bool) (s : Shared) (l : Local)
    → (s.video || is_unused l.video_pkt s.video_queue) ≡ true
    → (s.audio || is_unused l.audio_pkt s.audio_queue) ≡ true
    → let r = turn mux late s l in
      VideoKept r.0 (video_all l ++ media s.video_queue) (media r.1.0.video_queue) r.1.1
      × AudioKept r.0 (audio_all l ++ media s.audio_queue) (media r.1.0.audio_queue) r.1.1
unfolding turn
turn_lem mux late s l ev ea = turn_cases mux late s l (must_wait s l) refl ev ea

turn-recorded :
    (mux : Muxer) (late : Bool) (s : Shared) (l : Local)
    → let r = turn mux late s l in (r.1.0.video ≡ s.video) × (r.1.0.audio ≡ s.audio)
unfolding turn take_packets
turn-recorded mux late s l = (ground arith, ground arith)

turn-shared :
    (mux : Muxer) (late : Bool) (s : Shared) (l : Local)
    → (turn mux late s l).1.0.stopped ≡ s.stopped
unfolding turn take_packets
turn-shared mux late s l = ground arith

pub works-Inv :
    (mux : Muxer) (late : Bool) (z : Session) (p : Phase)
    → z.phase ≡ p
    → Inv z
    → Inv (work_on mux late z p)
unfolding work_on
works-Inv mux late z running e inv =
    let s = z.shared in
    let l = z.local in
    let k = turn_lem mux late s l inv.video_unused inv.audio_unused in
    let r = turn mux late s l in
    let v : VideoKept running (media z.video_taken) (media s.video_queue) l =
      subst (λ p. VideoKept p (media z.video_taken) (media s.video_queue) l) e inv.video_kept in
    let a : AudioKept running (media z.audio_taken) (media s.audio_queue) l =
      subst (λ p. AudioKept p (media z.audio_taken) (media s.audio_queue) l) e inv.audio_kept in
    record {
      video_kept = subst (λ t. VideoKept r.0 t (media r.1.0.video_queue) r.1.1) (sym v) k.0;
      audio_kept = subst (λ t. AudioKept r.0 t (media r.1.0.audio_queue) r.1.1) (sym a) k.1;
      video_unused = (turn_unused mux late s l).0 inv.video_unused;
      audio_unused = (turn_unused mux late s l).1 inv.audio_unused;
      video_open = λ f. inv.video_open (sym (turn-recorded mux late s l).0 ∙ f);
      audio_open = λ f. inv.audio_open (sym (turn-recorded mux late s l).1 ∙ f);
      stops_first = λ f. rw (turn-shared mux late s l ∙ turn-stopped mux late s l f) refl;
    }
works-Inv mux late z ended e inv = inv
works-Inv mux late z failed e inv = inv
works-Inv mux late z crashed e inv = inv

-- The queues do not count once the thread has ended.
pub Kept-discard :
    (p : Phase) (s : Shared) (taken all frames : List ℕ) (most : ℕ) (queue : Shared → List ℕ)
    → Kept p taken (all ++ queue s) frames most
    → Kept p taken (all ++ queue (discard p s)) frames most
unfolding discard
Kept-discard running s taken all frames most queue k = k
Kept-discard ended s taken all frames most queue k = k
Kept-discard failed s taken all frames most queue k = k
Kept-discard crashed s taken all frames most queue k = k

pub discard_lem :
    (p : Phase) (s : Shared) (l : Local)
    → (video_ok s l ≡ true → video_ok (discard p s) l ≡ true)
      × (audio_ok s l ≡ true → audio_ok (discard p s) l ≡ true)
      × (s.stopped ≡ true → (discard p s).stopped ≡ true)
      × ((discard p s).video ≡ s.video)
      × ((discard p s).audio ≡ s.audio)
unfolding discard is_unused
discard_lem running s l = ((λ e. e), (λ e. e), (λ e. e), refl, refl)
discard_lem ended s l =
    ((λ e. ground (arith, e)), (λ e. ground (arith, e)), (λ e. refl), refl, refl)
discard_lem failed s l =
    ((λ e. ground (arith, e)), (λ e. ground (arith, e)), (λ e. refl), refl, refl)
discard_lem crashed s l = ((λ e. e), (λ e. e), (λ e. e), refl, refl)
