-- ===== src/JitterBuffer/Tests.antt =====
-- jitter_buffer.cpp: runs of the code and instances of the theorems, with a decoder of 8 kHz whose
-- frames have 20 samples of 2.5 milliseconds.
use full_duplex_radio.Prelude.{
  ℕ, ◌≤◌, ◌<◌, ◌≡◌, refl, sym, arith, List, [], ◌∷◌, length, replicate, true, false, some,
}
use full_duplex_radio.Prelude.Int.{ℤ, pos}
use full_duplex_radio.Serial.{add32, distance, precedes}
use full_duplex_radio.Proto.{MediaPacket, talkspurt_start, talkspurt_end}
use full_duplex_radio.ReorderQueue.{Frame, insert, store, index, reset, vacate_all}
use full_duplex_radio.ReorderQueue.Consume.{peek_next, skip_to, skip_loop, skip_step}
use full_duplex_radio.ReorderQueue.Emptied.{new-IsValid}
use full_duplex_radio.OpusCodec.{
  ok, is_open, open_decoder, is_valid_frame_samples, decode, run_decode, reset_state,
}
use full_duplex_radio.Clock.{samples_to_us, us_to_samples}
use full_duplex_radio.JitterBuffer.{
  JitterBuffer, new, close_buffer, open_buffer, deadline_of, anchor,
}
use full_duplex_radio.JitterBuffer.Toy.{
  toy_decoder, toy_contract, short_frames, opened, opened_done,
}
use full_duplex_radio.JitterBuffer.Push.{resynced, push}
use full_duplex_radio.JitterBuffer.Pull.{pull}
use full_duplex_radio.JitterBuffer.Ledger.{Entered, pull-Entered}
use full_duplex_radio.JitterBuffer.Valid.{IsSound}
use full_duplex_radio.JitterBuffer.Run.{
  Call, call_open, call_close, call_reset_stream, call_push, call_pull, run, run-IsSound,
}
use full_duplex_radio.JitterBuffer.Resync.{StandsOn}
use full_duplex_radio.JitterBuffer.Jump.{push_far}
use full_duplex_radio.JitterBuffer.Timeline.{frames_due, next_due, pull_cursor}
use full_duplex_radio.JitterBuffer.Frame.{Contained, IsSized, pull-Contained}
use full_duplex_radio.JitterBuffer.Open.{open_buffer_lem, IsOpenFor, open_buffer-IsOpenFor}
use full_duplex_radio.JitterBuffer.Early.{Plays, overdue, caught_up, pull_early}

abbrev media : ℕ → ℕ → MediaPacket
media sequence timestamp = record {
  header = record { flags = 0; stream_id = 9; sequence = sequence; timestamp = timestamp };
  payload = 1 ∷ 2 ∷ [];
}

abbrev buffer : List ℤ
buffer = replicate 24 (pos 5)

-- One packet has arrived, and a second one a second later on the sender's timeline.
abbrev playing : JitterBuffer ℕ
playing = (push toy_decoder (push toy_decoder opened (media 0 0) 1000).0 (media 10 49200) 1500).0

opened_open : is_open opened.decoder ≡ true
unfolding open_buffer open_decoder is_valid_frame_samples us_to_samples
opened_open = refl

playing_open :
    (is_open playing.decoder ≡ true)
    × (playing.anchored ≡ true)
    × (playing.has_stream ≡ true)
    × (playing.stream_id ≡ 9)
    × (playing.frame_pcm ≡ 20)
    × (playing.queue.cursor ≡ 0)
unfolding push open_buffer open_decoder is_valid_frame_samples us_to_samples insert store index
    distance precedes talkspurt_end anchor reset deadline_of samples_to_us vacate_all
    talkspurt_start
playing_open = (refl, refl, refl, refl, refl, refl)

playing_room : playing.frame_pcm ≤ length buffer
playing_room = omega (arith, playing_open.4)

abbrev calls : List Call
calls = call_open short_frames ∷ call_push (media 0 0) 1000 ∷ call_push (media 10 49200) 1500 ∷ []

calls-IsSound : IsSound (run toy_decoder new calls)
calls-IsSound =
    run-IsSound toy_decoder calls new (tt, (omega arith, (omega arith, tt))) (new-IsValid, refl)

playing-IsSound : IsSound playing
unfolding run
playing-IsSound = calls-IsSound

run-IsSound_example :
    IsSound (run toy_decoder playing (call_pull buffer 90000 ∷ call_reset_stream ∷ call_close ∷ []))
run-IsSound_example =
    run-IsSound toy_decoder (call_pull buffer 90000 ∷ call_reset_stream ∷ call_close ∷ []) playing
      (tt, (tt, (tt, tt))) playing-IsSound

pull-Entered_example : Entered playing (pull toy_decoder playing buffer 86000)
pull-Entered_example = pull-Entered toy_decoder playing buffer 86000 playing_room playing_open.0

pull_cursor_example :
    (pull toy_decoder playing buffer 86000).0.queue.cursor
    ≡ add32 playing.queue.cursor (frames_due playing (next_due playing) 86000)
pull_cursor_example =
    pull_cursor toy_decoder playing buffer 86000 playing-IsSound playing_room playing_open.0
      playing_open.1

inside : talkspurt_start (media 70 8400).header ≡ false
unfolding talkspurt_start
inside = refl

playing_target : playing.config.target_delay_us ≡ 60000
unfolding push open_buffer open_decoder is_valid_frame_samples us_to_samples insert store index
    distance precedes talkspurt_end anchor reset deadline_of samples_to_us vacate_all
    talkspurt_start
playing_target = refl

push_far_example :
    let (jb', o) = push toy_decoder playing (media 70 8400) 1600 in
    (o ≡ resynced) × StandsOn (media 70 8400) 1600 jb'
push_far_example =
    push_far toy_decoder playing (media 70 8400) 1600 playing-IsSound playing_open.0 playing_open.2
      (sym playing_open.3) playing_open.1 inside (omega arith) (omega (arith, playing_open.5))
      (omega (arith, playing_open.5)) (omega arith) (omega (arith, playing_target))

open_buffer_lem_example :
    let (jb', done) = open_buffer toy_decoder new short_frames in
    (done
      ≡ (open_decoder toy_decoder (close_buffer toy_decoder new).decoder short_frames.decoder).1)
    × (is_open jb'.decoder ≡ done)
    × (1250 ≤ jb'.frame_us)
    × (jb'.frame_us ≤ 60000)
open_buffer_lem_example = open_buffer_lem toy_decoder new short_frames (omega arith)

open_buffer-IsOpenFor_example : IsOpenFor toy_decoder (λ s. s) toy_contract short_frames opened
open_buffer-IsOpenFor_example =
    open_buffer-IsOpenFor toy_decoder (λ s. s) toy_contract new short_frames (omega arith)
      opened_done

playing-IsSized : IsSized toy_decoder (λ s. s) playing
unfolding push open_buffer open_decoder is_valid_frame_samples us_to_samples insert store index
    distance precedes talkspurt_end anchor reset deadline_of samples_to_us vacate_all
    talkspurt_start
playing-IsSized = ((refl, omega arith), refl)

pull-Contained_example :
    Contained toy_decoder (λ s. s) playing buffer (pull toy_decoder playing buffer 86000)
pull-Contained_example =
    pull-Contained toy_decoder (λ s. s) toy_contract playing buffer 86000 playing-IsSized

-- The frame of the second packet, due a second and more after the call.
abbrev late_frame : Frame
late_frame = record {
  info = record { header = (media 10 49200).header; arrival_us = 1500; deadline_us = 1086000 };
  payload = 1 ∷ 2 ∷ [];
}

playing_late :
    (next_due playing ≡ 61000)
    × (overdue toy_decoder playing 86000 ≡ 10)
    × (peek_next (caught_up toy_decoder playing 86000).queue ≡ some late_frame)
    × (deadline_of (caught_up toy_decoder playing 86000) 49200 ≡ 1086000)
    × (playing.config.max_catchup_frames ≡ 5)
    × (ok
          (decode toy_decoder
            (caught_up toy_decoder playing 86000).decoder
            late_frame.payload
            buffer).2
        ≡ true)
unfolding push open_buffer open_decoder is_valid_frame_samples us_to_samples insert store index
    distance precedes talkspurt_end anchor reset deadline_of samples_to_us vacate_all
    talkspurt_start pull peek_next skip_to skip_loop skip_step decode run_decode reset_state
playing_late = (refl, refl, refl, refl, refl, refl)

pull_early_example :
    Plays toy_decoder late_frame (pull toy_decoder playing buffer 86000)
    × (86000
        < deadline_of
            (caught_up toy_decoder playing 86000)
            (pull toy_decoder playing buffer 86000).2.timestamp)
pull_early_example =
    pull_early toy_decoder playing buffer 86000 late_frame playing_room playing_open.0
      playing_open.1 (omega (arith, playing_late.0)) (omega (arith, playing_late.1, playing_late.4))
      playing_late.2 playing_late.5 (omega (arith, playing_late.3))
