-- ===== src/Lib.antt =====
-- Verification of Full-Duplex Radio: the portable core, the C++ library under core/, and the session
-- of the Android application that puts it to work.
--
-- The core carries voice between two devices over UDP. A packet arrives as bytes and is checked by
-- the wire format; its sequence number is classified by the sequence tracker, which counts losses,
-- and its frame is kept by the reorder queue of the jitter buffer, which plays the frames at their
-- time on the local timeline and fills the holes with its decoder. Rings carry the samples between
-- the audio thread and the rest. The prober sends pings on the pacer's schedule, matches the replies,
-- and feeds their four timestamps to the clock estimate, which keeps its round-trip times in a
-- histogram. The session cuts the captured samples into frames, encodes and sends them, sorts the
-- datagrams that arrive, and feeds the jitter buffer from the audio callback.
--
-- The files, and the code that they model:
--   Prelude        shared names, Boolean tests, lists, signed integers, the laws of bits, and the places
--                  of a ring
--   Serial         core/include/radio/serial.hpp: distance, precedes, precedes_or_equal, max (later)
--   Bytes          core/include/radio/bytes.hpp: loads and stores of both byte orders
--   Proto          core/include/radio/proto.hpp, core/src/proto/proto.cpp: the packets, parse_media,
--                  parse_control, parse_pong_body, peek_type and the encoders
--   SeqTracker     core/include/radio/seq_tracker.hpp, core/src/metrics/seq_tracker.cpp: observe,
--                  expected, lost; SeqTracker/Ideal is the tracker without wrap that it refines
--   ReorderQueue   core/include/radio/reorder_queue.hpp, core/src/audio/reorder_queue.cpp: start,
--                  resync, reset and insert; ReorderQueue/Consume has peek, advance, skip_to,
--                  drop_expired and depth; ReorderQueue/Valid has the invariant
--   Clock          core/include/radio/clock.hpp: the conversions between microseconds and samples
--   OpusCodec      core/include/radio/opus_codec.hpp, core/src/audio/opus_codec.cpp: the decoder, and
--                  in OpusCodec/Encoder the encoder, around libopus, which is a parameter
--                  (DecoderLibrary, EncoderLibrary); OpusCodec/Contract has what libopus promises
--   JitterBuffer   core/include/radio/jitter_buffer.hpp, core/src/audio/jitter_buffer.cpp: open,
--                  close, reset_stream and the deadlines; JitterBuffer/Push has push,
--                  JitterBuffer/Pull has pull, cut into the functions of its branches
--   Pacer          core/include/radio/pacer.hpp, core/src/net/pacer.cpp
--   Histogram      core/include/radio/histogram.hpp, core/src/metrics/histogram.cpp: the buckets,
--                  record (record_value), merge, min and max (min_of, max_of)
--   ClockSync      core/include/radio/clock_sync.hpp, core/src/time/clock_sync.cpp
--   Prober         core/include/radio/prober.hpp, core/src/net/prober.cpp
--   SpscRing       core/include/radio/spsc_ring.hpp: push, pop, their bulk forms, discard and reset,
--                  one operation at a time; SpscRing/Refine has the bounded queue it is compared with
--   Trace          core/include/radio/trace.hpp, core/src/metrics/trace.cpp: the trace records and
--                  the buffer of the last of them (record is add_record, operator[] is item)
--   Wav            core/include/radio/wav.hpp, core/src/audio/wav.cpp: read_wav, write_wav
--                  and downmix_to_mono over the bytes of a file
--   Floats         the arithmetic of doubles, as a parameter
--   JitterEstimator core/include/radio/jitter_estimator.hpp, core/src/metrics/jitter_estimator.cpp
--   Impairment     core/include/radio/impairment.hpp, core/src/sim/impairment.cpp: the simulated
--                  network; Impairment/Draw has the draws, and Impairment/Decide has decide
--   Session        android/app/src/main/cpp/session.hpp and session.cpp, where the core is put to
--                  work: Session/Transmit has on_capture and transmit_available, Session/Receive has
--                  receive_available and the prober's part of a round, Session/Playout has on_playout
--
-- A class is a record of its fields, and a method a function from the record to the new record and
-- its result. Machine words are native numbers with the wrap written out; uint64_t counters are
-- modulo 2^64. int32_t and int64_t results are integers; where the code computes timestamps in
-- int64_t, whose overflow is undefined, the integers are unbounded. A buffer is the list of its
-- bytes or samples: a load past its end gives the parameter `oob`, and a store past its end does
-- nothing. An `OpusDecoder*` is an optional state. What is not code of the repository is a record of
-- functions that the definitions take: libopus, the doubles, and the platform of the session, which
-- is its clock, its entropy and its socket. The threads of the session meet in its two rings and
-- the talk switch; an operation of one thread runs with none of another thread in between.
--
-- The loops that run on fuel: clearing the window of the sequence tracker has the window size of 1024
-- slots, and runs only for spans below that size; the walk over the chunks of a WAV file has the
-- length of the file, and each round moves on by eight bytes or more; the loops of on_playout have
-- a round for each datagram and for each sample, and those of transmit_available and
-- receive_available a round for each frame captured and, as an argument, for each datagram that
-- waits, and one more. All other loops are structural.
--
-- Not modelled: floating-point results (loss_fraction, mean, percentile, snapshot, drift_ppm) and
-- to_string labels; the memory orders of the ring; the CSV and JSON writers of the traces; libopus
-- itself; the moves of an encoder or decoder to another object; sockets, addresses and the system
-- clock; the tools under tools/; start, stop and snapshot of the session and the counters that it
-- only publishes; the audio engine and the JNI bridge of the Android application.
pub mod Prelude
pub mod Serial
pub mod Bytes
pub mod Proto
pub mod SeqTracker
pub mod ReorderQueue
pub mod Pacer
pub mod Floats
pub mod Histogram
pub mod ClockSync
pub mod Prober
pub mod Clock
pub mod OpusCodec
pub mod JitterBuffer
pub mod JitterEstimator
pub mod Impairment
pub mod Session
pub mod SpscRing
pub mod Trace
pub mod Wav
