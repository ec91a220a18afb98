-- ===== src/Lib.antt =====
-- alsa-utils: a model of the containers, mappers and transfers of axfer, of the MIDI files of aplaymidi
-- and arecordmidi, of the bytes of amidi, and of the buffer of alsaloop, and what holds of them.
--
-- axfer records PCM frames to files and plays them back. A container is the state of one such file
-- (`struct container_context`, axfer/container.h). A parser is opened on a file to play, a builder on
-- a file to record; each is initialised, told or asked for the parameters of the frames
-- (`pre_process`), transfers frames (`process_frames`) and is finished (`post_process`). What
-- depends on the format of the file is behind `cntr->ops`: Sun audio, RIFF/WAVE, Creative VOC, raw.
--
-- Files and code:
--   Common            Boolean tests, lists and machine words over the native numbers
--   Axfer/Pcm         what the code uses of alsa-lib: an argument (`Pcm`), with the formats by name
--   Axfer/Os          the system calls on the descriptor: an argument (`Os`); Os/Laws states what a
--                     regular file guarantees, as hypotheses (`ReadLaws`, `WriteLaws`)
--   Axfer/Context     axfer/container.h: the state, the private states of the formats, the monad `M`
--   Axfer/FrameCache  axfer/frame-cache.c, axfer/frame-cache.h: frames that a transfer has not consumed
--   Axfer/Formats     sample formats are compared as C compares their numbers
--   Container         one module per part of axfer/container*.c:
--     Io              container.c: container_recursive_read, container_recursive_write,
--                     container_seek_offset
--     Session         container.c: container_format_from_path, container_parser_init,
--                     container_builder_init, container_context_destroy
--     Transfer        container.c: container_context_pre_process, container_context_process_frames,
--                     container_context_post_process, and the dispatch on `cntr->ops`
--     Au, RiffWave, Voc, Raw
--                     container-au.c, container-riff-wave.c, container-voc.c, container-raw.c: each
--                     with its parser and its builder
--     Tests           the theorems at concrete inputs, on a kernel that can be run (Tests/Machine)
--   Mapper            axfer/mapper.h, axfer/mapper.c: between the frames of a PCM and one container, or
--                     one for each channel; a client of Container/Transfer
--     Single, Multiple  mapper-single.c, mapper-multiple.c
--     Align           their four functions that interleave and deinterleave samples
--     Tests           the theorems at concrete inputs
--   Xfer              axfer/xfer-libasound-irq-rw.c without `nonblock`: read_frames, write_frames,
--                     r_process_frames_blocking, w_process_frames_blocking, irq_rw_process_frames; and
--                     axfer/xfer-libasound.c: xfer_libasound_process_frames. A client of FrameCache,
--                     Mapper and Container
--     Alsa            what it uses of alsa-lib: an argument (`Device`)
--     Command         axfer/subcmd-transfer.c: context_process_frames
--     Capture, Recording, Xrun
--                     what read_frames keeps of captured frames, and the count after an overrun
--     Tests           the theorems at concrete inputs
--   Midi              seq/aplaymidi:
--     Stream, Play, Play/Smf
--                     aplaymidi.c: the numbers of a file, read_track, read_smf and read_riff
--     Merge           aplaymidi.c: the order in which play_midi takes the events of the tracks
--     Output          aplaymidi.c: fill_legacy_event, handle_big_sysex
--     Record          arecordmidi.c: the buffers of a track, record_event, finish_tracks, write_file
--     Vlq, Turns, Carry, Commands, Exclusive, Heard, RoundTrip, Files
--                     what is recorded, as it is played: numbers, rounds of read_track, steps of the
--                     recorder with these rounds, the kinds of event, whole tracks and files
--     Tests           the theorems at concrete inputs
--   Amidi             amidi/amidi.c: parse_data, print_byte, send_midi_interleaved, and the choice of the
--                     bytes that main keeps; Laws, and Tests with concrete inputs
--   Loop              alsaloop/pcmjob.c, alsaloop/alsaloop.h:
--     State           `struct loopback_handle`, `struct loopback`, and alsa-lib as an argument (`Device`)
--     Io              readit, writeit, xrun, suspend
--     Pass            buf_add, buf_remove, remove_samples, lhandle_start, increase_playback_avail_min, and
--                     the transfer loop of pcmjob_pollfds_handle
--     Window, Ring    the frames between two positions of a ring buffer, and what holds of them
--     Laws            what is asked of the PCMs (`DeviceLaws`), and the invariant of the buffer (`Inv`)
--     Reads, Writes, Keeps
--                     readit, writeit and the loop keep the invariant
--     Tests           the theorems at concrete inputs, on PCMs that can be run
-- Functions have the names that they have in C. A function that C splits by early returns or labels
-- has helpers here, named for what they do.
--
-- State: a function of a container is a function in `M`, from the context and the state of the
-- kernel to a result and both. A result is a value, `-errno` (`err`), a failed assertion (`abort`),
-- behaviour that C leaves undefined, such as a division by zero (`fault`), or `stuck`: the fuel of a
-- loop is used up. Buffers are lists of bytes; structures of a file are bytes at offsets. Numbers
-- are natural, with the wrap-around of `unsigned int`, `uint16_t` and `uint64_t` written out; an
-- `int` is a `CInt`. The flag `interrupted`, which a signal handler sets, may change in every
-- system call. Memory that C does not initialise is an argument (`junk`).
--
-- Fuel: the loops around read(2) and write(2) end only if the kernel makes progress, so their fuel
-- is the number of rounds. `ReadLaws` and `WriteLaws` have a number `patience` that each `EAGAIN`
-- lowers; one round more than the bytes and the patience together is enough. One fuel serves all
-- loops of a call; the theorems state how much they want.
--
-- A mapper is a function of its own state and of the list of its containers. The buffer that a
-- `void *` points to is interleaved frames or a buffer for each channel (`FrameBuffer`); a call with
-- the other kind, and a copy out of bounds, is `fault`.
--
-- aplaymidi and arecordmidi have no state of the kernel: a file is the list of bytes that getc
-- reads, with its offset and its flag for feof, or that is written. An `int` is the 32-bit word
-- that represents it, or a number where the code excludes negative ones; ticks that overflow are
-- `overflow`. read_track has fuel for its rounds; the bytes of the track are enough, and the
-- search for a chunk has as much. Whether alsa-lib sets a tempo is an argument. arecordmidi's
-- tracks are lists of buffers. Sizes and offsets are taken to stay below 2 GiB, and memory to
-- suffice: check_mem ends the program. Commands, and the numbers of controllers, are those of the
-- MIDI standard, which alsa-lib names.
--
-- `Transfer` is the state of a transfer of axfer: the cache, the mapper with its containers, and the
-- PCM. The loop of the command has fuel for its rounds.
--
-- A `Device` is what alsaloop calls of alsa-lib for its two PCMs, as functions on their state; a frame
-- is one number. An answer is a number of frames or of an error (`Sframes`), as an unsigned number
-- where the code converts it (`uframes`). The loops of readit and writeit end when the buffer is full
-- or empty, and writeit has one round more for a resume: two more than the buffer's size is enough
-- fuel where no PCM is suspended. The transfer loop has the rounds that its counter allows.
--
-- The cache of frames answers `none` where its move of bytes is out of bounds, and an argument tells
-- which calls of calloc fail.
-- snd_rawmidi_write of amidi is an argument too: it answers each call with the
-- number of bytes that it took, which the code does not use, or with an error.
--
-- Not modelled: messages to stderr, `free`, and addresses; the hypothesis that a descriptor is not
-- negative; requests past the end of the caller's buffer, which are taken as undefined. Of axfer, the
-- transfers other than axfer/xfer-libasound-irq-rw.c, its non-blocking part, the setup of the
-- hardware, the waiters and the command line, which order calls of alsa-lib. Of amidi, the device,
-- polling, pauses and timestamps. Of alsaloop, the start and the parameters of the PCMs, what follows
-- an xrun (xrun_sync), and the pitch, which are floating point and calls of alsa-lib, and the
-- conversion of rates, which is libsamplerate's. Of arecordmidi, the metronome; of both MIDI programs
-- the ports and the queue, and of aplaymidi the packets of UMP (fill_ump_event). Of alsa-utils, all
-- other programs.
pub mod Common
pub mod Axfer
pub mod Container
pub mod Mapper
pub mod Midi
pub mod Amidi
pub mod Loop
pub mod Xfer
