-- ===== src/Lib.antt =====
-- ardopb: the protocol core of an ARDOP modem, core/codec and core/link, its rings, the
-- records of its captures, the runtime and the host protocol of its shell, and its application protocol.
--
-- The core is C without input and output. The codec turns station ids, grid squares and payloads into the
-- bytes of frames; the link is a state machine that is fed received frames, host commands, timer
-- services and ends of transmission, and that answers with actions: send a frame, wake me at,
-- tell the host, deliver data. The runtime carries the actions out: it keys the transmitter, has the modem turn
-- frames into sound, and tells its observers. The host's lines of text reach the link through it. The sample
-- ring stands between the audio callback and the modem's thread, the record ring between the
-- application's threads. The application protocol sends messages over the link's byte stream.
--
-- Codec.Crc         core/codec/crc.c        CRC-16, CRC-8 and the trailer with the frame type mixed in
-- Codec.Packed6     core/codec/packed6.c    eight characters in six bytes
-- Codec.StationId   core/codec/stationid.c  callsign and SSID as text and as wire bytes
-- Codec.Locator     core/codec/locator.c    grid squares
-- Codec.Frame       core/codec/frame.c, .h  the table of frame types and the questions put to it
-- Codec.Rs          core/codec/rs.c         the field tables, the generators and the Reed-Solomon encoder
-- Codec.DataFrame   core/codec/dataframe.c  ardop_encode_data_frame
-- Link.Quality      core/link/quality.c     decode quality in ACK and NAK types, and its average
-- Link.Session      core/link/session.c     session ids and whether a frame is for this station
-- Link.Bandwidth    core/link/bandwidth.c   the answer to a connect request
-- Link.DataModes    core/link/datamodes.c   the ladders of the gear shift
-- Link.Frames       core/link/frames.c      the control frames
-- Link.State        core/link/link.h        struct ardop_link and the types of inputs and actions
-- Link.Turn         core/link/link.c        what the handlers share: emit, send_control, arm_repeat, ...
-- Link.Disc         core/link/link.c        step_disc_rx with its helpers, step_iss_conreq_rx
-- Link.Send         core/link/link.c        the queue, gearshift, apply_shift, iss_send_next
-- Link.Iss, Irs     core/link/link.c        the receive handlers of the sending and receiving states
-- Link.Fec          core/link/link.c        FEC broadcast and reception, receive-only mode
-- Link.Host, Timer  core/link/link.c        step_host and its commands, step_timer
-- Link.Step         core/link/link.c        ardop_link_step
-- Ring              shell/ring.c, app/ring.c   the buffer, and the copies in and out of it
-- Ring.Samples      shell/ring.c            the sample ring; Threads has its two threads step by step
-- Ring.Records      app/ring.c              the record ring
-- Asp.Varint, Frame app/asp_wire.c          lengths and messages
-- Asp.Payloads      app/asp_wire.c          what the messages carry; the words are in Base.Words
-- Asp.Crc           app/asp_wire.c          the CRC-32 of files
-- Asp.SafeName      app/asp_wire.c          asp_safe_name
-- Asp.Session       app/asp.c, .h          the session: Sending has what it sends, Receiving its handlers and
--                                           asp_recv; Calls is the application that uses it, and
--                                           Reads the handling of received bytes as a relation, without fuel
-- Capture           shell/capture.c       the records of a capture, encoded and parsed
-- Shell.Sinks       shell/runtime.h       the observations, and what is handed to the sinks
-- Shell.Runtime     shell/runtime.c       the link between its modem and its sinks; Calls has what the main loop calls
-- Shell.Host        shell/host.c          the host's commands: Commands those for settings, Actions those for the
--                                         link and ardop_host_command, DataFrames the data channel
-- Shell.Settings    shell/settings.c      the settings, and in File their file
-- Shell.Calls                             the runtime under any calls and any lines of a host
--
-- A module has the name of its source and a definition the name of its function, without the prefix
-- `ardop_`, `asp_` or `app_`; a part of a long function is a definition of its own. Modules below these hold the
-- proofs; Link.Actions, Link.Settings, Link.Flow, Link.Queue and Link.Closing hold those about whole steps.
--
-- Numbers are natural numbers with the wrap-around of the C type written out where a value can reach it;
-- `int` arguments that may be negative are integers of Base.Int. An array is a list; a pointer
-- to one of several structs is an option, `none` for NULL; a `char` array is the text before its NUL. The
-- link's struct is a record of records (Config, Session, Sender, Gear, Timers, Scratch). The caller's
-- transmit buffer is the list of the queued bytes. A handler takes a turn, which is the link, the actions
-- emitted so far and a flag `faulted`, to the next turn; the flag is set where the C program
-- would read through NULL or outside a table, and the turn then goes on unchanged. An
-- action names the bytes in the link's buffers that it points at by their number.
--
-- Bounds and fuel: loops are recursion on lists or on a count of rounds that is the C loop's own bound
-- (256 types, 8 bits, 255 symbols). `decimal` divides with one more unit of fuel than the number, which halves
-- faster than that. An average of qualities is taken in integers, which is exact for the C program's
-- `float` below 2 ^ 24. `strtol` in base 36 is modelled for the two characters that an SSID holds.
--
-- A ring is in service while its counters, of type `size_t` with 64 bits, have not been counted round; at a
-- capacity that is no power of two the cells would jump there. In Ring.Samples.Threads a thread's load,
-- copy and publication are one step each. `asp_frame_put` is modelled for a payload that is
-- not NULL. The callbacks of a session are functions of a world and do not call the session; what
-- is relied on is that `send` and `read_file` handle no more bytes than they are given or asked
-- for. Its loops are on fuel: `flush` has a round for each byte that waits and one more, the outer loop of
-- `asp_recv` one for each byte received, the inner one for each byte held and one more, and the check of a
-- prefix one for each byte and one more.
--
-- The runtime's signal processing, laying a frame down as samples, hearing frames in samples and telling a busy
-- channel, is a parameter (Modem). What only the displays read is left out of it: spectrum, constellation and audio
-- level. `pull_tx` calls itself for a frame that had no sample left, which is on fuel; every result is stated at any
-- fuel. The build's id is a parameter of the commands. `atoi` of a number beyond `long` is that of the usual C library,
-- the low 32 bits of the nearest `long`.
--
-- A settings file is the list of its bytes. Loading has a round for each byte of it, more of which load the same
-- (Shell.Settings.Loaded). How the calls of a save end, opening the new file, writing, closing and replacing the old
-- one, is a parameter; the file beside the old one is gone after each of them and is left out. A value has no NUL.
--
-- Not modelled: ardop_settings_path, the callbacks of the sessions (app/asp_app.c), the Reed-Solomon decoder,
-- the modem (core/modem), the file output of captures, the rest of the shell, the applications and the user interfaces.
pub mod Base
pub mod Codec
pub mod Link
pub mod Ring
pub mod Asp
pub mod Capture
pub mod Shell
