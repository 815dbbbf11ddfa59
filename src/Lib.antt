-- ===== src/Lib.antt =====
-- mod_h2, the HTTP/2 module of the Apache server: a model of its stream state machine, its sessions
-- with their loop, its multiplexer, its queues, its server push, its configuration and its
-- alternative services.
--
-- The program. A connection has one session (mod_http2/h2_session.c), which an event machine moves
-- between the states INIT, IDLE, BUSY, WAIT, DONE and CLEANUP. A session has streams
-- (mod_http2/h2_stream.c), each with the states of RFC 7540; frames, and events of its own, move a
-- stream by three transition tables. A stream tells its session of each new state and event through
-- the callbacks of an h2_stream_monitor, and the session counts streams, queues ids, and submits
-- RST_STREAM and GOAWAY frames to nghttp2. Queues of stream ids (h2_iqueue) and queues that threads
-- share (h2_fifo, h2_ififo) are in mod_http2/h2_util.c. The multiplexer (mod_http2/h2_mplx.c) gives
-- streams to workers. The loop h2_session_process drives a session: it reads, writes and waits, and
-- gives events to the machine. Link headers of a response become pushes (mod_http2/h2_push.c), and a
-- session remembers what it has pushed in a diary of hashes, which a client can fill by a digest, a
-- Golomb coded set. Directives of the server fill configurations (mod_http2/h2_config.c) that the
-- other parts read, and alternative services (mod_http2/h2_alt_svc.c) that responses announce.
--
-- The files.
--   Prelude, Ring: numbers, lists and integers, and arrays that are indexed modulo their size, with
--     the window of entries that starts at the head.
--   Apr: apr_status_t, apr_table_t, and the comparison of texts.
--   Util.IQueue: h2_iq_create, h2_iq_add, h2_iq_append, h2_iq_remove, h2_iq_sort, h2_iq_shift and
--     the others, with iq_grow. Its children state what the operations do to the list of entries
--     (View); Insertion is insertion sort on lists, Slots, Bubbles, Settling and Sorting are about
--     h2_iq_sort.
--   Util.Fifo: h2_fifo_push, h2_fifo_pull, h2_fifo_peek, h2_fifo_remove, their variants that do not
--     wait, and the creation. View has the same operations on a list; Threads puts several
--     threads together. Util.IFifo: the same functions over integers.
--   Util.Log2: h2_log2, with the shifts of a 32-bit number written out. Util.Camel:
--     h2_util_camel_case_header. Util.Base64: h2_util_base64url_decode and h2_util_base64url_encode.
--   Stream: struct h2_stream, the enumerations of mod_http2/h2.h, and the monitor as an environment
--     `Env` of callbacks on a context. Tables: the three tables. Beams: what a stream uses of
--     mod_http2/h2_bucket_beam.c. Machine: transit, h2_stream_dispatch, h2_stream_rst, close_input,
--     close_output and h2_stream_flush_input. Frames: h2_stream_send_frame, h2_stream_recv_frame,
--     h2_stream_recv_DATA, h2_stream_create, h2_stream_add_header and others. The other children
--     hold the proofs: States (the diagram of RFC 7540), Effects, Paths, Counting, Accounting, Context,
--     Depth.
--   Session: struct h2_session. Callbacks: on_stream_state_enter, on_stream_event,
--     on_stream_state_event and their helpers; `with_monitor` makes them the environment of the
--     streams. Events: dispatch_event with all its handlers, h2_session_shutdown,
--     h2_session_shutdown_notice, and cleanup_unprocessed_streams over h2_mplx_stream_do of
--     mod_http2/h2_mplx.c. Kept, Goaway, Shutdown, Resets, Counting: the
--     proofs. Priority: spri_cmp, stream_pri_cmp, valid_weight and h2_session_set_prio, a stream of
--     nghttp2 being the list of its ancestors, itself first; Order, Level and Weights: the proofs.
--     Process: what h2_session_process does in each state, h2_session_send and dispatch_master; Run:
--     its rounds and its return; Returns: the proofs.
--   Request: struct h2_request, h2_req_create and h2_request_end_headers.
--   Push.Link: the reader of Link headers, from attr_char to read_sep, and has_relation; Printed: the
--     texts of headers. Push.Collect: inspect_link with add_push, and h2_push_collect; RoundTrip and
--     Dropped: the proofs; Announced: the header that check_push of mod_http2/h2_h2.c sends.
--   Push.Diary: h2_push_diary_find, move_to_last, h2_push_diary_append and h2_push_diary_update.
--     Order, Update and Forgotten state what they do to the list of entries. Push.Gset: Encode has
--     gset_encode_bit and gset_encode_next, Decode gset_decode_next_bit and gset_decode_next; Cells
--     (the bits of a byte), Written, Step, Code, Read, Value and Fuel hold the proofs. Push.Digest:
--     ceil_power_of_2, h2_push_diary_digest_get, h2_push_diary_digest_set and
--     h2_push_diary_digest64_set, with Store, Header, RoundTrip and Bounds.
--   Mplx: struct h2_mplx with stream_cleanup, stream_joined, h2_mplx_process and others of
--     mod_http2/h2_mplx.c. Schedule: next_stream_task, h2_mplx_pop_task, task_done, h2_mplx_task_done,
--     h2_mplx_idle and unschedule_slow_tasks. Run: the operations in any order. Cases, Limits, Hold,
--     Redo and Stuck hold the proofs.
--   Config: the structs, h2_config_create_svr, h2_config_merge and those for directories. Access:
--     h2_config_geti, h2_config_seti and their variants, h2_cconfig_get_priority and
--     h2_get_num_workers. Directives: the functions of the directives; Table: h2_cmds. Fields, Reading,
--     Merging and the children Ranges, Kept, Cmds and Made of Directives hold the proofs.
--   AltSvc: h2_alt_svc_parse and h2_alt_svc_handler; Laws: the proofs.
--   The modules Examples apply theorems to concrete queues, streams and sessions.
--
-- Conventions. A function that changes a struct takes it and returns the new one. A failed ap_assert
-- is the result `none` of a stream's operation, and the outcome `asserts` of a queue's. nghttp2, the
-- connection's output and the multiplexer are fields of the record `Outside`, requests and tables
-- fields of `Env`. Ids and counters are numbers that do not overflow; open_streams, an int in C, is
-- an integer. What a session sends to nghttp2 is counted by a function `g` on the state of `Outside`,
-- with the laws `Goaways`: each call but nghttp2_submit_goaway leaves the number of GOAWAY frames.
-- Of the push diary, the hash of a push, the memory that a pool gives and the C library's qsort
-- are parameters, and so are the size of a block that a pool gives and what a shift gives that C
-- leaves undefined; a write behind a block and a diary with a negative N are `none`. What
-- h2_session_process calls of nghttp2, the input filters, the multiplexer and the server is the
-- record `Loop` of functions on the session and its streams. Tables of headers are a record
-- `Tables` with apr_table_get, apr_table_setn and others, addresses and their parser a record
-- `Apr`, the hash of priorities and apr_atoi64 are parameters. A reader of a text takes what is
-- left of it and returns what is left afterwards; a value of a configuration is an integer, which
-- is cut to an int where the code does so.
--
-- Bounds. h2_stream_dispatch calls itself through h2_stream_rst and close_input, and `dispatch_in` is
-- that recursion to a depth. Three is enough: an event may reset the stream (the event CANCELLED),
-- the reset may close the input (the event IN_DATA_PENDING), and this event has no line in the
-- table, so that it calls nothing. The callbacks of a session do not dispatch stream events. The
-- loops of the queues run over their number of entries. The loop of gset_decode_next has as many
-- rounds as the data has bits, and one more; each round reads a bit. The loops of inspect_link
-- run over the length of the text, of which each link and each parameter takes a character. The loop
-- of h2_session_process runs on fuel, a number of rounds, and is `none` when that is used up: an idle
-- session may stay in it for as long as the client keeps the connection.
--
-- Not modelled: logging, pools, timers and the scoreboard; out_prepare and the data of responses
-- (add_buffered_data, h2_stream_read_to); h2_session_start, h2_session_read and nghttp2's callbacks;
-- slave connections, workers, responses of HTTP/1.1, the protocol switch with its list of ciphers, and
-- the proxy module.
pub mod Apr
pub mod Prelude
pub mod Ring
pub mod Util
pub mod Stream
pub mod Session
pub mod Push
pub mod Mplx
pub mod Request
pub mod AltSvc
pub mod Config
