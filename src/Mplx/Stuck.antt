-- ===== src/Mplx/Stuck.antt =====
-- A task that ended to be started again, of a stream that is then cleaned up: task_done,
-- stream_cleanup and next_stream_task of mod_http2/h2_mplx.c.
use mod_h.Mplx.{Mplx}
