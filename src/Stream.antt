-- ===== src/Stream.antt =====
-- Streams: mod_http2/h2_stream.c, mod_http2/h2_stream.h and the state and event enumerations of
-- mod_http2/h2.h. The children hold the transition tables, the state machine and the frames.
pub mod Tables
pub mod Beams
pub mod Machine
pub mod Frames
pub mod States
pub mod Effects
pub mod Paths
pub mod Counting
pub mod Accounting
pub mod Context
pub mod Depth
pub mod Examples
use mod_h.Prelude.{ℕ, Bool, Option, List}
use mod_h.Apr.{Status, Text, Table}

-- h2_stream_state_t.
pub data State : Type 0 where
  idle rsvd_r rsvd_l opened closed_r closed_l closed cleanup : State

-- h2_stream_event_t: H2_SEV_CLOSED_L, H2_SEV_CLOSED_R and the others.
pub data StreamEvent : Type 0 where
  local_closed remote_closed cancelled eos_sent in_data_pending : StreamEvent

pub record Headers : Type 0 where
  pub status : ℕ
  pub fields : Table
  pub raw_bytes : ℕ

-- The buckets of a brigade. Data is its bytes.
pub data Bucket : Type 0 where
  eos flush : Bucket
  headers : Headers → Bucket
  bytes : List ℕ → Bucket

-- What a stream sees of an h2_bucket_beam: `sent` are the buckets handed over.
pub record Beam : Type 0 where
  pub closed : Bool
  pub aborted : Bool
  pub sent : List Bucket

-- struct h2_stream, over the type of requests. A NULL pointer is `none`; pools, times, the task and
-- the window size are left out.
pub record Stream (R : Type 0) : Type 0 where
  pub id : ℕ
  pub initiated_on : ℕ
  pub state : State
  pub request : Option R
  pub rtmp : Option R
  pub trailers : Option Table
  pub request_headers_added : ℕ
  pub input : Option Beam
  pub in_buffer : Option (List Bucket)
  pub output : Option Beam
  pub out_buffer : Option (List Bucket)
  pub max_mem : ℕ
  pub rst_error : ℕ
  pub scheduled : Bool
  pub has_response : Bool
  pub input_eof : Bool
  pub push_policy : ℕ
  pub out_frames : ℕ
  pub out_frame_octets : ℕ
  pub in_data_frames : ℕ
  pub in_data_octets : ℕ
  pub in_trailer_octets : ℕ

-- What the stream calls: the callbacks of its h2_stream_monitor, which act on a context `C` (a
-- callback that is NULL leaves the context), and the operations on requests, tables and headers of
-- other modules.
pub record Env (C R : Type 0) : Type 0 where
  pub on_state_enter : C → Stream R → C
  pub on_state_invalid : C → Stream R → C
  pub on_state_event : C → Stream R → StreamEvent → C
  pub on_event : C → Stream R → StreamEvent → C
  pub end_headers : R → Bool → ℕ → Status × R
  pub set_policy_for : C → R → ℕ × R
  pub req_create : ℕ → R
  pub req_add_header : R → Text → Text → Status × R
  pub req_rcreate : Text → Status × R
  pub headers_die : ℕ → Option R → Headers
  pub ignore_trailer : Text → Bool
  pub table_merge : Table → Text → Text → Table
