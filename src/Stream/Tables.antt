-- ===== src/Stream/Tables.antt =====
-- The transition tables of mod_http2/h2_stream.c and their lookups on_map, on_frame, on_frame_send
-- and on_frame_recv.
use mod_h.Prelude.{ℕ, Option, none, some, List, [], ◌∷◌, get_elem?}
use mod_h.Stream.{
  State, idle, rsvd_r, rsvd_l, opened, closed_r, closed_l, closed, cleanup, StreamEvent,
  local_closed, remote_closed, cancelled, eos_sent, in_data_pending,
}

-- An entry: S_XXX, S_ERR, S_NOP, or a state's number plus one.
pub data Entry : Type 0 where
  s_xxx s_err s_nop : Entry
  go : State → Entry

-- What a lookup returns: S_XXX, S_ERR or a state.
pub data Next : Type 0 where
  xxx err : Next
  into : State → Next

-- A line of a table, its columns in the order of h2_stream_state_t.
pub row : Entry → Entry → Entry → Entry → Entry → Entry → Entry → Entry → State → Entry
row a b c d e f g h idle = a
row a b c d e f g h rsvd_r = b
row a b c d e f g h rsvd_l = c
row a b c d e f g h opened = d
row a b c d e f g h closed_r = e
row a b c d e f g h closed_l = f
row a b c d e f g h closed = g
row a b c d e f g h cleanup = h

abbrev s_rs_l : Entry
s_rs_l = go rsvd_l

abbrev s_rs_r : Entry
s_rs_r = go rsvd_r

abbrev s_open : Entry
s_open = go opened

abbrev s_cl_l : Entry
s_cl_l = go closed_l

abbrev s_cl_r : Entry
s_cl_r = go closed_r

abbrev s_cls : Entry
s_cls = go closed

abbrev s_cln : Entry
s_cln = go cleanup

-- DATA, HEADERS, PRIORITY, RST_STREAM, SETTINGS, PUSH_PROMISE, PING, GOAWAY, WINDOW_UPDATE, CONT.
unfoldable pub trans_on_send : List (State → Entry)
unfolding row
trans_on_send =
    row s_err s_err s_err s_nop s_nop s_err s_nop s_nop
    ∷ row s_err s_err s_cl_r s_nop s_nop s_err s_nop s_nop
    ∷ row s_nop s_nop s_nop s_nop s_nop s_nop s_nop s_nop
    ∷ row s_cls s_cls s_cls s_cls s_cls s_cls s_nop s_nop
    ∷ row s_err s_err s_err s_err s_err s_err s_err s_err
    ∷ row s_rs_l s_err s_err s_err s_err s_err s_err s_err
    ∷ row s_err s_err s_err s_err s_err s_err s_err s_err
    ∷ row s_err s_err s_err s_err s_err s_err s_err s_err
    ∷ row s_nop s_nop s_nop s_nop s_nop s_nop s_nop s_nop
    ∷ row s_nop s_nop s_nop s_nop s_nop s_nop s_nop s_nop
    ∷ []

unfoldable pub trans_on_recv : List (State → Entry)
unfolding row
trans_on_recv =
    row s_err s_err s_err s_nop s_err s_nop s_nop s_nop
    ∷ row s_open s_cl_l s_err s_nop s_err s_nop s_nop s_nop
    ∷ row s_nop s_nop s_nop s_nop s_nop s_nop s_nop s_nop
    ∷ row s_err s_cls s_cls s_cls s_cls s_cls s_nop s_nop
    ∷ row s_err s_err s_err s_err s_err s_err s_err s_err
    ∷ row s_rs_r s_err s_err s_err s_err s_err s_err s_err
    ∷ row s_err s_err s_err s_err s_err s_err s_err s_err
    ∷ row s_err s_err s_err s_err s_err s_err s_err s_err
    ∷ row s_nop s_nop s_nop s_nop s_nop s_nop s_nop s_nop
    ∷ row s_nop s_nop s_nop s_nop s_nop s_nop s_nop s_nop
    ∷ []

-- The four lines of the table; H2_SEV_IN_DATA_PENDING is behind its end.
unfoldable pub trans_on_event : StreamEvent → Option (State → Entry)
unfolding row
trans_on_event local_closed = some (row s_xxx s_err s_err s_cl_l s_cls s_xxx s_xxx s_xxx)
trans_on_event remote_closed = some (row s_err s_err s_err s_cl_r s_err s_cls s_nop s_nop)
trans_on_event cancelled = some (row s_cls s_cls s_cls s_cls s_cls s_cls s_nop s_nop)
trans_on_event eos_sent = some (row s_nop s_xxx s_xxx s_xxx s_xxx s_cls s_cln s_xxx)
trans_on_event in_data_pending = none

unfoldable pub entry_next : State → Entry → Next
entry_next state s_xxx = xxx
entry_next state s_err = err
entry_next state s_nop = into state
entry_next state (go t) = into t

unfoldable pub on_map : State → (State → Entry) → Next
unfolding entry_next
on_map state map = entry_next state (map state)

-- Without a line for the frame type or event the state stays.
abbrev pub on_line : State → Option (State → Entry) → Next
on_line state none = into state
on_line state (some map) = on_map state map

unfoldable pub on_frame : State → ℕ → List (State → Entry) → Next
unfolding on_map
on_frame state frame_type frame_map = on_line state (get_elem? frame_map frame_type)

unfoldable pub on_frame_send : State → ℕ → Next
unfolding on_frame trans_on_send
on_frame_send state frame_type = on_frame state frame_type trans_on_send

unfoldable pub on_frame_recv : State → ℕ → Next
unfolding on_frame trans_on_recv
on_frame_recv state frame_type = on_frame state frame_type trans_on_recv
