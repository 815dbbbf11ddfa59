-- ===== src/Stream/Beams.antt =====
-- The calls of h2_stream.c into mod_http2/h2_bucket_beam.c, on a beam without a limit on its buffer
-- (h2_beam_create is called with 0 for the input). Locks, callbacks and timeouts are left out.
use mod_h.Prelude.{Bool, true, false, List, [], ◌∷◌, ◌++◌, if◌then◌else◌, ◌||◌}
use mod_h.Apr.{Status, success, econnaborted}
use mod_h.Stream.{Beam, Bucket, eos}

unfoldable pub beam_create : Beam
beam_create = record { closed = false; aborted = false; sent = [] }

-- h2_beam_is_closed.
abbrev pub is_closed : Beam → Bool
is_closed b = b.closed

-- h2_beam_close.
unfoldable pub beam_close : Beam → Beam × Status
beam_close b = (record b { closed = true }, if b.aborted then econnaborted else success)

-- h2_beam_leave.
unfoldable pub beam_leave : Beam → Beam
beam_leave b = record b { aborted = true; closed = true }

-- h2_beam_abort drops what was handed over.
unfoldable pub beam_abort : Beam → Beam
beam_abort b = record b { aborted = true; sent = [] }

abbrev pub is_eos : Bucket → Bool
is_eos eos = true
is_eos _ = false

abbrev pub has_eos : List Bucket → Bool
has_eos [] = false
has_eos (b ∷ bs) = is_eos b || has_eos bs

-- h2_beam_send and append_bucket: an EOS bucket closes the beam. The sender's brigade is empty
-- afterwards: an aborted beam puts its buckets on hold.
unfoldable pub beam_send : Beam → List Bucket → Beam × Status
beam_send b bs =
    if b.aborted
    then (b, econnaborted)
    else (record b { closed = b.closed || has_eos bs; sent = b.sent ++ bs }, success)
