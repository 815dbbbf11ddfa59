-- ===== src/Stream/States.antt =====
-- The life of a stream as RFC 7540 (section 5.1) draws it, and the tables of h2_stream.c against it.
use mathlib.Core.Option.{some-injective}
use mod_h.Prelude.{
  ℕ, Bool, true, false, ◌≡◌, refl, subst, some, Option, none, List, arith, All, All-get_elem?,
  get_elem?, ◌&&◌, if◌then◌else◌,
}
use mod_h.Stream.{
  State, idle, rsvd_r, rsvd_l, opened, closed_r, closed_l, closed, cleanup, StreamEvent,
  local_closed, remote_closed, cancelled, eos_sent, in_data_pending,
}
use mod_h.Stream.Tables.{
  Entry, Next, xxx, err, into, on_map, on_line, on_frame, on_frame_send, on_frame_recv,
  trans_on_send, trans_on_recv, trans_on_event,
}
use mod_h.Stream.Machine.{resets}

infix 40 ◌⟶◌ ◌⟶*◌
-- The edges of the diagram, and the discarding of a closed stream.
pub data ◌⟶◌ : State → State → Type 0 where
  headers_received : idle ⟶ opened
  promise_sent : idle ⟶ rsvd_l
  promise_received : idle ⟶ rsvd_r
  pushed_headers_sent : rsvd_l ⟶ closed_r
  pushed_headers_received : rsvd_r ⟶ closed_l
  end_sent : opened ⟶ closed_l
  end_received : opened ⟶ closed_r
  then_end_sent : closed_r ⟶ closed
  then_end_received : closed_l ⟶ closed
  reset_idle : idle ⟶ closed
  reset_rsvd_l : rsvd_l ⟶ closed
  reset_rsvd_r : rsvd_r ⟶ closed
  reset_opened : opened ⟶ closed
  discarded : closed ⟶ cleanup

pub data ◌⟶*◌ (s : State) : State → Type 0 where
  here : s ⟶* s
  next : {t u : State} → s ⟶* t → t ⟶ u → s ⟶* u

pub ⟶*_trans : {s t u : State} → s ⟶* t → t ⟶* u → s ⟶* u
⟶*_trans p here = p
⟶*_trans p (next q e) = next (⟶*_trans p q) e

-- The state that transit leaves: a lookup that fails resets a stream that is in use.
abbrev pub landed : State → Next → State
landed s (into t) = t
landed s xxx = if resets s then closed else s
landed s err = if resets s then closed else s

-- Equal, or one edge on.
abbrev pub near : State → State → Bool
near idle idle = true
near idle opened = true
near idle rsvd_l = true
near idle rsvd_r = true
near idle closed = true
near rsvd_l rsvd_l = true
near rsvd_l closed_r = true
near rsvd_l closed = true
near rsvd_r rsvd_r = true
near rsvd_r closed_l = true
near rsvd_r closed = true
near opened opened = true
near opened closed_l = true
near opened closed_r = true
near opened closed = true
near closed_r closed_r = true
near closed_r closed = true
near closed_l closed_l = true
near closed_l closed = true
near closed closed = true
near closed cleanup = true
near cleanup cleanup = true
near _ _ = false

near-⟶* : (s t : State) → near s t ≡ true → s ⟶* t
near-⟶* idle idle h = here
near-⟶* idle opened h = next here headers_received
near-⟶* idle rsvd_l h = next here promise_sent
near-⟶* idle rsvd_r h = next here promise_received
near-⟶* idle closed h = next here reset_idle
near-⟶* rsvd_l rsvd_l h = here
near-⟶* rsvd_l closed_r h = next here pushed_headers_sent
near-⟶* rsvd_l closed h = next here reset_rsvd_l
near-⟶* rsvd_r rsvd_r h = here
near-⟶* rsvd_r closed_l h = next here pushed_headers_received
near-⟶* rsvd_r closed h = next here reset_rsvd_r
near-⟶* opened opened h = here
near-⟶* opened closed_l h = next here end_sent
near-⟶* opened closed_r h = next here end_received
near-⟶* opened closed h = next here reset_opened
near-⟶* closed_r closed_r h = here
near-⟶* closed_r closed h = next here then_end_sent
near-⟶* closed_l closed_l h = here
near-⟶* closed_l closed h = next here then_end_received
near-⟶* closed closed h = here
near-⟶* closed cleanup h = next here discarded
near-⟶* cleanup cleanup h = here
near-⟶* _ _ h = cc

all_states : (State → Bool) → Bool
all_states p =
    p idle && p rsvd_r && p rsvd_l && p opened && p closed_r && p closed_l && p closed && p cleanup

all_states_sound : (p : State → Bool) → all_states p ≡ true → (s : State) → p s ≡ true
unfolding all_states
all_states_sound p h idle = ground arith
all_states_sound p h _ = ground arith

-- A line of a table that leads no stream off the diagram.
line_near : (State → Entry) → Bool
unfolding on_map all_states
line_near map = all_states (λ s. near s (landed s (on_map s map)))

line_near_sound :
    (map : State → Entry) (s : State)
    → line_near map ≡ true
    → near s (landed s (on_map s map)) ≡ true
unfolding line_near
line_near_sound map s h = all_states_sound (λ s. near s (landed s (on_map s map))) h s

send_lines : All (λ map. line_near map ≡ true) trans_on_send
unfolding line_near trans_on_send
send_lines = (refl, (refl, (refl, (refl, (refl, (refl, (refl, (refl, (refl, (refl, tt))))))))))

recv_lines : All (λ map. line_near map ≡ true) trans_on_recv
unfolding line_near trans_on_recv
recv_lines = (refl, (refl, (refl, (refl, (refl, (refl, (refl, (refl, (refl, (refl, tt))))))))))

near_refl : (s : State) → near s s ≡ true
near_refl idle = refl
near_refl _ = refl

on_line-near :
    (line : Option (State → Entry)) (s : State)
    → ((map : State → Entry) → line ≡ some map → line_near map ≡ true)
    → near s (landed s (on_line s line)) ≡ true
on_line-near none s good = near_refl s
on_line-near (some map) s good = line_near_sound map s (good map refl)

event_near :
    (ev : StreamEvent) (map : State → Entry) → trans_on_event ev ≡ some map → line_near map ≡ true
unfolding trans_on_event line_near
event_near local_closed map e = subst (λ m. line_near m ≡ true) (some-injective _ _ e) refl
event_near remote_closed map e = subst (λ m. line_near m ≡ true) (some-injective _ _ e) refl
event_near cancelled map e = subst (λ m. line_near m ≡ true) (some-injective _ _ e) refl
event_near eos_sent map e = subst (λ m. line_near m ≡ true) (some-injective _ _ e) refl
event_near in_data_pending map e = cc

on_frame-near :
    (maps : List (State → Entry)) (s : State) (ftype : ℕ)
    → All (λ map. line_near map ≡ true) maps
    → near s (landed s (on_frame s ftype maps)) ≡ true
unfolding on_frame
on_frame-near maps s ftype good =
    on_line-near (get_elem? maps ftype) s
      (λ map e. All-get_elem? (λ m. line_near m ≡ true) maps ftype good e)

-- A frame of any type, sent on a stream in any state, leads along one edge or nowhere.
pub on_frame_send-near : (s : State) (ftype : ℕ) → near s (landed s (on_frame_send s ftype)) ≡ true
unfolding on_frame_send
on_frame_send-near s ftype = on_frame-near trans_on_send s ftype send_lines

-- So does a frame received.
pub on_frame_recv-near : (s : State) (ftype : ℕ) → near s (landed s (on_frame_recv s ftype)) ≡ true
unfolding on_frame_recv
on_frame_recv-near s ftype = on_frame-near trans_on_recv s ftype recv_lines

-- And an event.
pub on_event-near :
    (s : State) (ev : StreamEvent) → near s (landed s (on_line s (trans_on_event ev))) ≡ true
on_event-near s ev = on_line-near (trans_on_event ev) s (event_near ev)

pub on_frame_send-⟶* : (s : State) (ftype : ℕ) → s ⟶* landed s (on_frame_send s ftype)
on_frame_send-⟶* s ftype = near-⟶* s _ (on_frame_send-near s ftype)

pub on_frame_recv-⟶* : (s : State) (ftype : ℕ) → s ⟶* landed s (on_frame_recv s ftype)
on_frame_recv-⟶* s ftype = near-⟶* s _ (on_frame_recv-near s ftype)

pub on_event-⟶* : (s : State) (ev : StreamEvent) → s ⟶* landed s (on_line s (trans_on_event ev))
on_event-⟶* s ev = near-⟶* s _ (on_event-near s ev)
