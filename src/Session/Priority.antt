-- ===== src/Session/Priority.antt =====
-- The order in which streams are scheduled and the priority of pushed streams:
-- mod_http2/h2_session.c. A stream of nghttp2 is given by its ancestors, itself first and the root
-- last; two are the same when their chains have the same ids.
pub mod Examples
pub mod Level
pub mod Order
pub mod Weights
use mod_h.Prelude.{
  ℕ, zero, suc, ◌+◌, ◌-◌, ◌≡◌, Bool, true, false, ◌&&◌, Option, none, some, List, [], ◌∷◌,
  if◌then◌else◌, leb, ltb, ◌==◌,
}
use mod_h.Prelude.Int.{ℤ, pos, negsuc, sub_ℕ}
use mod_h.Apr.{Status, success, einval, egeneral}

pub record Node : Type 0 where
  pub id : ℕ
  pub weight : ℕ

abbrev pub same : List Node → List Node → Bool
same [] [] = true
same (a ∷ s) (b ∷ t) = a.id == b.id && same s t
same _ _ = false

-- What is known of the parents when they differ.
unfoldable pub spri_cmp : List Node → List Node → ℤ
spri_cmp (a ∷ p1) (b ∷ p2) =
    let up = spri_cmp p1 p2 in
    if same p1 p2
    then sub_ℕ b.weight a.weight
    else elim p1 [ [] ↦ negsuc 0 | x ∷ s ↦ elim p2 [ [] ↦ pos 1 | y ∷ t ↦ up ] ]
spri_cmp _ _ = pos 0

unfoldable pub cmp_found : Option (List Node) → Option (List Node) → ℤ
cmp_found none none = pos 0
cmp_found none (some s2) = pos 1
cmp_found (some s1) none = negsuc 0
cmp_found (some s1) (some s2) = if same s1 s2 then pos 0 else spri_cmp s1 s2

-- `find` is nghttp2_session_find_stream.
unfoldable pub stream_pri_cmp : (ℕ → Option (List Node)) → ℕ → ℕ → ℤ
stream_pri_cmp find sid1 sid2 = cmp_found (find sid1) (find sid2)

-- h2_dependency and h2_priority.
pub data Dependency : Type 0 where
  dependant_after dependant_interleaved dependant_before : Dependency

pub record Priority : Type 0 where
  pub dependency : Dependency
  pub weight : ℤ

-- A call of nghttp2_session_change_stream_priority.
pub record Change : Type 0 where
  pub stream : ℕ
  pub parent : ℕ
  pub weight : ℕ

-- On the number that a float is cut to; between NGHTTP2_MIN_WEIGHT and NGHTTP2_MAX_WEIGHT.
unfoldable pub valid_weight : ℤ → ℕ
valid_weight (negsuc n) = 1
valid_weight (pos w) = if ltb w 1 then 1 else if ltb 256 w then 256 else w

-- `refused` is whether nghttp2 returns an error, `scaled` the product of a weight with a fraction of
-- the highest weight, in floats, cut to an int.
module _ (refused : Change → Bool) (scaled : ℕ → ℤ → ℤ) where
  -- The last call, behind those before.
  unfoldable pub submit : List Change → Change → Status × List Change
  submit before c = (if refused c then egeneral else success, c ∷ before)

  -- With a stream, its parent and the stream that the parent depends on.
  unfoldable pub set_below : Dependency → ℤ → Node → Node → Node → Status × List Change
  set_below dependant_after w s p g =
      submit [] record { stream = s.id; parent = p.id; weight = valid_weight w }
  set_below dependant_interleaved w s p g =
      submit [] record { stream = s.id; parent = g.id; weight = valid_weight (scaled p.weight w) }
  set_below dependant_before w s p g =
      let swap : Change = record { stream = p.id; parent = s.id; weight = p.weight } in
      if refused swap
      then (egeneral, swap ∷ [])
      else submit (swap ∷ []) record { stream = s.id; parent = g.id; weight = p.weight }

  -- The status and the calls, the last one first. A stream that is not found is `none`.
  unfoldable pub h2_session_set_prio : Option (List Node) → Option Priority → Status × List Change
  h2_session_set_prio found none = (success, [])
  h2_session_set_prio none (some prio) = (einval, [])
  h2_session_set_prio (some (s ∷ p ∷ g ∷ more)) (some prio) =
      set_below prio.dependency prio.weight s p g
  h2_session_set_prio (some (s ∷ p ∷ [])) (some prio) =
      submit [] record { stream = s.id; parent = p.id; weight = valid_weight prio.weight }
  h2_session_set_prio (some _) (some prio) = (success, [])
