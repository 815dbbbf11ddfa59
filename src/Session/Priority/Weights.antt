-- ===== src/Session/Priority/Weights.antt =====
-- The weights that h2_session_set_prio of mod_http2/h2_session.c asks for.
use mod_h.Prelude.{ℕ, ◌≤◌, ◌≡◌, refl, Bool, Option, none, some, List, [], ◌∷◌, All, arith, if-both}
use mod_h.Prelude.Int.{ℤ, pos, negsuc}
use mod_h.Apr.{Status, egeneral}
use mod_h.Session.Priority.{
  Node, Dependency, dependant_after, dependant_interleaved, dependant_before, Priority, Change,
  valid_weight, submit, set_below, h2_session_set_prio,
}

-- What nghttp2 takes for a weight.
abbrev pub Weighs : ℕ → Type 0
Weighs w = (1 ≤ w) × (w ≤ 256)

valid_weight-Weighs : (w : ℤ) → Weighs (valid_weight w)
unfolding valid_weight
valid_weight-Weighs (negsuc n) = (omega arith, omega arith)
valid_weight-Weighs (pos w) = ground arith

module _ (refused : Change → Bool) (scaled : ℕ → ℤ → ℤ) where
  set_below-Weighs :
      (dep : Dependency) (w : ℤ) (s p g : Node)
      → Weighs p.weight
      → All (λ c. Weighs c.weight) (set_below refused scaled dep w s p g).1
  unfolding set_below submit
  set_below-Weighs dependant_after w s p g h = (valid_weight-Weighs w, tt)
  set_below-Weighs dependant_interleaved w s p g h = (valid_weight-Weighs (scaled p.weight w), tt)
  set_below-Weighs dependant_before w s p g h =
      if-both (λ (r : Status × List Change). All (λ c. Weighs c.weight) r.1) (refused swap)
        (egeneral, swap ∷ [])
        (submit refused scaled (swap ∷ [])
          record { stream = s.id; parent = g.id; weight = p.weight })
        (λ t. (h, tt)) (λ f. (h, (h, tt)))
    where
      swap : Change
      swap = record { stream = p.id; parent = s.id; weight = p.weight }

  -- Every weight that h2_session_set_prio asks nghttp2 for is one that it takes, from 1 to 256,
  -- whatever the priority that was configured, the product of floats and the answers of nghttp2.
  -- Condition: the weights of the streams are so.
  pub set_prio-Weighs :
      (found : Option (List Node)) (prio : Option Priority)
      → ((s : List Node) → found ≡ some s → All (λ n. Weighs n.weight) s)
      → All (λ c. Weighs c.weight) (h2_session_set_prio refused scaled found prio).1
  unfolding h2_session_set_prio submit
  set_prio-Weighs found none h = tt
  set_prio-Weighs none (some prio) h = tt
  set_prio-Weighs (some (s ∷ p ∷ g ∷ more)) (some prio) h =
      set_below-Weighs prio.dependency prio.weight s p g (h (s ∷ p ∷ g ∷ more) refl).1.0
  set_prio-Weighs (some (s ∷ p ∷ [])) (some prio) h = (valid_weight-Weighs prio.weight, tt)
  set_prio-Weighs (some (s ∷ [])) (some prio) h = tt
  set_prio-Weighs (some []) (some prio) h = tt
