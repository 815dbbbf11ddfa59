-- ===== src/Config/Merging.antt =====
-- The priorities of a merged configuration, h2_config_merge of mod_http2/h2_config.c, and the numbers
-- of workers.
use mod_h.Prelude.{
  ℕ, zero, suc, max, ◌*◌, ◌/◌, subst, ◌≡◌, ◌≤◌, refl, sym, ap₂, ◌∙◌, [], ◌∷◌, Option, none, some,
  arith,
}
use mod_h.Prelude.Int.{ℤ, pos, negsuc, pos_part}
use mod_h.Apr.{Text}
use mod_h.Session.Priority.{Priority}
use mod_h.Config.{
  conf_min_workers, conf_max_workers, Srv, first_some, merge_priorities, h2_config_merge,
  positive_or,
}
use mod_h.Config.Access.{media_type, h2_cconfig_get_priority, h2_get_num_workers, h2_config_sgeti}

first_some-none : {A : Type 0} (a : Option A) → first_some a none ≡ a
first_some-none (some a) = refl
first_some-none none = refl

module _ {H : Type 0} (get : H → Text → Option Priority) where
  -- What a hash holds for a text, if there is a hash.
  abbrev pub lookup : Option H → Text → Option Priority
  lookup none t = none
  lookup (some h) t = get h t

  get_priority_lookup :
      (s : Srv H) (t : Text)
      → h2_cconfig_get_priority get s (some t)
        ≡ first_some (lookup s.priorities (media_type t)) (lookup s.priorities (42 ∷ []))
  unfolding h2_cconfig_get_priority
  get_priority_lookup s t =
      elim s.priorities
        as (λ o.
          ◌≡◌ {A = Option Priority}
            (elim o [ none ↦ none | some h ↦ first_some (get h (media_type t)) (get h (42 ∷ [])) ])
            (first_some (lookup o (media_type t)) (lookup o (42 ∷ [])))) [
              | none ↦ refl
              | some h ↦ refl
            ]

  module _ (overlay : H → H → H)
      (get-overlay : (a b : H) (t : Text)
        → get (overlay a b) t ≡ first_some (get a t) (get b t)) where
    lookup-merge :
        (a b : Option H) (t : Text)
        → lookup (merge_priorities overlay a b) t ≡ first_some (lookup a t) (lookup b t)
    unfolding merge_priorities
    lookup-merge (some a) (some b) t = get-overlay a b t
    lookup-merge (some a) none t = sym (first_some-none (get a t))
    lookup-merge none (some b) t = refl
    lookup-merge none none t = refl

    -- The priority of a content type in a merged configuration is the one that the added
    -- configuration has for the type, or else that of the base; only where neither has one it is
    -- the one for "*", of the added configuration or else of the base. Condition: what
    -- apr_hash_overlay makes of two hashes has the entry of the first, or else that of the second.
    pub get_priority-merge :
        (base add : Srv H) (t : Text)
        → h2_cconfig_get_priority get (h2_config_merge overlay base add) (some t)
          ≡ first_some
              (first_some
                (lookup add.priorities (media_type t))
                (lookup base.priorities (media_type t)))
              (first_some (lookup add.priorities (42 ∷ [])) (lookup base.priorities (42 ∷ [])))
    unfolding h2_config_merge
    get_priority-merge base add t =
        get_priority_lookup (h2_config_merge overlay base add) t
        ∙ ap₂ first_some (lookup-merge add.priorities base.priorities (media_type t))
            (lookup-merge add.priorities base.priorities (42 ∷ []))

abbrev Positive : ℤ → Type 0
Positive (pos n) = 1 ≤ n
Positive (negsuc n) = ⊥

positive_or-Positive : (a : ℤ) (n : ℕ) → 1 ≤ n → Positive (positive_or a (pos n))
positive_or-Positive (pos zero) n h = h
positive_or-Positive (pos (suc k)) n h = omega arith
positive_or-Positive (negsuc k) n h = h

-- h2_get_num_workers gives positive numbers, when the server has a thread; and when H2MaxWorkers is
-- not set there are no fewer workers at most than at least, and four or more.
pub num_workers_bounds :
    {H : Type 0} (threads : ℕ) (s : Srv H)
    → 1 ≤ threads
    → let (minw, maxw) = h2_get_num_workers threads s in
      Positive minw
      × Positive maxw
      × (h2_config_sgeti s conf_max_workers ≡ negsuc 0
          → (pos_part minw ≤ pos_part maxw) × (4 ≤ pos_part maxw))
unfolding h2_get_num_workers
num_workers_bounds threads s h =
    let least = positive_or (h2_config_sgeti s conf_min_workers) (pos threads) in
    let n = max (3 * pos_part least / 2) 4 in
    (
      positive_or-Positive (h2_config_sgeti s conf_min_workers) threads h,
      positive_or-Positive (h2_config_sgeti s conf_max_workers) n (omega arith),
      λ e.
          subst
            (λ m.
              (pos_part least ≤ pos_part (positive_or m (pos n)))
              × (4 ≤ pos_part (positive_or m (pos n))))
            (sym e) (omega arith, omega arith),
    )
