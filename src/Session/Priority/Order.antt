-- ===== src/Session/Priority/Order.antt =====
-- How spri_cmp and stream_pri_cmp of mod_http2/h2_session.c order streams.
use mod_h.Prelude.{
  ℕ, ◌≡◌, refl, Bool, true, false, Option, none, some, List, [], ◌∷◌, arith, if◌then◌else◌,
}
use mod_h.Prelude.Int.{ℤ, pos, sub_ℕ, pos_part, neg_part}
use mod_h.Session.Priority.{Node, same, spri_cmp, cmp_found, stream_pri_cmp}

-- One number is the negative of the other.
pub record Opposite (a b : ℤ) : Type 0 where
  pub up : pos_part a ≡ neg_part b
  pub down : neg_part a ≡ pos_part b

sub-Opposite : (v w : ℕ) → Opposite (sub_ℕ v w) (sub_ℕ w v)
sub-Opposite v w = record { up = ground arith; down = ground arith }

same_sym : (s t : List Node) → same s t ≡ same t s
same_sym [] [] = refl
same_sym [] (b ∷ t) = refl
same_sym (a ∷ s) [] = refl
same_sym (a ∷ s) (b ∷ t) = ground (arith, same_sym s t)

if-Opposite :
    (c c' : Bool) (x y u v : ℤ)
    → c ≡ c'
    → Opposite x y
    → Opposite u v
    → Opposite (if c then x else u) (if c' then y else v)
if-Opposite true true x y u v e h k = h
if-Opposite true false x y u v e h k = ground (arith, e)
if-Opposite false true x y u v e h k = ground (arith, e)
if-Opposite false false x y u v e h k = k

spri_cmp-Opposite : (s t : List Node) → Opposite (spri_cmp s t) (spri_cmp t s)
unfolding spri_cmp
spri_cmp-Opposite [] [] = record { up = refl; down = refl }
spri_cmp-Opposite [] (b ∷ t) = record { up = refl; down = refl }
spri_cmp-Opposite (a ∷ s) [] = record { up = refl; down = refl }
spri_cmp-Opposite (a ∷ []) (b ∷ []) = sub-Opposite b.weight a.weight
spri_cmp-Opposite (a ∷ []) (b ∷ y ∷ t) = record { up = refl; down = refl }
spri_cmp-Opposite (a ∷ x ∷ s) (b ∷ []) = record { up = refl; down = refl }
spri_cmp-Opposite (a ∷ x ∷ s) (b ∷ y ∷ t) =
    if-Opposite (same (x ∷ s) (y ∷ t)) (same (y ∷ t) (x ∷ s)) (sub_ℕ b.weight a.weight)
      (sub_ℕ a.weight b.weight) (spri_cmp (x ∷ s) (y ∷ t)) (spri_cmp (y ∷ t) (x ∷ s))
      (same_sym (x ∷ s) (y ∷ t)) (sub-Opposite b.weight a.weight)
      (spri_cmp-Opposite (x ∷ s) (y ∷ t))

cmp_found-Opposite : (f1 f2 : Option (List Node)) → Opposite (cmp_found f1 f2) (cmp_found f2 f1)
unfolding cmp_found
cmp_found-Opposite none none = record { up = refl; down = refl }
cmp_found-Opposite none (some t) = record { up = refl; down = refl }
cmp_found-Opposite (some s) none = record { up = refl; down = refl }
cmp_found-Opposite (some s) (some t) =
    if-Opposite (same s t) (same t s) (pos 0) (pos 0) (spri_cmp s t) (spri_cmp t s) (same_sym s t)
      record { up = refl; down = refl } (spri_cmp-Opposite s t)

-- With the streams swapped, stream_pri_cmp returns the opposite number: neither the order of the
-- arguments nor a stream that nghttp2 does not know makes it rank two streams both ways.
pub stream_pri_cmp-Opposite :
    (find : ℕ → Option (List Node)) (sid1 sid2 : ℕ)
    → Opposite (stream_pri_cmp find sid1 sid2) (stream_pri_cmp find sid2 sid1)
unfolding stream_pri_cmp
stream_pri_cmp-Opposite find sid1 sid2 = cmp_found-Opposite (find sid1) (find sid2)
