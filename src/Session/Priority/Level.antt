-- ===== src/Session/Priority/Level.antt =====
-- What decides between two streams on the same level: spri_cmp of mod_http2/h2_session.c.
use mod_h.Prelude.{
  ℕ, suc, ◌+◌, ◌≡◌, refl, ap, ap₂, ◌∙◌, Bool, true, false, Option, some, List, [], ◌∷◌, ◌++◌,
  length, arith, if◌then◌else◌, ◌==◌,
}
use mod_h.Prelude.Int.{ℤ, pos, sub_ℕ}
use mod_h.Session.Priority.{Node, same, spri_cmp, cmp_found, stream_pri_cmp}

if_first : (c : Bool) (x y : ℤ) → c ≡ true → (if c then x else y) ≡ x
if_first c x y t = ap (λ b. if b then x else y) t

same_refl : (s : List Node) → same s s ≡ true
same_refl [] = refl
same_refl (a ∷ s) = ground (arith, same_refl s)

same_apart :
    (xs ys rest : List Node) (a b : Node)
    → length xs ≡ length ys
    → (a.id == b.id) ≡ false
    → same (xs ++ a ∷ rest) (ys ++ b ∷ rest) ≡ false
same_apart [] [] rest a b n d = ground (arith, d)
same_apart [] (y ∷ ys) rest a b n d = ground (arith, n)
same_apart (x ∷ xs) [] rest a b n d = ground (arith, n)
same_apart (x ∷ xs) (y ∷ ys) rest a b n d =
    ground (arith, same_apart xs ys rest a b (omega (arith, n)) d)

length-above :
    (xs : List Node) (a : Node) (rest : List Node)
    → length (xs ++ a ∷ rest) ≡ suc (length xs + length rest)
length-above [] a rest = omega arith
length-above (x ∷ xs) a rest = ground (arith, length-above xs a rest)

spri_cmp_siblings :
    (rest : List Node) (a b : Node) → spri_cmp (a ∷ rest) (b ∷ rest) ≡ sub_ℕ b.weight a.weight
unfolding spri_cmp
spri_cmp_siblings rest a b = if_first _ _ _ (same_refl rest)

spri_cmp_below :
    (x y : Node) (s t : List Node) (n m : ℕ)
    → length s ≡ suc n
    → length t ≡ suc m
    → same s t ≡ false
    → spri_cmp (x ∷ s) (y ∷ t) ≡ spri_cmp s t
unfolding spri_cmp
spri_cmp_below x y [] t n m h k d = ground (arith, h)
spri_cmp_below x y (a ∷ s) [] n m h k d = ground (arith, k)
spri_cmp_below x y (a ∷ s) (b ∷ t) n m h k d =
    ap (λ c. if c then sub_ℕ y.weight x.weight else spri_cmp (a ∷ s) (b ∷ t)) d

spri_cmp_level :
    (xs ys rest : List Node) (a b : Node)
    → length xs ≡ length ys
    → (a.id == b.id) ≡ false
    → spri_cmp (xs ++ a ∷ rest) (ys ++ b ∷ rest) ≡ sub_ℕ b.weight a.weight
spri_cmp_level [] [] rest a b n d = spri_cmp_siblings rest a b
spri_cmp_level [] (y ∷ ys) rest a b n d = ground (arith, n)
spri_cmp_level (x ∷ xs) [] rest a b n d = ground (arith, n)
spri_cmp_level (x ∷ xs) (y ∷ ys) rest a b n d =
    spri_cmp_below x y (xs ++ a ∷ rest) (ys ++ b ∷ rest) (length xs + length rest)
      (length ys + length rest) (length-above xs a rest) (length-above ys b rest)
      (same_apart xs ys rest a b (omega (arith, n)) d)
    ∙ spri_cmp_level xs ys rest a b (omega (arith, n)) d

-- Of two streams that are as far below their nearest common ancestor, stream_pri_cmp puts the one
-- first whose own ancestor right below the common one has the greater weight: it returns the
-- difference of those weights, whatever the weights of the streams themselves and of all others.
-- Conditions: nghttp2 finds both, and the two ancestors have different ids.
pub stream_pri_cmp_level :
    (find : ℕ → Option (List Node)) (sid1 sid2 : ℕ) (xs ys rest : List Node) (a b : Node)
    → find sid1 ≡ some (xs ++ a ∷ rest)
    → find sid2 ≡ some (ys ++ b ∷ rest)
    → length xs ≡ length ys
    → (a.id == b.id) ≡ false
    → stream_pri_cmp find sid1 sid2 ≡ sub_ℕ b.weight a.weight
unfolding stream_pri_cmp cmp_found
stream_pri_cmp_level find sid1 sid2 xs ys rest a b h k n d =
    ap₂ cmp_found h k
    ∙ ap (λ c. if c then pos 0 else spri_cmp (xs ++ a ∷ rest) (ys ++ b ∷ rest))
        (same_apart xs ys rest a b n d)
    ∙ spri_cmp_level xs ys rest a b n d
