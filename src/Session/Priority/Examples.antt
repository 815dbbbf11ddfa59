-- ===== src/Session/Priority/Examples.antt =====
-- The order and the priorities of streams: mod_http2/h2_session.c on a small tree of streams.
use mod_h.Prelude.{
  ℕ, ◌≡◌, refl, subst, arith, Bool, Option, none, some, List, [], ◌∷◌, All, ◌==◌, if◌then◌else◌,
}
use mod_h.Prelude.Int.{ℤ, pos, negsuc, sub_ℕ}
use mod_h.Apr.{success, egeneral}
use mod_h.Session.Priority.{
  Node, stream_pri_cmp, dependant_interleaved, dependant_before, Priority, Change,
  h2_session_set_prio, cmp_found, spri_cmp, set_below, submit, valid_weight,
}
use mod_h.Session.Priority.Level.{stream_pri_cmp_level}
use mod_h.Session.Priority.Weights.{Weighs, set_prio-Weighs}

-- Streams 1 and 3 stand below the root, 5 and 7 below them.
abbrev root : Node
root = record { id = 0; weight = 16 }

abbrev one : Node
one = record { id = 1; weight = 16 }

abbrev three : Node
three = record { id = 3; weight = 200 }

abbrev five : Node
five = record { id = 5; weight = 256 }

abbrev seven : Node
seven = record { id = 7; weight = 1 }

abbrev nine : Node
nine = record { id = 9; weight = 16 }

abbrev first : Priority
first = record { dependency = dependant_before; weight = pos 1 }

abbrev find : ℕ → Option (List Node)
find n =
    if n == 1
    then some (one ∷ root ∷ [])
    else if n == 5
    then some (five ∷ one ∷ root ∷ [])
    else if n == 7
    then some (seven ∷ three ∷ root ∷ [])
    else none

closer_first : stream_pri_cmp find 1 7 ≡ negsuc 0
unfolding stream_pri_cmp cmp_found spri_cmp
closer_first = refl

stream_pri_cmp_level_example : stream_pri_cmp find 5 7 ≡ sub_ℕ 200 16
stream_pri_cmp_level_example =
    stream_pri_cmp_level find 5 7 (five ∷ []) (seven ∷ []) (root ∷ []) one three refl refl refl refl

abbrev refused : Change → Bool
refused c = c.stream == 9

abbrev scaled : ℕ → ℤ → ℤ
scaled w (pos n) = pos 8
scaled w (negsuc n) = negsuc 7

abbrev half : Priority
half = record { dependency = dependant_interleaved; weight = pos 128 }

five-Weighs : All (λ n. Weighs n.weight) (five ∷ one ∷ root ∷ [])
five-Weighs =
    ((omega arith, omega arith), ((omega arith, omega arith), ((omega arith, omega arith), tt)))

-- Stream 5 is put below the root, beside stream 1.
interleaved :
    h2_session_set_prio refused scaled (find 5) (some half)
    ≡ (success, record { stream = 5; parent = 0; weight = 8 } ∷ [])
unfolding h2_session_set_prio set_below submit valid_weight
interleaved = refl

-- nghttp2 refuses to move stream 9: the stream below it stays where it is.
swap_refused :
    h2_session_set_prio refused scaled (some (five ∷ nine ∷ root ∷ [])) (some first)
    ≡ (egeneral, record { stream = 9; parent = 5; weight = 16 } ∷ [])
unfolding h2_session_set_prio set_below
swap_refused = refl

five_found : (s : List Node) → find 5 ≡ some s → five ∷ one ∷ root ∷ [] ≡ s
five_found s e = cc

set_prio-Weighs_example :
    All (λ c. Weighs c.weight) (h2_session_set_prio refused scaled (find 5) (some half)).1
set_prio-Weighs_example =
    set_prio-Weighs refused scaled (find 5) (some half)
      (λ s e. subst (All (λ n. Weighs n.weight)) (five_found s e) five-Weighs)
