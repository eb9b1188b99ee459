-- ===== src/Base/Sets.antt =====
-- Python's `set` of texts, as a list that `add` keeps free of repetitions.
use Prim.Native.String.{String}
use mathlib.Core.Path.{◌≡◌, refl, ◌∙◌}
use mathlib.Core.Logic.{inl, inr}
use mathlib.Core.Bool.{Bool, false, ◌||◌}
use mathlib.Core.List.{List, [], ◌∷◌, ◌++◌}
use native.Mathlib.Omega.{arith}
use text.Mathlib.Text.{◌==◌}
use text.Mathlib.TextEquality.{eq_iff}
use mathlib.Core.List.{append-nil}
use flop_proof_api.Base.Lists.{length}
use Prim.Native.Nat.{◌≤◌}
use flop_proof_api.Base.Tests.{if◌then◌else◌, Bool-cases}

-- `x in s`
unfoldable pub contains : List String → String → Bool
contains [] x = false
contains (y ∷ s) x = y == x || contains s x

-- `s.add(x)`
unfoldable pub add : List String → String → List String
add s x = if contains s x then s else s ++ x ∷ []

-- `s.update(xs)`, and `s | xs`
unfoldable pub update : List String → List String → List String
update s [] = s
update s (x ∷ xs) = update (add s x) xs

-- `s.discard(x)`, and `s - {x}`
unfoldable pub discard : String → List String → List String
discard x [] = []
discard x (y ∷ s) = let rest = discard x s in if y == x then rest else y ∷ rest

-- `set(xs)`
unfoldable pub set_of : List String → List String
unfolding update add
set_of xs = update [] xs

pub contains-append :
    (s t : List String) (x : String) → contains (s ++ t) x ≡ (contains s x || contains t x)
unfolding contains
contains-append [] t x = refl
contains-append (y ∷ s) t x = ground (arith, contains-append s t x)

pub contains-add :
    (s : List String) (x y : String) → contains (add s x) y ≡ (contains s y || (x == y))
unfolding add contains
contains-add s x y = ground (arith, contains-append s (x ∷ []) y, eq_iff x y)

pub contains-update :
    (s xs : List String) (y : String) → contains (update s xs) y ≡ (contains s y || contains xs y)
unfolding update contains
contains-update s [] y = ground arith
contains-update s (x ∷ xs) y = ground (arith, contains-update (add s x) xs y, contains-add s x y)

pub contains-discard :
    (x : String) (s : List String) (y : String)
    → contains (discard x s) y ≡ (if x == y then false else contains s y)
unfolding discard contains
contains-discard x [] y = ground arith
contains-discard x (z ∷ s) y =
    ground (arith, contains-discard x s y, eq_iff z x, eq_iff x y, eq_iff z y)

discard-append : (x : String) (s t : List String) → discard x (s ++ t) ≡ discard x s ++ discard x t
unfolding discard
discard-append x [] t = refl
discard-append x (y ∷ s) t = ground (arith, discard-append x s t)

discard-add :
    (c : String) (s : List String) (x : String)
    → discard c (add s x) ≡ (if x == c then discard c s else add (discard c s) x)
unfolding add discard
discard-add c s x = ground (
  arith,
  contains-discard c s x,
  discard-append c s (x ∷ []),
  append-nil (discard c s),
  eq_iff x c,
  eq_iff c x,
)

update-append : (s t u : List String) → update s (t ++ u) ≡ update (update s t) u
unfolding update
update-append s [] u = refl
update-append s (x ∷ t) u = update-append (add s x) t u

update-add : (s t : List String) (x : String) → update s (add t x) ≡ add (update s t) x
unfolding add
update-add s t x = elim (Bool-cases (contains t x)) [
  | inl old ↦ ground (arith, contains-update s t x)
  | inr new ↦ rw new (update-append s t (x ∷ []) ∙ (unfold update add in refl))
]

update-discard_from :
    (c : String) (a t u xs : List String)
    → update a (discard c t) ≡ discard c u
    → update a (discard c (update t xs)) ≡ discard c (update u xs)
unfolding update
update-discard_from c a t u [] h = h
update-discard_from c a t u (x ∷ xs) h =
    update-discard_from c a (add t x) (add u x) xs
      (ground (arith, discard-add c t x, discard-add c u x, update-add a (discard c t) x))

-- Leaving one element out commutes with a union.
pub update-discard :
    (c : String) (s xs : List String)
    → update (discard c s) (discard c (set_of xs)) ≡ discard c (update s xs)
unfolding set_of
update-discard c s xs = update-discard_from c (discard c s) [] s xs (unfold update discard in refl)

pub length-discard : (c : String) (s : List String) → length (discard c s) ≤ length s
unfolding discard
length-discard c [] = omega arith
length-discard c (y ∷ s) = ground (arith, length-discard c s)
