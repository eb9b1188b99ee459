-- ===== src/Base/Strings.antt =====
-- Python's `str` as the native text: the operations that the program uses, one character at a time.
use Prim.Native.Nat.{ℕ, zero, suc}
use Prim.Native.Char.{Char, code}
use Prim.Native.String
use Prim.Native.String.{String}
use mathlib.Core.Path.{◌≡◌, refl, ap, ◌∙◌}
use mathlib.Core.Option.{Option, none, some}
use mathlib.Core.Bool.{Bool, true, false, ◌&&◌, ◌||◌}
use mathlib.Core.List.{List, [], ◌∷◌, ◌++◌}
use native.Mathlib.Omega.{arith}
use text.Mathlib.TextEquality.{Char-path}
use mathlib.Core.Logic.{inl, inr}
use text.Mathlib.TextLemmas.{nil-append, cons-append}
use flop_proof_api.Base.Tests.{◌==◌, leb, Bool-cases}
use flop_proof_api.Base.Lists.{length}

-- `any(p(ch) for ch in s)`
abbrev pub has_char : (ℕ → Bool) → String → Bool
has_char p String.[] = false
has_char p (String.◌∷◌ c s) = p (code c) || has_char p s

-- `all(p(ch) for ch in s)`
abbrev pub all_chars : (ℕ → Bool) → String → Bool
all_chars p String.[] = true
all_chars p (String.◌∷◌ c s) = p (code c) && all_chars p s

-- `len(s)`, in code points
abbrev pub chars : String → ℕ
chars String.[] = 0
chars (String.◌∷◌ c s) = suc (chars s)

-- `ch == "|"`
abbrev pub is_bar : ℕ → Bool
is_bar c = c == b'|'

-- `ch in "0123456789abcdef"`
abbrev pub is_lower_hex : ℕ → Bool
is_lower_hex c = (leb b'0' c && leb c b'9') || (leb b'a' c && leb c b'f')

abbrev in_front : Char → List String → List String
in_front c [] = String.◌∷◌ c "" ∷ []
in_front c (p ∷ ps) = String.◌∷◌ c p ∷ ps

-- `s.split("|", n)`: at most `n` cuts, from the left
unfoldable pub split_bar : ℕ → String → List String
split_bar zero s = s ∷ []
split_bar (suc n) String.[] = "" ∷ []
split_bar (suc n) (String.◌∷◌ c s) = elim (is_bar (code c)) [
  | true ↦ "" ∷ split_bar n s
  | false ↦ in_front c (split_bar (suc n) s)
]

-- `"|".join(parts)`
unfoldable pub join_bar : List String → String
join_bar [] = ""
join_bar (p ∷ []) = p
join_bar (p ∷ (q ∷ ps)) = String.◌++◌ p (String.◌∷◌ "|" (join_bar (q ∷ ps)))

-- A field with no bar is cut off whole.
pub split_bar-append :
    (n : ℕ) (p rest : String)
    → has_char is_bar p ≡ false
    → split_bar (suc n) (String.◌++◌ p (String.◌∷◌ "|" rest)) ≡ p ∷ split_bar n rest
unfolding split_bar
split_bar-append n String.[] rest h = rw nil-append
split_bar-append n (String.◌∷◌ c p) rest h =
    rw cons-append (ground (arith, split_bar-append n p rest))

-- Where no bar is left, the text is its only field.
pub split_bar_whole : (n : ℕ) (p : String) → has_char is_bar p ≡ false → split_bar n p ≡ p ∷ []
unfolding split_bar
split_bar_whole zero p h = refl
split_bar_whole (suc n) String.[] h = refl
split_bar_whole (suc n) (String.◌∷◌ c p) h = ground (arith, split_bar_whole (suc n) p)

-- A split gives a list with an element in front.
split_bar-cons : (n : ℕ) (s : String) → (p : String) × (ps : List String) × (split_bar n s ≡ p ∷ ps)
unfolding split_bar
split_bar-cons zero s = (s, [], refl)
split_bar-cons (suc n) String.[] = ("", [], refl)
split_bar-cons (suc n) (String.◌∷◌ c s) =
    let (p, ps, e) = split_bar-cons (suc n) s in
    elim (Bool-cases (is_bar (code c))) [
      | inl bar ↦ ("", split_bar n s, ground arith)
      | inr other ↦ (String.◌∷◌ c p, ps, ground arith)
    ]

join_bar-in_front :
    (c : Char) (p : String) (ps : List String)
    → join_bar (in_front c (p ∷ ps)) ≡ String.◌∷◌ c (join_bar (p ∷ ps))
unfolding join_bar
join_bar-in_front c p [] = refl
join_bar-in_front c p (q ∷ ps) = rw cons-append

bar_of_is_bar : (c : Char) → is_bar (code c) ≡ true → c ≡ "|"
bar_of_is_bar c h = Char-path c "|" (ground arith)

join_bar_nil :
    (n : ℕ) (s : String) → join_bar ("" ∷ split_bar n s) ≡ String.◌∷◌ "|" (join_bar (split_bar n s))
join_bar_nil n s = let (p, ps, e) = split_bar-cons n s in rw e (unfold join_bar in rw nil-append)

join_bar-in_front_split :
    (n : ℕ) (c : Char) (s : String)
    → join_bar (in_front c (split_bar n s)) ≡ String.◌∷◌ c (join_bar (split_bar n s))
join_bar-in_front_split n c s =
    let (p, ps, e) = split_bar-cons n s in rw e (join_bar-in_front c p ps)

-- Joining what a split cut gives back the text.
pub join_bar-split_bar : (n : ℕ) (s : String) → join_bar (split_bar n s) ≡ s
unfolding split_bar
join_bar-split_bar zero s = unfold join_bar in refl
join_bar-split_bar (suc n) String.[] = unfold join_bar in refl
join_bar-split_bar (suc n) (String.◌∷◌ c s) =
    let again = join_bar-split_bar n s in
    let more = join_bar-split_bar (suc n) s in
    elim (Bool-cases (is_bar (code c))) [
      | inl bar ↦ ground (arith, join_bar_nil n s, bar_of_is_bar c)
      | inr other ↦ ground (arith, join_bar-in_front_split (suc n) c s)
    ]

-- `re.fullmatch(prefix + "(.*)", s)`: what follows the prefix.
unfoldable pub after_prefix : String → String → Option String
after_prefix String.[] s = some s
after_prefix (String.◌∷◌ c p) String.[] = none
after_prefix (String.◌∷◌ c p) (String.◌∷◌ d s) = elim (code c == code d) [
  | true ↦ after_prefix p s
  | false ↦ none
]

-- `s.startswith(prefix)`
unfoldable pub has_prefix : String → String → Bool
unfolding after_prefix
has_prefix prefix s = elim (after_prefix prefix s) [ none ↦ false | some _ ↦ true ]

abbrev pub is_empty : String → Bool
is_empty String.[] = true
is_empty (String.◌∷◌ c s) = false

-- Every field but the last is free of bars.
abbrev pub NoBars : List String → Type 0
NoBars [] = Unit
NoBars (p ∷ ps) = (has_char is_bar p ≡ false) × NoBars ps

pub join_bar-cons :
    (p q : String) (ps : List String)
    → join_bar (p ∷ (q ∷ ps)) ≡ String.◌++◌ p (String.◌∷◌ "|" (join_bar (q ∷ ps)))
unfolding join_bar
join_bar-cons p q ps = refl

join_bar_one : (p : String) → join_bar (p ∷ []) ≡ p
unfolding join_bar
join_bar_one p = refl

split_bar_zero : (s : String) → split_bar 0 s ≡ s ∷ []
unfolding split_bar
split_bar_zero s = refl

-- Splitting what was joined gives back the fields; the last one may hold bars.
pub split_bar-join_bar :
    (ps : List String) (rest : String)
    → NoBars ps
    → split_bar (length ps) (join_bar (ps ++ rest ∷ [])) ≡ ps ++ rest ∷ []
split_bar-join_bar [] rest h = rw (join_bar_one rest) (split_bar_zero rest)
split_bar-join_bar (p ∷ []) rest h =
    rw join_bar-cons (split_bar-append 0 p _ h.0 ∙ ap (λ l. p ∷ l) (split_bar-join_bar [] rest tt))
split_bar-join_bar (p ∷ (q ∷ ps)) rest h = rw join_bar-cons (
    split_bar-append (suc (length ps)) p _ h.0
    ∙ ap (λ l. p ∷ l) (split_bar-join_bar (q ∷ ps) rest h.1))

-- What is a prefix of a text is one of the text with anything behind it.
pub has_prefix-append :
    (prefix a b : String) → has_prefix prefix a ≡ true → has_prefix prefix (String.◌++◌ a b) ≡ true
unfolding has_prefix
has_prefix-append String.[] a b h = refl
has_prefix-append (String.◌∷◌ c p) String.[] b h = cc
has_prefix-append (String.◌∷◌ c p) (String.◌∷◌ d a) b h =
    rw cons-append (ground (arith, has_prefix-append p a b))

-- The code points of a text.
abbrev pub codes : String → List ℕ
codes String.[] = []
codes (String.◌∷◌ c s) = code c ∷ codes s
