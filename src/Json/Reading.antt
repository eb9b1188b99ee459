-- ===== src/Json/Reading.antt =====
-- Reading a quoted text back from what follows it.
use Prim.Native.Char.{Char, code}
use Prim.Native.String.{String}
use mathlib.Core.Path.{ap₂}
use mathlib.Core.Option.{some-injective}
use native.Mathlib.Decide.{ℕ_discrete}
use text.Mathlib.TextEquality.{Char-path}
use flop_proof_api.Base.{
  ◌≡◌, refl, sym, ap, ◌∙◌, ◌<◌, ◌+◌, ◌-◌, ◌*◌, ◌/◌, ◌%◌, List, [], ◌∷◌, Option, none, some, arith,
  ℕ, zero, suc, ltb, ◌==◌, if◌then◌else◌, true, false, Bool-cases, inl, inr, subst, ltb→lt,
}
use flop_proof_api.Base.Strings.{codes}
use flop_proof_api.Json.{quoted, escaped, escape, ◌+++◌, hex_of, control}

pub append_assoc : (r s t : String) → (r +++ s) +++ t ≡ r +++ (s +++ t)
append_assoc String.[] s t = refl
append_assoc (String.◌∷◌ c r) s t = ap (λ u. String.◌∷◌ c u) (append_assoc r s t)

abbrev hex_value : ℕ → ℕ
hex_value c = if ltb c b'a' then c - b'0' else c - b'a' + 10

-- What an escape letter stands for.
abbrev letter : ℕ → ℕ
letter d =
    if d == b'n'
    then 10
    else if d == b'r'
    then 13
    else if d == b't'
    then 9
    else if d == b'b'
    then 8
    else if d == b'f'
    then 12
    else d

abbrev with_code : ℕ → Option (List ℕ × String) → Option (List ℕ × String)
with_code n none = none
with_code n (some (ns, rest)) = some (n ∷ ns, rest)

-- Where in an escape the reader is; in `hex`, the digits left and the number so far.
data Mode : Type 0 where
  plain slash : Mode
  hex : ℕ → ℕ → Mode

-- The code points up to the closing quotation mark, and what follows it.
unquote : Mode → String → Option (List ℕ × String)
unquote mode String.[] = none
unquote plain (String.◌∷◌ c s) = elim (code c == 34) [
  | true ↦ some ([], s)
  | false ↦ elim (code c == 92) [
    | true ↦ unquote slash s
    | false ↦ with_code (code c) (unquote plain s)
  ]
]
unquote slash (String.◌∷◌ c s) = elim (code c == b'u') [
  | true ↦ unquote (hex 4 0) s
  | false ↦ with_code (letter (code c)) (unquote plain s)
]
unquote (hex zero n) (String.◌∷◌ c s) = none
unquote (hex (suc zero) n) (String.◌∷◌ c s) =
    with_code (n * 16 + hex_value (code c)) (unquote plain s)
unquote (hex (suc (suc k)) n) (String.◌∷◌ c s) =
    unquote (hex (suc k) (n * 16 + hex_value (code c))) s

AllBelow : (ℕ → Type 0) → ℕ → Type 0
AllBelow P zero = Unit
AllBelow P (suc k) = P k × AllBelow P k

at_below : (P : ℕ → Type 0) (k : ℕ) → AllBelow P k → (d : ℕ) → d < k → P d
unfolding AllBelow
at_below P zero ps d h = absurd (omega arith)
at_below P (suc k) (p, ps) d h = elim (ℕ_discrete d k) [
  | yes e ↦ subst P (sym e) p
  | no ne ↦ at_below P k ps d (omega arith)
]

hex_digit_last :
    (n d : ℕ) (s : String)
    → d < 16
    → unquote (hex 1 n) (hex_of d +++ s) ≡ with_code (n * 16 + d) (unquote plain s)
unfolding unquote hex_of AllBelow
hex_digit_last n d s h =
    at_below (λ d. unquote (hex 1 n) (hex_of d +++ s) ≡ with_code (n * 16 + d) (unquote plain s)) 16
      (
        refl,
        (
          refl,
          (
            refl,
            (
              refl,
              (
                refl,
                (
                  refl,
                  (
                    refl,
                    (refl, (refl, (refl, (refl, (refl, (refl, (refl, (refl, (refl, tt))))))))),
                  ),
                ),
              ),
            ),
          ),
        ),
      )
      d h

hex_digit_next :
    (k n d : ℕ) (s : String)
    → d < 16
    → unquote (hex (suc (suc k)) n) (hex_of d +++ s) ≡ unquote (hex (suc k) (n * 16 + d)) s
unfolding unquote hex_of AllBelow
hex_digit_next k n d s h =
    at_below
      (λ d. unquote (hex (suc (suc k)) n) (hex_of d +++ s) ≡ unquote (hex (suc k) (n * 16 + d)) s)
      16
      (
        refl,
        (
          refl,
          (
            refl,
            (
              refl,
              (
                refl,
                (
                  refl,
                  (
                    refl,
                    (refl, (refl, (refl, (refl, (refl, (refl, (refl, (refl, (refl, tt))))))))),
                  ),
                ),
              ),
            ),
          ),
        ),
      )
      d h

unquote_u00 : (s : String) → unquote plain ("\\u00" +++ s) ≡ unquote (hex 2 0) s
unfolding unquote
unquote_u00 s = refl

control_char :
    (n : ℕ) (s : String) → n < 32 → unquote plain (control n +++ s) ≡ with_code n (unquote plain s)
unfolding control
control_char n s h =
    let high = hex_digit_next 0 0 (n / 16) (hex_of (n % 16) +++ s) (omega arith) in
    let low = hex_digit_last (0 * 16 + n / 16) (n % 16) s (omega arith) in
    let value : (0 * 16 + n / 16) * 16 + n % 16 ≡ n = omega arith in
    ap (λ t. unquote plain ("\\u00" +++ t)) (append_assoc (hex_of (n / 16)) (hex_of (n % 16)) s)
    ∙ unquote_u00 _
    ∙ high
    ∙ low
    ∙ ap (λ m. with_code m (unquote plain s)) value

-- A character with an escape of its own.
escape_special :
    (c d : Char) (s : String)
    → (code c == code d) ≡ true
    → unquote plain (escape d +++ s) ≡ with_code (code d) (unquote plain s)
    → unquote plain (escape c +++ s) ≡ with_code (code c) (unquote plain s)
escape_special c d s same h =
    subst (λ x. unquote plain (escape x +++ s) ≡ with_code (code x) (unquote plain s))
      (sym (Char-path c d (ground arith))) h

plain_char :
    (c : Char) (s : String)
    → (code c == 34) ≡ false
    → (code c == 92) ≡ false
    → unquote plain (String.◌∷◌ c s) ≡ with_code (code c) (unquote plain s)
unfolding unquote
plain_char c s e f = ground arith

escape_char :
    (c : Char) (s : String) → unquote plain (escape c +++ s) ≡ with_code (code c) (unquote plain s)
unfolding escape
escape_char c s = elim (Bool-cases (code c == 34)) [
  | inl e ↦ escape_special c "\"" s e (unfold unquote in refl)
  | inr e34 ↦ elim (Bool-cases (code c == 92)) [
    | inl e ↦ escape_special c "\\" s e (unfold unquote in refl)
    | inr e92 ↦ elim (Bool-cases (code c == 10)) [
      | inl e ↦ escape_special c "\n" s e (unfold unquote in refl)
      | inr e10 ↦ elim (Bool-cases (code c == 13)) [
        | inl e ↦ escape_special c "\r" s e (unfold unquote in refl)
        | inr e13 ↦ elim (Bool-cases (code c == 9)) [
          | inl e ↦ escape_special c "\t" s e (unfold unquote in refl)
          | inr e9 ↦ elim (Bool-cases (code c == 8)) [
            | inl e ↦ escape_special c "\u{8}" s e (unfold unquote in refl)
            | inr e8 ↦ elim (Bool-cases (code c == 12)) [
              | inl e ↦ escape_special c "\u{c}" s e (unfold unquote in refl)
              | inr e12 ↦ elim (Bool-cases (ltb (code c) 32)) [
                | inl low ↦
                    rw (e34, e92, e10, e13, e9, e8, e12, low)
                      (control_char (code c) s (ltb→lt _ _ low))
                | inr high ↦ rw (e34, e92, e10, e13, e9, e8, e12, high) (plain_char c s e34 e92)
              ]
            ]
          ]
        ]
      ]
    ]
  ]
]

unquote-escaped :
    (s rest : String) → unquote plain (escaped s +++ ("\"" +++ rest)) ≡ some (codes s, rest)
unfolding escaped
unquote-escaped String.[] rest = unfold unquote in refl
unquote-escaped (String.◌∷◌ c s) rest =
    ap (unquote plain) (append_assoc (escape c) (escaped s) ("\"" +++ rest))
    ∙ escape_char c (escaped s +++ ("\"" +++ rest))
    ∙ ap (with_code (code c)) (unquote-escaped s rest)

codes_inj : (s t : String) → codes s ≡ codes t → s ≡ t
codes_inj String.[] String.[] h = refl
codes_inj String.[] (String.◌∷◌ d t) h = cc
codes_inj (String.◌∷◌ c s) String.[] h = cc
codes_inj (String.◌∷◌ c s) (String.◌∷◌ d t) h =
    ap₂ String.◌∷◌ (Char-path c d (cc)) (codes_inj s t (cc))

abbrev rest_of : String → String
rest_of String.[] = ""
rest_of (String.◌∷◌ c s) = s

-- A quoted text is read off the front of whatever holds it.
pub quoted_inj : (s t r q : String) → quoted s +++ r ≡ quoted t +++ q → (s ≡ t) × (r ≡ q)
quoted_inj s t r q h =
    let both : escaped s +++ ("\"" +++ r) ≡ escaped t +++ ("\"" +++ q) =
      sym (append_assoc (escaped s) "\"" r) ∙ ap rest_of h ∙ append_assoc (escaped t) "\"" q in
    let read =
      some-injective _ _
        (sym (unquote-escaped s r) ∙ ap (unquote plain) both ∙ unquote-escaped t q) in
    (codes_inj s t (ap (λ p. p.0) read), ap (λ p. p.1) read)

pub append_cancel : (p s t : String) → p +++ s ≡ p +++ t → s ≡ t
append_cancel String.[] s t h = h
append_cancel (String.◌∷◌ c p) s t h = append_cancel p s t (ap rest_of h)
