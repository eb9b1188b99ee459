-- ===== src/Verification/History.antt =====
-- The chain head of a valid version-4 proof binds its whole history.
use Prim.Native.String.{String}
use mathlib.Core.Option
use flop_proof_api.Base.{
  ◌≡◌, refl, sym, ap, ◌∙◌, ◌⊎◌, inl, inr, true, Option, none, some, List, [], ◌∷◌, map, arith,
}
use mathlib.Core.Option.{some-injective}
use mathlib.Core.List.{Mem, mem-cons_self, mem-cons_of_mem}
use mathlib.Core.Path.{ap₂}
use flop_proof_api.Host.{Host}
use flop_proof_api.Value.{Value, str, Fields, get}
use flop_proof_api.Json.{dumps}
use flop_proof_api.Records.{Link, link_of, link_object, hash_event_record}
use flop_proof_api.Records.Links.{Clash, same_link_hash}
use flop_proof_api.Canonical.Separation.{parses, request_v4, event_v4, parses_unique}
use flop_proof_api.Formats.{signed_prior_head_v4}

-- The hashed text of an event, where it has all fields of a link.
unfoldable pub link_json : Value → Fields → Option String
link_json proof_id event = Option.map (λ l. dumps (link_object proof_id l)) (link_of event)

pub link_of-fields :
    (event : Fields) (l : Link)
    → link_of event ≡ some l
    → (l.actor_did ≡ get "actor_did" event) × (l.canonical ≡ get "canonical" event)
unfolding link_of get
link_of-fields event l h = ground arith

-- A text of the one list and a text of the other that differ and have one SHA-256 digest.
pub record Collision (host : Host) (xs ys : List (Option String)) : Type 0 where
  pub left : String
  pub right : String
  pub left_in : Mem (some left) xs
  pub right_in : Mem (some right) ys
  pub clash : Clash host left right

grow-Collision :
    {host : Host} {xs ys : List (Option String)} (x y : Option String)
    → Collision host xs ys
    → Collision host (x ∷ xs) (y ∷ ys)
grow-Collision x y found = record {
  left = found.left;
  right = found.right;
  left_in = mem-cons_of_mem x found.left_in;
  right_in = mem-cons_of_mem y found.right_in;
  clash = found.clash;
}

first-Collision :
    {host : Host} {s t : String} {x y : Option String} (xs ys : List (Option String))
    → x ≡ some s
    → y ≡ some t
    → Clash host s t
    → Collision host (x ∷ xs) (y ∷ ys)
first-Collision {s} {t} xs ys p q found = record {
  left = s;
  right = t;
  left_in = rw p mem-cons_self;
  right_in = rw q mem-cons_self;
  clash = found;
}

abbrev pub head_link : List Fields → Option Link
head_link [] = none
head_link (event ∷ _) = link_of event

module _ (host : Host) (proof_id : Value) where
  -- The events of a proof, the latest first: each one signs the link hash of the one before it.
  pub data Signed : List Fields → Type 0 where
    first :
        (event : Fields) (a c : String)
        → get "actor_did" event ≡ str a
        → get "canonical" event ≡ str c
        → parses request_v4 c ≡ true
        → Signed (event ∷ [])
    next :
        (event previous : Fields) (rest : List Fields) (a c : String) (l : Link)
        → get "actor_did" event ≡ str a
        → get "canonical" event ≡ str c
        → parses event_v4 c ≡ true
        → link_of previous ≡ some l
        → signed_prior_head_v4 (str c) ≡ some (hash_event_record host proof_id l)
        → Signed (previous ∷ rest)
        → Signed (event ∷ (previous ∷ rest))

  same_kind :
      {A : Type 0} (c d : String)
      → c ≡ d
      → parses request_v4 c ≡ true
      → parses event_v4 d ≡ true
      → A
  same_kind c d e h k = cc ((parses_unique request_v4 event_v4 c h (rw (← e) at k)).0)

  same_json :
      (e f : Fields) (l m : Link)
      → link_of e ≡ some l
      → link_of f ≡ some m
      → dumps (link_object proof_id l) ≡ dumps (link_object proof_id m)
      → link_json proof_id e ≡ link_json proof_id f
  unfolding link_json
  same_json e f l m p q h = rw (p, q) (ap some h)

  link_json_lem :
      (e : Fields) (l : Link)
      → link_of e ≡ some l
      → link_json proof_id e ≡ some (dumps (link_object proof_id l))
  unfolding link_json
  link_json_lem e l p = rw p refl

  -- What one link hash for two events says, with the fields read from the events.
  same_event :
      (e f : Fields) (xs ys : List Fields) (l m : Link) (a c b d : String)
      → link_of e ≡ some l
      → link_of f ≡ some m
      → get "actor_did" e ≡ str a
      → get "canonical" e ≡ str c
      → get "actor_did" f ≡ str b
      → get "canonical" f ≡ str d
      → hash_event_record host proof_id l ≡ hash_event_record host proof_id m
      → ((c ≡ d) × (link_json proof_id e ≡ link_json proof_id f))
        ⊎ Collision host (map (link_json proof_id) (e ∷ xs)) (map (link_json proof_id) (f ∷ ys))
  same_event e f xs ys l m a c b d p q ea ec fb fd h =
      let (la, lc) = link_of-fields e l p in
      let (mb, md) = link_of-fields f m q in
      elim (same_link_hash host proof_id a c b d l m (la ∙ ea) (lc ∙ ec) (mb ∙ fb) (md ∙ fd) h) [
        | inr clash ↦ inr (first-Collision _ _ (link_json_lem e l p) (link_json_lem f m q) clash)
        | inl (_, same, text) ↦ inl (same, same_json e f l m p q text)
      ]

  pub same_history :
      {xs ys : List Fields}
      → Signed xs
      → Signed ys
      → (l m : Link) → head_link xs ≡ some l
      → head_link ys ≡ some m
      → hash_event_record host proof_id l ≡ hash_event_record host proof_id m
      → (map (link_json proof_id) xs ≡ map (link_json proof_id) ys)
        ⊎ Collision host (map (link_json proof_id) xs) (map (link_json proof_id) ys)
  same_history (first e a c ea ec pc) (first f b d fb fd pd) l m p q h =
      elim (same_event e f [] [] l m a c b d p q ea ec fb fd h) [
        | inr collision ↦ inr collision
        | inl (_, same) ↦ inl (ap (λ j. j ∷ []) same)
      ]
  same_history (first e a c ea ec pc) (next f g ys b d n fb fd pd gn hd sy) l m p q h =
      elim (same_event e f [] (g ∷ ys) l m a c b d p q ea ec fb fd h) [
        | inr collision ↦ inr collision
        | inl (same, _) ↦ same_kind c d same pc pd
      ]
  same_history (next e g xs a c n ea ec pc gn hd sx) (first f b d fb fd pd) l m p q h =
      elim (same_event e f (g ∷ xs) [] l m a c b d p q ea ec fb fd h) [
        | inr collision ↦ inr collision
        | inl (same, _) ↦ same_kind d c (sym same) pd pc
      ]
  same_history (next e g xs a c n ea ec pc gn hc sx) (next f k ys b d o fb fd pd ko hd sy) l m p q
        h =
      let earlier : c ≡ d
          → (map (link_json proof_id) (g ∷ xs) ≡ map (link_json proof_id) (k ∷ ys))
            ⊎ Collision host (map (link_json proof_id) (g ∷ xs))
                (map (link_json proof_id) (k ∷ ys)) =
        λ same.
          same_history sx sy n o gn ko
            (some-injective _ _ (sym hc ∙ ap (λ t. signed_prior_head_v4 (str t)) same ∙ hd)) in
      elim (same_event e f (g ∷ xs) (k ∷ ys) l m a c b d p q ea ec fb fd h) [
        | inr collision ↦ inr collision
        | inl (same, json) ↦ elim (earlier same) [
          | inr collision ↦ inr (grow-Collision _ _ collision)
          | inl before ↦ inl (ap₂ ◌∷◌ json before)
        ]
      ]
