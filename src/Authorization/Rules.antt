-- ===== src/Authorization/Rules.antt =====
-- The decision of `authorize_event`, as rules for the creator and for the delegates.
use Prim.Native.String.{String}
use mathlib.Core.Bool.{false≢true}
use text.Mathlib.Text.{◌==◌ as str_eq}
use text.Mathlib.TextEquality.{eq_iff}
use flop_proof_api.Base.{
  ◌≡◌, ◌≢◌, ◌↔◌, ◌⊎◌, inl, inr, true, false, List, none, some, arith, Option-cases, Bool-cases, sym,
  ◌∙◌,
}
use flop_proof_api.Base.Sets.{contains}
use flop_proof_api.Host.{Host}
use flop_proof_api.Value.{Value, str, is_text}
use flop_proof_api.Authorization.{
  Role, delegate, unauthorized, PriorEvent, request_created, task_delegated, creator_of,
  delegates_of, delegates_field_error, too_many, authorize_event, authorize_role, role_of,
}

-- The event types that only the creator may write.
abbrev pub IsCreatorOnly : String → Type 0
IsCreatorOnly t = (t ≡ task_delegated) ⊎ ((t ≡ "proof.completed") ⊎ (t ≡ "proof.failed"))

module _ (host : Host) (prior : List PriorEvent) (actor t : String) (payload : Value) where
  -- The creator may write all but request.created, and delegates with a well-formed list that
  -- stays within the cap; a delegate may write what is neither that nor the creator's alone.
  pub data MayAppend : Type 0 where
    as_creator :
        (owner : String)
        → creator_of prior ≡ some owner
        → actor ≡ owner
        → t ≢ request_created
        → (t ≡ task_delegated
            → (delegates_field_error host payload ≡ none)
              × (too_many host owner prior payload ≡ false))
        → MayAppend
    as_delegate :
        (owner : String)
        → creator_of prior ≡ some owner
        → contains (delegates_of host prior) actor ≡ true
        → t ≢ request_created
        → ¬ IsCreatorOnly t
        → MayAppend

  -- What the checks have let through for the creator, and for a delegate.
  creator_allowed :
      (owner : String)
      → (authorize_role host owner prior (str t) payload Role.creator).allowed ≡ true
      → (t ≢ request_created)
        × (t ≡ task_delegated
            → (delegates_field_error host payload ≡ none)
              × (too_many host owner prior payload ≡ false))
  unfolding authorize_role is_text
  creator_allowed owner h = (
    λ e. ground (arith, eq_iff t request_created),
    λ e. ground (arith, eq_iff t request_created, eq_iff t task_delegated),
  )

  delegate_allowed :
      (owner : String)
      → (authorize_role host owner prior (str t) payload delegate).allowed ≡ true
      → (t ≢ request_created) × ¬ IsCreatorOnly t
  unfolding authorize_role is_text
  delegate_allowed owner h = (
    λ e. ground (arith, eq_iff t request_created),
    λ e. ground (
      arith,
      eq_iff t request_created,
      eq_iff t task_delegated,
      eq_iff t "proof.completed",
      eq_iff t "proof.failed",
    ),
  )

  outsider_refused :
      (owner : String)
      → (authorize_role host owner prior (str t) payload unauthorized).allowed ≡ false
  unfolding authorize_role
  outsider_refused owner = ground arith

  decision_at :
      (owner : String)
      → creator_of prior ≡ some owner
      → authorize_event host prior actor (str t) payload
        ≡ authorize_role host owner prior (str t) payload (role_of host owner prior actor)
  unfolding authorize_event
  decision_at owner e = rw (e, authorize_event)

  no_creator_refused :
      creator_of prior ≡ none → (authorize_event host prior actor (str t) payload).allowed ≡ false
  unfolding authorize_event
  no_creator_refused e = rw (e, authorize_event)

  allowed_sound : (authorize_event host prior actor (str t) payload).allowed ≡ true → MayAppend
  allowed_sound h = elim (Option-cases (creator_of prior)) [
    | inl nobody ↦ absurd (false≢true (sym (no_creator_refused nobody) ∙ h))
    | inr (owner, e) ↦
        let k = rw (decision_at owner e) at h in
        elim (Bool-cases (str_eq actor owner)) [
          | inl same ↦
              let (plain, fair) = creator_allowed owner (rw same at k) in
              as_creator owner e ((eq_iff actor owner).0 same) plain fair
          | inr other ↦ elim (Bool-cases (contains (delegates_of host prior) actor)) [
            | inl listed ↦
                let (plain, low) = delegate_allowed owner (rw (other, listed) at k) in
                as_delegate owner e listed plain low
            | inr outside ↦
                absurd (false≢true (sym (outsider_refused owner) ∙ rw (other, outside) at k))
          ]
        ]
  ]

  allowed_complete : MayAppend → (authorize_event host prior actor (str t) payload).allowed ≡ true
  unfolding authorize_role is_text
  allowed_complete (as_creator owner e same plain fair) =
      rw (decision_at owner e) (
        ground (arith, eq_iff actor owner, eq_iff t request_created, eq_iff t task_delegated, fair))
  allowed_complete (as_delegate owner e listed plain low) = rw (decision_at owner e) (
      ground (
        arith,
        eq_iff actor owner,
        eq_iff t request_created,
        eq_iff t task_delegated,
        eq_iff t "proof.completed",
        eq_iff t "proof.failed",
      ))

-- An actor may append an event exactly by the two rules: as the creator any type but
-- request.created, a delegation only with a well-formed list within the cap; as a delegate any type
-- but request.created and the creator's own ones.
pub authorize_event_iff :
    (host : Host) (prior : List PriorEvent) (actor t : String) (payload : Value)
    → ((authorize_event host prior actor (str t) payload).allowed ≡ true)
      ↔ MayAppend host prior actor t payload
authorize_event_iff host prior actor t payload =
    (allowed_sound host prior actor t payload, allowed_complete host prior actor t payload)

-- Nobody appends request.created: the decision names a reason, and does not allow it.
pub request_created_refused :
    (host : Host) (prior : List PriorEvent) (actor : String) (event_type payload : Value)
    → is_text event_type request_created ≡ true
    → ((authorize_event host prior actor event_type payload).allowed ≡ false)
      × ((authorize_event host prior actor event_type payload).reason ≢ none)
unfolding authorize_event
request_created_refused host prior actor event_type payload h =
    elim (Option-cases (creator_of prior)) [
      | inl nobody ↦ (ground arith, ground arith)
      | inr (owner, e) ↦ (ground arith, ground arith)
    ]
