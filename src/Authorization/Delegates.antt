-- ===== src/Authorization/Delegates.antt =====
-- How the delegates of a proof grow with its chain.
use Prim.Native.String.{String}
use text.Mathlib.TextEquality.{eq_iff}
use text.Mathlib.Text.{◌==◌ as str_eq}
use mathlib.Core.Bool.{false≢true}
use mathlib.Core.Option.{none-ne-some}
use flop_proof_api.Base.{
  ◌≤◌, ◌≡◌, ◌≢◌, refl, sym, ap, ◌∙◌, ◌⊎◌, inl, inr, true, false, List, [], ◌∷◌, ◌++◌, Option, none,
  some, arith, Option-cases, Bool-cases, length,
}
use flop_proof_api.Base.Sets.{update, discard, set_of, update-discard}
use flop_proof_api.Host.{Host}
use flop_proof_api.Value.{Value, Fields, str, obj, is_text, find}
use flop_proof_api.Authorization.{
  PriorEvent, task_delegated, creator_of, delegates_of, delegated_by, delegated_from,
  delegates_field_error, max_delegates_per_proof, too_many, authorize_event, listed_delegates,
}
use flop_proof_api.Authorization.Rules.{MayAppend, as_creator, as_delegate, authorize_event_iff}

module _ (host : Host) where
  delegated_from-append :
      (owner : String) (delegated : List String) (events : List PriorEvent) (new : PriorEvent)
      → delegated_from host owner delegated (events ++ new ∷ [])
        ≡ update (delegated_from host owner delegated events) (delegated_by host owner new)
  unfolding delegated_from
  delegated_from-append owner delegated [] new = refl
  delegated_from-append owner delegated (e ∷ events) new =
      delegated_from-append owner (update delegated (delegated_by host owner e)) events new

  delegates_of-cons :
      (owner : String) (first : PriorEvent) (rest : List PriorEvent)
      → creator_of (first ∷ rest) ≡ some owner
      → delegates_of host (first ∷ rest) ≡ discard owner (delegated_from host owner [] rest)
  unfolding delegates_of
  delegates_of-cons owner first rest e = rw (e, delegates_of)

  creator_of-append :
      (owner : String) (prior : List PriorEvent) (new : PriorEvent)
      → creator_of prior ≡ some owner
      → creator_of (prior ++ new ∷ []) ≡ some owner
  unfolding creator_of
  creator_of-append owner [] new e = cc
  creator_of-append owner (first ∷ rest) new e = e

  -- One more event adds what it delegates, but for the creator.
  pub delegates_of-append :
      (owner : String) (prior : List PriorEvent) (new : PriorEvent)
      → creator_of prior ≡ some owner
      → delegates_of host (prior ++ new ∷ [])
        ≡ update (delegates_of host prior) (discard owner (set_of (delegated_by host owner new)))
  delegates_of-append owner [] new e = absurd (none-ne-some owner (unfold creator_of in e))
  delegates_of-append owner (first ∷ rest) new e =
      delegates_of-cons owner first (rest ++ new ∷ [])
        (creator_of-append owner (first ∷ rest) new e)
      ∙ ap (discard owner) (delegated_from-append owner [] rest new)
      ∙ sym (update-discard owner (delegated_from host owner [] rest) (delegated_by host owner new))
      ∙ ap (λ d. update d (discard owner (set_of (delegated_by host owner new))))
          (sym (delegates_of-cons owner first rest e))

  -- An event not by the creator, or of another type, delegates to nobody.
  delegated_by_other :
      (owner : String) (new : PriorEvent)
      → (is_text new.event_type task_delegated ≡ false) ⊎ (is_text new.actor_did owner ≡ false)
      → delegated_by host owner new ≡ []
  unfolding delegated_by
  delegated_by_other owner new h = ground arith

  delegates_of_same :
      (owner : String) (prior : List PriorEvent) (new : PriorEvent)
      → creator_of prior ≡ some owner
      → delegated_by host owner new ≡ []
      → delegates_of host (prior ++ new ∷ []) ≡ delegates_of host prior
  delegates_of_same owner prior new e h =
      delegates_of-append owner prior new e
      ∙ ap (λ d. update (delegates_of host prior) (discard owner (set_of d))) h
      ∙ (unfold set_of discard in refl)

  -- With a well-formed list, the event delegates to those listed.
  delegated_by_fair :
      (owner : String) (new : PriorEvent)
      → delegates_field_error host new.payload ≡ none
      → (delegated_by host owner new ≡ [])
        ⊎ (delegated_by host owner new ≡ listed_delegates new.payload)
  unfolding delegated_by
  delegated_by_fair owner new h = ground arith

  listed_none :
      (payload : Fields) → find "delegates" payload ≡ none → listed_delegates (obj payload) ≡ []
  unfolding listed_delegates
  listed_none payload e = rw (e, listed_delegates)

  -- Within the cap, a list of delegates leaves at most 32 of them.
  listed_within_cap :
      (owner : String) (prior : List PriorEvent) (payload : Value)
      → length (delegates_of host prior) ≤ 32
      → too_many host owner prior payload ≡ false
      → length
          (update (delegates_of host prior) (discard owner (set_of (listed_delegates payload))))
        ≤ 32
  listed_within_cap owner prior (obj payload) small h =
      elim (Option-cases (find "delegates" payload)) [
        | inl missing ↦ rw (listed_none payload missing) (unfold set_of discard in small)
        | inr (d, there) ↦ let k = rw (there, too_many) at h in ground arith
      ]
  listed_within_cap owner prior _ small h = unfold listed_delegates set_of discard in small

  module _ (prior : List PriorEvent) (actor t : String) (payload : Value) (n : Option Value) where
    -- The event as the next check of the chain reads it.
    abbrev pub appended : PriorEvent
    appended = record { event_type = str t; actor_did = str actor; payload = payload; sequence = n }

    abbrev pub KeepsDelegates : Type 0
    KeepsDelegates =
        (length (delegates_of host (prior ++ appended ∷ [])) ≤ max_delegates_per_proof)
        × ((delegates_of host (prior ++ appended ∷ []) ≡ delegates_of host prior)
            ⊎ ((t ≡ task_delegated) × (creator_of prior ≡ some actor)))

    keeps_same :
        (owner : String)
        → length (delegates_of host prior) ≤ max_delegates_per_proof
        → creator_of prior ≡ some owner
        → delegated_by host owner appended ≡ []
        → KeepsDelegates
    keeps_same owner small e nobody =
        let same = delegates_of_same owner prior appended e nobody in (rw same small, inl same)

    type_is_other : t ≢ task_delegated → is_text (str t) task_delegated ≡ false
    unfolding is_text
    type_is_other h = ground (arith, eq_iff t task_delegated)

    rule_keeps_delegates :
        length (delegates_of host prior) ≤ max_delegates_per_proof
        → MayAppend host prior actor t payload
        → KeepsDelegates
    rule_keeps_delegates small (as_delegate owner e listed plain low) =
        keeps_same owner small e
          (delegated_by_other owner appended (inl (type_is_other (λ p. low (inl p)))))
    rule_keeps_delegates small (as_creator owner e same plain fair) =
        elim (Bool-cases (str_eq t task_delegated)) [
          | inr other ↦ keeps_same owner small e (
              delegated_by_other owner appended
                (inl (type_is_other (λ p. false≢true (sym other ∙ (eq_iff t task_delegated).1 p)))))
          | inl is ↦
              let typed = (eq_iff t task_delegated).0 is in
              let (good, fits) = fair typed in
              elim (delegated_by_fair owner appended good) [
                | inl nobody ↦ keeps_same owner small e nobody
                | inr listed ↦ (
                  rw (delegates_of-append owner prior appended e, listed)
                      (listed_within_cap owner prior payload small fits),
                  inr (typed, rw same e),
                )
              ]
        ]

-- An event that may be appended keeps the number of delegates within the cap of 32, and changes
-- the delegates at all only where it is a task.delegated event of the creator.
pub authorize_event-delegates :
    (host : Host) (prior : List PriorEvent) (actor t : String) (payload : Value) (n : Option Value)
    → (authorize_event host prior actor (str t) payload).allowed ≡ true
    → length (delegates_of host prior) ≤ max_delegates_per_proof
    → KeepsDelegates host prior actor t payload n
authorize_event-delegates host prior actor t payload n h small =
    rule_keeps_delegates host prior actor t payload n small
      ((authorize_event_iff host prior actor t payload).0 h)
