-- ===== src/Reconcile/Handler.antt =====
-- What `ProcessNextWorkItem` does with a key, by what the functions do that it is given.
use aws_global_accelerator_c.Prelude.{
  ◌<◌, Text, Bool, true, false, ◌≡◌, refl, inl, inr, none, some, if◌then◌else◌, List, [], ◌∷◌, ◌++◌,
  arith, ltb, Bool-cases,
}
use aws_global_accelerator_c.Errors.{Error, Result, ok, err, panic, is_no_retry, is_not_found}
use aws_global_accelerator_c.Cloud.Exec.{State, Exec, pure, attempt, attempted, ◌>>=◌}
use aws_global_accelerator_c.Reconcile.{
  Outcome, QueueAction, forget, add_rate_limited, add_after, done, key, Handled, settle, dispatch,
  reconcile_handler, process_next_work_item,
}

-- What becomes of an item whose processing ended so: an error that may be retried puts it back under
-- the rate limit, any other error drops it; a delay that is asked for puts it back after that delay,
-- with its failures forgotten; else a retry that is asked for puts it back under the rate limit, and
-- without one its failures are forgotten.
pub data Ends : Result Outcome → List QueueAction → Type 0 where
  fatal : (e : Error) → is_no_retry e ≡ true → Ends (err e) []
  failed : (e : Error) → is_no_retry e ≡ false → Ends (err e) (add_rate_limited ∷ [])
  later :
      (o : Outcome) → 0 < o.requeue_after → Ends (ok o) (forget ∷ add_after o.requeue_after ∷ [])
  again :
      (o : Outcome) → o.requeue_after ≡ 0 → o.requeue ≡ true → Ends (ok o) (add_rate_limited ∷ [])
  finished : (o : Outcome) → o.requeue_after ≡ 0 → o.requeue ≡ false → Ends (ok o) (forget ∷ [])

abbrev only : List QueueAction → Handled
only actions = record { error = none; actions = actions }

settle_again :
    (b : Bool) (o : Outcome)
    → o.requeue ≡ b
    → o.requeue_after ≡ 0
    → Ends (ok o) (if b then only (add_rate_limited ∷ []) else only (forget ∷ [])).actions
settle_again true o e z = again o z e
settle_again false o e z = finished o z e

settle-Ends : (k : Text) (o : Outcome) → Ends (ok o) (settle k (inr o)).actions
unfolding settle
settle-Ends k o = elim (Bool-cases (ltb 0 o.requeue_after)) [
  | inl h ↦ rw h (later o (grind arith))
  | inr h ↦ rw h (settle_again o.requeue o refl (grind arith))
]

settle-Ends_error : (k : Text) (e : Error) → Ends (err e) (settle k (inl e)).actions
unfolding settle
settle-Ends_error k e = elim (Bool-cases (is_no_retry e)) [
  | inl h ↦ rw h (fatal e h)
  | inr h ↦ rw h (failed e h)
]

module _ {W Obj : Type 0} (key_to_obj : Text → Exec W Obj) (process_delete : Text → Exec W Outcome)
    (process_create_or_update : Obj → Exec W Outcome) where
  -- The processing of a key: of the object that is found, or of the deletion of one that is not
  -- there. It ends so, and in this state.
  pub data Processed (k : Text) (s : State W) : Result Outcome → State W → Type 0 where
    synced :
        (obj : Obj) (s' : State W) (r : Result Outcome) (s'' : State W)
        → key_to_obj k s ≡ (ok obj, s')
        → process_create_or_update obj s' ≡ (r, s'')
        → Processed k s r s''
    deleted :
        (e : Error) (s' : State W) (r : Result Outcome) (s'' : State W)
        → key_to_obj k s ≡ (err e, s')
        → is_not_found e ≡ true
        → process_delete k s' ≡ (r, s'')
        → Processed k s r s''

  -- How a round ends. A key that cannot be looked up for another reason than that its object is not
  -- there is dropped. A panic goes on.
  pub data IsRound (k : Text) (s : State W)
      : Result (Bool × List QueueAction) × State W → Type 0 where
    handled :
        (r : Result Outcome) (s' : State W) (actions : List QueueAction)
        → Processed k s r s'
        → Ends r actions
        → IsRound k s (ok (true, actions ++ (done ∷ [])), s')
    unknown :
        (e : Error) (s' : State W)
        → key_to_obj k s ≡ (err e, s')
        → is_not_found e ≡ false
        → IsRound k s (ok (true, done ∷ []), s')
    broken : (s' : State W) → Processed k s panic s' → IsRound k s (panic, s')
    lost : (s' : State W) → key_to_obj k s ≡ (panic, s') → IsRound k s (panic, s')

  after_process :
      (k : Text) (s : State W) (r : Result Outcome) (s' : State W)
      → Processed k s r s'
      → IsRound k s (
          ((λ t. (attempted r, s'))
              >>= (λ res. pure (settle k res))
              >>= (λ handled. pure (true, handled.actions ++ (done ∷ []))))
            s)
  unfolding ◌>>=◌ pure
  after_process k s (ok o) s' p = handled (ok o) s' _ p (settle-Ends k o)
  after_process k s (err e) s' p = handled (err e) s' _ p (settle-Ends_error k e)
  after_process k s panic s' p = broken s' p

  after_lookup :
      (k : Text) (s : State W) (r : Result Obj) (s' : State W)
      → key_to_obj k s ≡ (r, s')
      → IsRound k s (
          ((λ t. (attempted r, s'))
              >>= dispatch key_to_obj process_delete process_create_or_update k
              >>= (λ handled. pure (true, handled.actions ++ (done ∷ []))))
            s)
  unfolding ◌>>=◌ pure attempt dispatch
  after_lookup k s (ok obj) s' e = after_process k s _ _ (synced obj s' _ _ e refl)
  after_lookup k s (err x) s' e = elim (Bool-cases (is_not_found x)) [
    | inl h ↦ rw h (after_process k s _ _ (deleted x s' _ _ e h refl))
    | inr h ↦ rw h (unknown x s' e h)
  ]
  after_lookup k s panic s' e = lost s' e

  -- A round of a worker for a key, from every state and whatever the functions do that it is given,
  -- ends as `IsRound` says: it looks the key up and processes the object, or its deletion if it is not
  -- there; unless one of these panics, it says to go on, does with the item what `Ends` says of the
  -- result, and marks it done at the end; and if one panics, so does the round.
  pub process_next_work_item-IsRound :
      (k : Text) (s : State W)
      → IsRound k s (
          process_next_work_item key_to_obj process_delete process_create_or_update
            (some (key k))
            s)
  unfolding process_next_work_item reconcile_handler ◌>>=◌ attempt
  process_next_work_item-IsRound k s = after_lookup k s (key_to_obj k s).0 (key_to_obj k s).1 refl
