-- ===== src/Delivery/Isolation.antt =====
-- The fan-out: each channel is called on its own.
use rider_crawl_baemin.Prelude.{
  ◌≡◌, refl, sym, ap, ◌∙◌, Bool, true, false, Option, none, some, List, [], ◌∷◌, ◌++◌, map, String,
}
use rider_crawl_baemin.Delivery.{
  Message, DispatchJob, FanoutOutcome, Attempted, returned, raised, Action, dispatch_all,
  outcome_of,
}

-- One call of `send`: its arguments and how it ended.
pub record Call {κ} (E : Type κ) : Type κ where
  pub job : DispatchJob
  pub text : String
  pub ended : Attempted E (Unit {0})

abbrev pub arguments {κ} : {E : Type κ} → Call E → DispatchJob × String
arguments call = (call.job, call.text)

abbrev pub arguments_for : Message → DispatchJob → DispatchJob × String
arguments_for message job = (job, message.text)

-- `send` with a record of its calls beside the state, the last at the end
abbrev pub recorded {ℓ κ} :
    {W : Type ℓ} {E : Type κ}
    → (DispatchJob → String → Action W E (Unit {0}))
    → DispatchJob
    → String
    → Action (W × List (Call E)) E (Unit {0})
recorded send job text (w, calls) = (
  (send job text w).0,
  (
    (send job text w).1,
    calls ++ record { job = job; text = text; ended = (send job text w).0 } ∷ [],
  ),
)

abbrev pub has_returned {κ} : {E : Type κ} → Attempted E (Unit {0}) → Bool
has_returned (returned _) = true
has_returned (raised exc) = false

abbrev pub error_of {κ} : {E : Type κ} → (E → String) → Attempted E (Unit {0}) → Option String
error_of describe (returned _) = none
error_of describe (raised exc) = some (describe exc)

-- What a call should be reported as
abbrev pub report {κ} : {E : Type κ} → (E → String) → Call E → FanoutOutcome
report describe call = record {
  job = call.job;
  sent = has_returned call.ended;
  error_redacted = error_of describe call.ended;
}

append_nil {ℓ} : {A : Type ℓ} (xs : List A) → xs ++ [] ≡ xs
append_nil [] = refl
append_nil (x ∷ xs) = ap (λ ys. x ∷ ys) (append_nil xs)

append_step {ℓ} :
    {A : Type ℓ} (xs : List A) (x : A) (ys : List A) → (xs ++ x ∷ []) ++ ys ≡ xs ++ x ∷ ys
append_step [] x ys = refl
append_step (z ∷ xs) x ys = ap (λ zs. z ∷ zs) (append_step xs x ys)

module _ {ℓ κ} {W : Type ℓ} {E : Type κ} (describe : E → String)
    (send : DispatchJob → String → Action W E (Unit {0})) (message : Message) where
  outcome_of-report :
      (job : DispatchJob) (ended : Attempted E (Unit {0}))
      → outcome_of describe job ended
        ≡ report describe (record { job = job; text = message.text; ended = ended })
  outcome_of-report job (returned _) = refl
  outcome_of-report job (raised exc) = refl

  -- What a run of the recording fan-out adds to the calls recorded before.
  record Made (todo : List DispatchJob) (w : W) (calls : List (Call E)) : Type (ℓ ⊔ κ) where
    made : List (Call E)
    added : (dispatch_all describe (recorded send) message todo (w, calls)).1.1 ≡ calls ++ made
    asked : map arguments made ≡ map (arguments_for message) todo
    told :
        (dispatch_all describe (recorded send) message todo (w, calls)).0
        ≡ map (report describe) made
    same :
        (dispatch_all describe (recorded send) message todo (w, calls)).0
        ≡ (dispatch_all describe send message todo w).0
    state :
        (dispatch_all describe (recorded send) message todo (w, calls)).1.0
        ≡ (dispatch_all describe send message todo w).1

  each-Made : (todo : List DispatchJob) (w : W) (calls : List (Call E)) → Made todo w calls
  unfolding dispatch_all
  each-Made [] w calls = record {
    made = [];
    added = sym (append_nil calls);
    asked = refl;
    told = refl;
    same = refl;
    state = refl;
  }
  each-Made (job ∷ later) w calls =
      let call : Call E = record {
        job = job;
        text = message.text;
        ended = (send job message.text w).0;
      } in
      let rest = each-Made later (send job message.text w).1 (calls ++ call ∷ []) in
      record {
        made = call ∷ rest.made;
        added = rest.added ∙ append_step calls call rest.made;
        asked = ap (λ xs. arguments_for message job ∷ xs) rest.asked;
        told = cons_told job call rest.made _ rest.told;
        same = ap (λ os. outcome_of describe job (send job message.text w).0 ∷ os) rest.same;
        state = rest.state;
      }
    where
      cons_told :
          (job : DispatchJob) (call : Call E) (made : List (Call E)) (os : List FanoutOutcome)
          → os ≡ map (report describe) made
          → outcome_of describe job (send job message.text w).0 ∷ os
            ≡ report describe
                (record { job = job; text = message.text; ended = (send job message.text w).0 })
              ∷ map (report describe) made
      cons_told job call made os e =
          ap (λ xs. outcome_of describe job (send job message.text w).0 ∷ xs) e
          ∙ ap (λ o. o ∷ map (report describe) made)
              (outcome_of-report job (send job message.text w).0)

  -- A fan-out calls `send` once for each job, in their order and with the message's text, also after
  -- calls that raised; its outcomes are the reports of these calls: sent if the call returned, else
  -- the text of what it raised. Recording the calls changes neither the outcomes nor the state.
  pub dispatch_all-tries :
      (todo : List DispatchJob) (w : W)
      → let run = dispatch_all describe (recorded send) message todo (w, []) in
        (map arguments run.1.1 ≡ map (arguments_for message) todo)
        × (run.0 ≡ map (report describe) run.1.1)
        × (run.0 ≡ (dispatch_all describe send message todo w).0)
        × (run.1.0 ≡ (dispatch_all describe send message todo w).1)
  dispatch_all-tries todo w =
      let run = each-Made todo w [] in
      (
        ap (λ cs. map arguments cs) run.added ∙ run.asked,
        run.told ∙ sym (ap (λ cs. map (report describe) cs) run.added),
        run.same,
        run.state,
      )
