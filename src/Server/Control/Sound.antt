-- ===== src/Server/Control/Sound.antt =====
-- What the dispatcher serves is what the payload asks for.
use oven_multiskill_runtime.Common.{
  String, false, ◌≡◌, ◌⊎◌, inl, inr, refl, some, [], ◌∷◌, str_eq, eq_iff, is_empty, ℤ, ap, subst,
  if◌then◌else◌, Bool-cases, Option-cases, Result, ok, err, arith,
}
use oven_multiskill_runtime.Value.{Value, Fields, end, get, text, integer}
use oven_multiskill_runtime.Server.Control.{
  ControlCall, dispatch, plain, with_text, trial_arguments, argument_text, argument_integer,
}
use oven_multiskill_runtime.Server.Control.Asks.{
  name_of, HasText, IsArguments, only_fields-KeysIn, no_fields,
}

-- The request asks for the operation.
abbrev pub Fits : String → Fields → ControlCall → Type 0
Fits command fs c = (command ≡ name_of c) × IsArguments c fs

argument_text_ok :
    (v : Value) (t : String) → argument_text v ≡ ok t → (v ≡ text t) × (is_empty t ≡ false)
argument_text_ok v t h = ground arith

argument_integer_ok : (v : Value) (n : ℤ) → argument_integer v ≡ ok n → v ≡ integer n
argument_integer_ok v n h = ground arith

module _ (fs : Fields) (c : ControlCall) where
  plain_ok : (k : ControlCall) → plain k fs ≡ ok c → (k ≡ c) × (fs ≡ end)
  plain_ok k h = ground (arith, no_fields fs)

  with_text_ok :
      (name : String) (f : String → ControlCall)
      → with_text name f fs ≡ ok c
      → (t : String) × (f t ≡ c) × HasText name t fs
  with_text_ok name f h = elim (Option-cases (get name fs)) [
    | inl e ↦ absurd (ground arith)
    | inr (v, e) ↦ read_as v e (argument_text v) refl
  ]
    where
      read_as :
          (v : Value)
          → get name fs ≡ some v
          → (a : Result String) → argument_text v ≡ a
          → (t : String) × (f t ≡ c) × HasText name t fs
      read_as v e (err x) a = absurd (ground arith)
      read_as v e (ok t) a =
          let p = argument_text_ok v t a in
          (
            t,
            ground arith,
            (rw e (ap some p.0), p.1, only_fields-KeysIn (name ∷ []) fs (ground arith)),
          )

  trial_ok :
      trial_arguments fs ≡ ok c
      → (t : String) × (n : ℤ) × (ControlCall.begin_trial t n ≡ c)
        × IsArguments (ControlCall.begin_trial t n) fs
  trial_ok h = elim (Option-cases (get "trial_id" fs)) [
    | inl e ↦ absurd (ground arith)
    | inr (v, e) ↦ elim (Option-cases (get "root_seed" fs)) [
      | inl e' ↦ absurd (ground arith)
      | inr (w, e') ↦ read_as v w e e' (argument_text v) (argument_integer w) refl refl
    ]
  ]
    where
      read_as :
          (v w : Value)
          → get "trial_id" fs ≡ some v
          → get "root_seed" fs ≡ some w
          → (a : Result String) → (b : Result ℤ) → argument_text v ≡ a
          → argument_integer w ≡ b
          → (t : String) × (n : ℤ) × (ControlCall.begin_trial t n ≡ c)
            × IsArguments (ControlCall.begin_trial t n) fs
      read_as v w e e' (err x) b k l = absurd (ground arith)
      read_as v w e e' (ok t) (err x) k l = absurd (ground arith)
      read_as v w e e' (ok t) (ok n) k l =
          let p = argument_text_ok v t k in
          (
            t,
            n,
            ground arith,
            (
              rw e (ap some p.0),
              p.1,
              rw e' (ap some (argument_integer_ok w n l)),
              only_fields-KeysIn ("trial_id" ∷ "root_seed" ∷ []) fs (ground arith),
            ),
          )

  text-Fits :
      (command name : String) (f : String → ControlCall)
      → ((t : String) → command ≡ name_of (f t))
      → ((t : String) → HasText name t fs → IsArguments (f t) fs)
      → with_text name f fs ≡ ok c
      → Fits command fs c
  text-Fits command name f n a h =
      let (t, e, v) = with_text_ok name f h in subst (Fits command fs) e (n t, a t v)

  trial-Fits : trial_arguments fs ≡ ok c → Fits "begin-trial" fs c
  trial-Fits h = let (t, n, e, v) = trial_ok h in subst (Fits "begin-trial" fs) e (refl, v)

  plain-Fits :
      (k : ControlCall) → (fs ≡ end → IsArguments k fs) → plain k fs ≡ ok c → Fits (name_of k) fs c
  plain-Fits k a h = let (e, v) = plain_ok k h in subst (Fits (name_of k) fs) e (refl, a v)

pick :
    (t n : String) (x y r : Result ControlCall)
    → (if str_eq t n then x else y) ≡ r
    → ((t ≡ n) × (x ≡ r)) ⊎ (y ≡ r)
pick t n x y r h = elim (Bool-cases (str_eq t n)) [
  | inl e ↦ inl (ground (arith, e, eq_iff t n), ground (arith, e))
  | inr e ↦ inr (ground (arith, e))
]

-- A command is one of the names, or it is not dispatched.
command_cases :
    (t : String) (fs : Fields) (c : ControlCall)
    → dispatch (record { command = t; arguments = fs }) ≡ ok c
    → ((t ≡ "status") × (plain ControlCall.status fs ≡ ok c))
      ⊎ ((t ≡ "open-session") × (plain ControlCall.open_session fs ≡ ok c))
      ⊎ ((t ≡ "end-trial") × (plain ControlCall.end_trial fs ≡ ok c))
      ⊎ ((t ≡ "prepare-skill") × (with_text "skill" ControlCall.prepare_skill fs ≡ ok c))
      ⊎ ((t ≡ "begin-trial") × (trial_arguments fs ≡ ok c))
      ⊎ ((t ≡ "close-session") × (with_text "session_id" ControlCall.close_session fs ≡ ok c))
      ⊎ ((t ≡ "abort") × (with_text "reason" ControlCall.abort fs ≡ ok c))
unfolding dispatch
command_cases t fs c h = elim (pick t "status" _ _ (ok c) h) [
  | inl p ↦ inl p
  | inr h ↦ inr (elim (pick t "open-session" _ _ (ok c) h) [
    | inl p ↦ inl p
    | inr h ↦ inr (elim (pick t "end-trial" _ _ (ok c) h) [
      | inl p ↦ inl p
      | inr h ↦ inr (elim (pick t "prepare-skill" _ _ (ok c) h) [
        | inl p ↦ inl p
        | inr h ↦ inr (elim (pick t "begin-trial" _ _ (ok c) h) [
          | inl p ↦ inl p
          | inr h ↦ inr (elim (pick t "close-session" _ _ (ok c) h) [
            | inl p ↦ inl p
            | inr h ↦ inr (elim (pick t "abort" _ _ (ok c) h) [ inl p ↦ p | inr e ↦ absurd (cc e) ])
          ])
        ])
      ])
    ])
  ])
]

pub dispatch-Fits :
    (t : String) (fs : Fields) (c : ControlCall)
    → dispatch (record { command = t; arguments = fs }) ≡ ok c
    → Fits t fs c
dispatch-Fits t fs c h = elim (command_cases t fs c h) [
  | inl (e, k) ↦ rw e (plain-Fits fs c ControlCall.status (λ v. v) k)
  | inr (inl (e, k)) ↦ rw e (plain-Fits fs c ControlCall.open_session (λ v. v) k)
  | inr (inr (inl (e, k))) ↦ rw e (plain-Fits fs c ControlCall.end_trial (λ v. v) k)
  | inr (inr (inr (inl (e, k)))) ↦
      rw e
        (text-Fits fs c "prepare-skill" "skill" ControlCall.prepare_skill (λ t. refl) (λ t v. v) k)
  | inr (inr (inr (inr (inl (e, k))))) ↦ rw e (trial-Fits fs c k)
  | inr (inr (inr (inr (inr (inl (e, k)))))) ↦ rw e (
      text-Fits fs c "close-session" "session_id" ControlCall.close_session (λ t. refl) (λ t v. v)
        k)
  | inr (inr (inr (inr (inr (inr (e, k)))))) ↦
      rw e (text-Fits fs c "abort" "reason" ControlCall.abort (λ t. refl) (λ t v. v) k)
]
