-- ===== src/Ledger/Channel.antt =====
-- What requests do to the channel of events: what is in it keeps its place.
use truthmetal.Base.{
  ◌≡◌, sym, ltb, Option, none, some, List, [], ◌∷◌, ◌++◌, Result, ok, err, length, Bool-cases, inl,
  inr,
}
use truthmetal.Exec.{Error, Exec}
use mathlib.Core.List.{append_assoc, append-nil}
use truthmetal.Exec.Keeps.{IsPreorder, Keeps, Keeps-pure, Keeps-raise, Keeps-bind, Keeps-attempt}
use truthmetal.Model.{Parameter, ParameterState, SubmitRequest, LedgerEvent}
use truthmetal.Ledger.Requests.{
  Request, submit_request, get_request, get_version_request, revoke_request, audit_request, step,
}
use truthmetal.Ledger.{Process, Service, capacity, on_world, broadcast, publish, finish, submit}

abbrev pub queue : {W : Type 0} → Process W → List LedgerEvent
queue s = s.events

on_world-Keeps :
    {W A : Type 0} {R : List LedgerEvent → List LedgerEvent → Type 0} (m : Exec W A)
    → IsPreorder R
    → Keeps R queue (on_world m)
on_world-Keeps m o = record { at = λ s. o.reflexive s.events }

-- A relation on the channel that a broadcast keeps is kept by each request.
module _ {W Doc : Type 0} (svc : Service W Doc) {R : List LedgerEvent → List LedgerEvent → Type 0}
    (o : IsPreorder R) (kept : (e : LedgerEvent) → Keeps R (queue {W = W}) (broadcast e)) where
  publish-Keeps : (p : Parameter) (r : Result Error Parameter) → Keeps R queue (publish svc p r)
  unfolding publish
  publish-Keeps p (err e) = Keeps-pure o queue p
  publish-Keeps p (ok fresh) = Keeps-bind o queue _ _ (on_world-Keeps _ o) λ _.
      Keeps-bind o queue _ _ (on_world-Keeps _ o)
        λ now. Keeps-bind o queue _ _ (kept _) λ _. Keeps-pure o queue fresh

  finish-Keeps :
      (p : Parameter) (verdict : ParameterState × Option Error)
      → Keeps R queue (finish svc p verdict)
  unfolding finish
  finish-Keeps p (state, some e) = Keeps-raise o queue e
  finish-Keeps p (state, none) =
      Keeps-bind o queue _ _ (Keeps-attempt queue _ (on_world-Keeps _ o))
        λ fresh. publish-Keeps _ fresh

  submit-Keeps : (req : SubmitRequest) → Keeps R queue (submit svc req)
  unfolding submit
  submit-Keeps req =
      Keeps-bind o queue _ _ (on_world-Keeps _ o)
        λ p. Keeps-bind o queue _ _ (on_world-Keeps _ o) λ v. finish-Keeps p v

  pub step-Keeps : (s : Process W) (request : Request) → R s.events (step svc s request).events
  unfolding step
  step-Keeps s (submit_request req) = (submit-Keeps req).at s
  step-Keeps s (get_request namespace key) = o.reflexive s.events
  step-Keeps s (get_version_request id) = o.reflexive s.events
  step-Keeps s (revoke_request namespace key actor reason) = o.reflexive s.events
  step-Keeps s (audit_request namespace key limit offset) = o.reflexive s.events

-- The channel of before is in front.
abbrev pub Extends : List LedgerEvent → List LedgerEvent → Type 0
Extends before after = (added : List LedgerEvent) × (after ≡ before ++ added)

pub Extends-preorder : IsPreorder Extends
Extends-preorder = record {
  reflexive = λ d. ([], sym (append-nil d));
  transitive = λ d e f (a, p) (b, q). (a ++ b, rw (q, p) (append_assoc d a b));
}

pub broadcast-Extends : {W : Type 0} (e : LedgerEvent) → Keeps Extends (queue {W = W}) (broadcast e)
unfolding broadcast
broadcast-Extends e = record {
  at = λ s. elim (Bool-cases (ltb (length s.events) capacity)) [
    | inl t ↦ (e ∷ [], rw t)
    | inr f ↦ ([], rw f (sym (append-nil s.events)))
  ];
}
