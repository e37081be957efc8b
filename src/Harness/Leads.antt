-- ===== src/Harness/Leads.antt =====
-- Reasoning on the order of the calls in the experiments of spikes/harness.
use klados.Base.{
  ℕ, zero, suc, ◌+◌, ◌≡◌, refl, Bool, true, false, none, some, List, [], ◌∷◌, arith, ◌<◌,
  if◌then◌else◌,
}
use klados.Base.Result.{Result, ok, err}
use klados.Agent.{Msg, Reply}
use klados.Harness.Lab.{
  Name, Uds, Act, spawn, kill, request, World, Lab, Exec, pure, after, ◌>>=◌, attempt, always, ask,
  now, caught, recovered, finally, with_vm, each,
}
use klados.Harness.Discipline.{Desk, step, outcome, remove}

-- How a call ends, what was done before having led from `origin`: it returned, with the desk `d`, or it
-- raised; and nothing was out of order.
abbrev pub Ends : {A : Type 0} → Desk → Desk → Result A → Lab → Type 0
Ends origin d (ok a) l = outcome origin l.trace ≡ some d
Ends origin d (err e) l = (d' : Desk) × (outcome origin l.trace ≡ some d')

-- From one desk the call leads to another, unless it raises; nothing is out of order.
pub record Leads {A : Type 0} (m : Exec A) (d : Desk) (d' : Desk) : Type 0 where
  pub at :
      (origin : Desk) (l : Lab) → outcome origin l.trace ≡ some d → Ends origin d' (m l).0 (m l).1

outcome_next :
    (origin : Desk) (a : Act) (earlier : List Act) (d d' : Desk)
    → outcome origin earlier ≡ some d
    → step a d ≡ some d'
    → outcome origin (a ∷ earlier) ≡ some d'
unfolding outcome
outcome_next origin a earlier d d' e h = rw e h

pub Leads-pure : {A : Type 0} (a : A) (d : Desk) → Leads (pure a) d d
unfolding pure
Leads-pure a d = record { at = λ origin l e. e }

module _ {A B : Type 0} where
  Ends-after :
      (origin : Desk) (r : Result A) (f : A → Exec B) (l : Lab) (d d' : Desk)
      → Ends origin d r l
      → ((a : A) → Leads (f a) d d')
      → Ends origin d' (after f r l).0 (after f r l).1
  unfolding after
  Ends-after origin (ok a) f l d d' h g = (g a).at origin l h
  Ends-after origin (err e) f l d d' h g = h

  pub Leads-bind :
      (m : Exec A) (f : A → Exec B) (d₁ d₂ d₃ : Desk)
      → Leads m d₁ d₂
      → ((a : A) → Leads (f a) d₂ d₃)
      → Leads (m >>= f) d₁ d₃
  unfolding ◌>>=◌
  Leads-bind m f d₁ d₂ d₃ h g = record {
    at = λ origin l e. Ends-after origin (m l).0 f (m l).1 d₂ d₃ (h.at origin l e) g;
  }

Ends-if :
    {A : Type 0} (origin : Desk) (b : Bool) (done raised : Result A) (l : Lab) (d : Desk)
    → Ends origin d done l
    → Ends origin d raised l
    → Ends origin d (if b then done else raised) l
Ends-if origin true done raised l d h g = h
Ends-if origin false done raised l d h g = g

-- `kill` is in order at any desk.
Ends-kill :
    {A : Type 0} (origin : Desk) (r : Result A) (l : Lab) (vm : Name) (d d' : Desk)
    → Ends origin d r l
    → step (kill vm) d ≡ some d'
    → Ends origin d' r (record l { trace = kill vm ∷ l.trace })
unfolding step
Ends-kill origin (ok a) l vm d d' h e = outcome_next origin (kill vm) l.trace d d' h e
Ends-kill origin (err x) l vm d d' (dx, h) e =
    let dy = record dx { vms = remove vm dx.vms } in
    (dy, outcome_next origin (kill vm) l.trace dx dy h refl)

Ends-recovered :
    {B : Type 0} (origin : Desk) (r : Result Reply) (f : Reply → B) (otherwise : B) (l : Lab)
    (d : Desk)
    → outcome origin l.trace ≡ some d
    → Ends origin d
        (recovered otherwise (after (λ a. pure (f a)) r l).0)
        (after (λ a. pure (f a)) r l).1
unfolding recovered after pure
Ends-recovered origin (ok a) f otherwise l d e = e
Ends-recovered origin (err x) f otherwise l d e = e

module _ (w : World) where
  pub Leads-attempt : (a : Act) (d d' : Desk) → step a d ≡ some d' → Leads (attempt w a) d d'
  unfolding attempt
  Leads-attempt a d d' h = record {
    at = λ origin l e.
        let next = outcome_next origin a l.trace d d' e h in
        Ends-if origin (w.goes l.asked) (ok tt) _ _ d' next (d', next);
  }

  pub Leads-always : (a : Act) (d d' : Desk) → step a d ≡ some d' → Leads (always w a) d d'
  unfolding always
  Leads-always a d d' h = record { at = λ origin l e. outcome_next origin a l.trace d d' e h }

  pub Leads-ask :
      (u : Uds) (m : Msg) (d : Desk) → step (request u m) d ≡ some d → Leads (ask w u m) d d
  unfolding ask
  Leads-ask u m d h = record {
    at = λ origin l e.
        let next = outcome_next origin (request u m) l.trace d d e h in
        Ends-if origin (w.goes l.asked) (ok (w.replies l.asked)) _ _ d next (d, next);
  }

  pub Leads-now : (d : Desk) → Leads (now w) d d
  unfolding now
  Leads-now d = record { at = λ origin l e. e }

  pub Leads-with_vm :
      {A : Type 0} (vm : Name) (body : Exec A) (d₁ d₂ d₃ d₄ : Desk)
      → step (spawn vm none) d₁ ≡ some d₂
      → Leads body d₂ d₃
      → step (kill vm) d₃ ≡ some d₄
      → Leads (with_vm w vm body) d₁ d₄
  unfolding with_vm finally always
  Leads-with_vm vm body d₁ d₂ d₃ d₄ s h k =
      Leads-bind (attempt w (spawn vm none)) _ d₁ d₂ d₄ (Leads-attempt (spawn vm none) d₁ d₂ s)
        (λ _. record {
          at = λ origin l e. Ends-kill origin (body l).0 (body l).1 vm d₃ d₄ (h.at origin l e) k;
        })

  -- The desk of each round, up to `n`.
  pub Leads-each :
      {A : Type 0} (f : ℕ → Exec A) (desk : ℕ → Desk) (i count n : ℕ)
      → i + count ≡ n
      → ((j : ℕ) → j < n → Leads (f j) (desk j) (desk (suc j)))
      → Leads (each w i count f) (desk i) (desk n)
  unfolding each
  Leads-each f desk i zero n e h =
      let same : i ≡ n = omega arith in rw same (Leads-pure [] (desk n))
  Leads-each f desk i (suc count) n e h =
      Leads-bind (f i) _ (desk i) (desk (suc i)) (desk n) (h i (omega arith)) (λ a.
        Leads-bind (each w (suc i) count f) _ (desk (suc i)) (desk n) (desk n)
          (Leads-each f desk (suc i) count n (omega arith) h)
          (λ more. Leads-pure (a ∷ more) (desk n)))

  -- An answer, or what stands for an exception: the desk is as before in both cases.
  pub Leads-caught-ask :
      {B : Type 0} (u : Uds) (m : Msg) (f : Reply → B) (otherwise : B) (d : Desk)
      → step (request u m) d ≡ some d
      → Leads (caught w (ask w u m >>= λ r. pure (f r)) otherwise) d d
  unfolding caught ask ◌>>=◌
  Leads-caught-ask u m f otherwise d h = record {
    at = λ origin l e.
        let next = outcome_next origin (request u m) l.trace d d e h in
        Ends-recovered origin _ f otherwise (ask w u m l).1 d next;
  }
