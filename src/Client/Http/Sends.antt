-- ===== src/Client/Http/Sends.antt =====
-- What an action sends: at most `n` requests, each with a property `P`, written behind those that
-- were sent before. One rule for each way to build an action.
use app_scan_custom_dashboar.Base.{
  ℕ, ◌+◌, ◌≤◌, ◌≡◌, refl, Bool, true, false, Option, none, some, List, [], ◌∷◌, ◌++◌, arith,
  if◌then◌else◌, length, length-append, All, All-append,
}
use mathlib.Core.List.{append-nil, append_assoc}
use app_scan_custom_dashboar.Client.Http.{
  Request, Response, ClientError, Outcome, done, raised, World, Action, pure, raise, lift,
  try_except, gets, modify, sleep, continue, recover, ◌>>=◌, Transport, transmit, reply_of,
}

abbrev pub Extends : {S : Type 0} → (Request → Type 0) → ℕ → World S → World S → Type 0
Extends P n w w' = (new : List Request) × (w'.sent ≡ w.sent ++ new) × All P new × (length new ≤ n)

module _ {S : Type 0} (P : Request → Type 0) where
  pub record Sends {A : Type 0} (n : ℕ) (m : Action S A) : Type 0 where
    pub at : (w : World S) → Extends P n w (m w).1

module _ {S : Type 0} {P : Request → Type 0} where
  pub Extends-none : (w w' : World S) (n : ℕ) → w'.sent ≡ w.sent → Extends P n w w'
  Extends-none w w' n same = ([], rw same (rw append-nil), tt, omega arith)

  pub Extends-trans :
      (a b : ℕ) (u v w : World S) → Extends P a u v → Extends P b v w → Extends P (a + b) u w
  Extends-trans a b u v w (new, at, allowed, few) (more, at', allowed', few') = (
    new ++ more,
    rw (at', at) (append_assoc u.sent new more),
    All-append P new more allowed allowed',
    omega (arith, length-append new more),
  )

  pub Extends-weaken : (a b : ℕ) (u v : World S) → a ≤ b → Extends P a u v → Extends P b u v
  Extends-weaken a b u v more (new, at, allowed, few) = (new, at, allowed, omega arith)

  module _ {A : Type 0} where
    -- An action that leaves `sent` alone sends nothing.
    pub Sends-quiet : (m : Action S A) → ((w : World S) → (m w).1.sent ≡ w.sent) → Sends P 0 m
    Sends-quiet m same = record { at = λ w. Extends-none w (m w).1 0 (same w) }

    pub Sends-pure : (a : A) → Sends {S = S} P 0 (pure a)
    unfolding pure
    Sends-pure a = Sends-quiet (pure a) (λ w. refl)

    pub Sends-raise : (e : ClientError) → Sends {S = S} P 0 (raise {A = A} e)
    unfolding raise
    Sends-raise e = Sends-quiet (raise e) (λ w. refl)

    pub Sends-lift : (r : Outcome A) → Sends {S = S} P 0 (lift r)
    unfolding lift
    Sends-lift r = Sends-quiet (lift r) (λ w. refl)

    pub Sends-gets : (f : World S → A) → Sends P 0 (gets f)
    unfolding gets
    Sends-gets f = Sends-quiet (gets f) (λ w. refl)

    pub Sends-weaken : (a b : ℕ) (m : Action S A) → a ≤ b → Sends P a m → Sends P b m
    Sends-weaken a b m more h = record { at = λ w. Extends-weaken a b w (m w).1 more (h.at w) }

    pub Sends-if :
        (n : ℕ) (b : Bool) (m k : Action S A)
        → (b ≡ true → Sends P n m)
        → (b ≡ false → Sends P n k)
        → Sends P n (if b then m else k)
    Sends-if n true m k hm hk = hm refl
    Sends-if n false m k hm hk = hk refl

    recover-Extends :
        (b : ℕ) (r : Outcome A) (handler : Action S A) (w : World S)
        → Sends P b handler
        → Extends P b w (recover r handler w).1
    recover-Extends b (done x) handler w h = Extends-none w w b refl
    recover-Extends b (raised e) handler w h = h.at w

    pub Sends-try_except :
        (a b : ℕ) (m handler : Action S A)
        → Sends P a m
        → Sends P b handler
        → Sends P (a + b) (try_except m handler)
    unfolding try_except
    Sends-try_except a b m handler hm hh = record {
      at = λ w.
          Extends-trans a b w (m w).1 (recover (m w).0 handler (m w).1).1 (hm.at w)
            (recover-Extends b (m w).0 handler (m w).1 hh);
    }

  module _ {A B : Type 0} where
    continue-Extends :
        (b : ℕ) (r : Outcome A) (f : A → Action S B) (w : World S)
        → ((x : A) → Sends P b (f x))
        → Extends P b w (continue r f w).1
    continue-Extends b (done x) f w h = (h x).at w
    continue-Extends b (raised e) f w h = Extends-none w w b refl

    pub Sends-bind :
        (a b : ℕ) (m : Action S A) (f : A → Action S B)
        → Sends P a m
        → ((x : A) → Sends P b (f x))
        → Sends P (a + b) (m >>= f)
    unfolding ◌>>=◌
    Sends-bind a b m f hm hf = record {
      at = λ w.
          Extends-trans a b w (m w).1 (continue (m w).0 f (m w).1).1 (hm.at w)
            (continue-Extends b (m w).0 f (m w).1 hf);
    }

reply_of-sent : {S : Type 0} (o : Option Response) (w : World S) → (reply_of o w).1.sent ≡ w.sent
unfolding reply_of pure raise
reply_of-sent none w = refl
reply_of-sent (some r) w = refl

module _ {S : Type 0} {P : Request → Type 0} where
  -- A request is one request.
  pub Sends-transmit :
      (send : Transport S) (request : Request) → P request → Sends P 1 (transmit send request)
  unfolding transmit
  Sends-transmit send request h = record {
    at = λ w. (request ∷ [], reply_of-sent (send request w.service).0 _, (h, tt), omega arith);
  }

  pub Sends-modify :
      (f : World S → World S) → ((w : World S) → (f w).sent ≡ w.sent) → Sends P 0 (modify f)
  unfolding modify
  Sends-modify f same = Sends-quiet (modify f) same

  pub Sends-sleep : (ms : ℕ) → Sends {S = S} P 0 (sleep ms)
  unfolding sleep
  Sends-sleep ms = Sends-quiet (sleep ms) (λ w. refl)

  module _ {A B : Type 0} where
    -- The rest of the block may use that the lifted call did not raise.
    pub Sends-bind_lift :
        (b : ℕ) (r : Outcome A) (f : A → Action S B)
        → ((x : A) → r ≡ done x → Sends P b (f x))
        → Sends P b (lift r >>= f)
    unfolding ◌>>=◌
    Sends-bind_lift b (done x) f h = record { at = λ w. (h x refl).at w }
    Sends-bind_lift b (raised e) f h = record { at = λ w. Extends-none w w b refl }

    -- An action that sends nothing costs nothing.
    pub Sends-bind_quiet :
        (b : ℕ) (m : Action S A) (f : A → Action S B)
        → Sends P 0 m
        → ((x : A) → Sends P b (f x))
        → Sends P b (m >>= f)
    Sends-bind_quiet b m f hm hf =
        Sends-weaken (0 + b) b (m >>= f) (omega arith) (Sends-bind 0 b m f hm hf)
