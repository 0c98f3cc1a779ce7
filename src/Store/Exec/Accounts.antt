-- ===== src/Store/Exec/Accounts.antt =====
-- How an action treats the audit log of backend/app/repositories/postgres_store.py, by how it ends,
-- and one rule for each way to build an action.
use app_scan_custom_dashboar.Base.{
  ℕ, String, ◌≡◌, refl, ◌∙◌, ap, Option, none, some, List, [], ◌∷◌, ◌++◌,
}
use app_scan_custom_dashboar.Errors.{Result, ok, err, http_exception, integrity_error, other_error}
use app_scan_custom_dashboar.Store.Exec.{
  AuditEvent, Database, World, Exec, pure, lift, gets, or_raise, write, write_new, committed,
  continue, ◌>>=◌, utc_now, uuid_hex,
}

-- The action leaves the database alone.
pub record Quiet {A : Type 0} (m : Exec A) : Type 0 where
  pub at : (w : World) → (m w).1.db ≡ w.db

-- It writes no audit event, and where it answers with an HTTP error it has written nothing at all.
abbrev pub CarefulEnd : {A : Type 0} → Database → Result A × World → Type 0
CarefulEnd db (ok a, w) = w.db.audit_events ≡ db.audit_events
CarefulEnd db (err (http_exception status detail), w) = w.db ≡ db
CarefulEnd db (err integrity_error, w) = w.db.audit_events ≡ db.audit_events
CarefulEnd db (err (other_error message), w) = w.db.audit_events ≡ db.audit_events

pub record Careful {A : Type 0} (m : Exec A) : Type 0 where
  pub at : (w : World) → CarefulEnd w.db (m w)

-- It writes no audit event and answers with no HTTP error.
abbrev pub SilentEnd : {A : Type 0} → Database → Result A × World → Type 0
SilentEnd db (ok a, w) = w.db.audit_events ≡ db.audit_events
SilentEnd db (err (http_exception status detail), w) = ⊥
SilentEnd db (err integrity_error, w) = w.db.audit_events ≡ db.audit_events
SilentEnd db (err (other_error message), w) = w.db.audit_events ≡ db.audit_events

pub record Silent {A : Type 0} (m : Exec A) : Type 0 where
  pub at : (w : World) → SilentEnd w.db (m w)

abbrev pub OneEvent : String → List AuditEvent → List AuditEvent → Type 0
OneEvent actor old new = (e : AuditEvent) × (new ≡ old ++ (e ∷ [])) × (e.actor ≡ actor)

-- A call that returns has written one audit event of the actor behind the old ones; one that answers
-- with an HTTP error has left the database alone; an INSERT that finds its key taken, no event.
abbrev pub AccountedEnd : {A : Type 0} → String → Database → Result A × World → Type 0
AccountedEnd actor db (ok a, w) = OneEvent actor db.audit_events w.db.audit_events
AccountedEnd actor db (err (http_exception status detail), w) = w.db ≡ db
AccountedEnd actor db (err integrity_error, w) = w.db.audit_events ≡ db.audit_events
AccountedEnd actor db (err (other_error message), w) = w.db.audit_events ≡ db.audit_events

pub record Accounted (actor : String) {A : Type 0} (m : Exec A) : Type 0 where
  pub at : (w : World) → AccountedEnd actor w.db (m w)

-- The same, and no HTTP error.
abbrev pub AuditedEnd : {A : Type 0} → String → Database → Result A × World → Type 0
AuditedEnd actor db (ok a, w) = OneEvent actor db.audit_events w.db.audit_events
AuditedEnd actor db (err (http_exception status detail), w) = ⊥
AuditedEnd actor db (err integrity_error, w) = w.db.audit_events ≡ db.audit_events
AuditedEnd actor db (err (other_error message), w) = w.db.audit_events ≡ db.audit_events

pub record Audited (actor : String) {A : Type 0} (m : Exec A) : Type 0 where
  pub at : (w : World) → AuditedEnd actor w.db (m w)

module _ {A : Type 0} where
  pub Quiet-pure : (a : A) → Quiet (pure a)
  unfolding pure
  Quiet-pure a = record { at = λ w. refl }

  pub Quiet-lift : (r : Result A) → Quiet (lift r)
  unfolding lift
  Quiet-lift r = record { at = λ w. refl }

  pub Quiet-gets : (f : Database → A) → Quiet (gets f)
  unfolding gets
  Quiet-gets f = record { at = λ w. refl }

  pub Quiet-or_raise :
      (status : ℕ) (detail : String) (o : Option A) → Quiet (or_raise status detail o)
  unfolding or_raise
  Quiet-or_raise status detail none = record { at = λ w. refl }
  Quiet-or_raise status detail (some a) = record { at = λ w. refl }

pub Quiet-utc_now : (clock : ℕ → String) → Quiet (utc_now clock)
unfolding utc_now
Quiet-utc_now clock = record { at = λ w. refl }

pub Quiet-uuid_hex : (uuid : ℕ → String) (digits : ℕ) → Quiet (uuid_hex uuid digits)
unfolding uuid_hex
Quiet-uuid_hex uuid digits = record { at = λ w. refl }

module _ {A B : Type 0} where
  continue-Quiet :
      (r : Result A) (f : A → Exec B) (w : World) (db : Database)
      → w.db ≡ db
      → ((a : A) → Quiet (f a))
      → (continue r f w).1.db ≡ db
  continue-Quiet (ok a) f w db same hf = (hf a).at w ∙ same
  continue-Quiet (err e) f w db same hf = same

  pub Quiet-bind :
      (m : Exec A) (f : A → Exec B) → Quiet m → ((a : A) → Quiet (f a)) → Quiet (m >>= f)
  unfolding ◌>>=◌
  Quiet-bind m f hm hf = record { at = λ w. continue-Quiet (m w).0 f (m w).1 w.db (hm.at w) hf }

abbrev same_audit : {db db' : Database} → db ≡ db' → db.audit_events ≡ db'.audit_events
same_audit e = ap (λ (d : Database). d.audit_events) e

module _ {A : Type 0} where
  careful_of_quiet : (db : Database) (r : Result A) (w : World) → w.db ≡ db → CarefulEnd db (r, w)
  careful_of_quiet db (ok a) w same = same_audit same
  careful_of_quiet db (err (http_exception status detail)) w same = same
  careful_of_quiet db (err integrity_error) w same = same_audit same
  careful_of_quiet db (err (other_error message)) w same = same_audit same

  careful_of_silent : (db : Database) (x : Result A × World) → SilentEnd db x → CarefulEnd db x
  careful_of_silent db (ok a, w) h = h
  careful_of_silent db (err (http_exception status detail), w) h = absurd h
  careful_of_silent db (err integrity_error, w) h = h
  careful_of_silent db (err (other_error message), w) h = h

  accounted_of_audited :
      (actor : String) (db db' : Database) (x : Result A × World)
      → db'.audit_events ≡ db.audit_events
      → AuditedEnd actor db' x
      → AccountedEnd actor db x
  accounted_of_audited actor db db' (ok a, w) same (e, at, by) =
      (e, at ∙ ap (λ l. l ++ (e ∷ [])) same, by)
  accounted_of_audited actor db db' (err (http_exception status detail), w) same h = absurd h
  accounted_of_audited actor db db' (err integrity_error, w) same h = h ∙ same
  accounted_of_audited actor db db' (err (other_error message), w) same h = h ∙ same

  audited_from :
      (actor : String) (db db' : Database) (x : Result A × World)
      → db'.audit_events ≡ db.audit_events
      → AuditedEnd actor db' x
      → AuditedEnd actor db x
  audited_from actor db db' (ok a, w) same (e, at, by) = (e, at ∙ ap (λ l. l ++ (e ∷ [])) same, by)
  audited_from actor db db' (err (http_exception status detail), w) same h = absurd h
  audited_from actor db db' (err integrity_error, w) same h = h ∙ same
  audited_from actor db db' (err (other_error message), w) same h = h ∙ same

  silent_from :
      (db db' : Database) (x : Result A × World)
      → db'.audit_events ≡ db.audit_events
      → SilentEnd db' x
      → SilentEnd db x
  silent_from db db' (ok a, w) same h = h ∙ same
  silent_from db db' (err (http_exception status detail), w) same h = absurd h
  silent_from db db' (err integrity_error, w) same h = h ∙ same
  silent_from db db' (err (other_error message), w) same h = h ∙ same

  pub Careful-of_Quiet : (m : Exec A) → Quiet m → Careful m
  Careful-of_Quiet m h = record { at = λ w. careful_of_quiet w.db (m w).0 (m w).1 (h.at w) }

  pub Careful-of_Silent : (m : Exec A) → Silent m → Careful m
  Careful-of_Silent m h = record { at = λ w. careful_of_silent w.db (m w) (h.at w) }

module _ {A B : Type 0} where
  continue-Accounted :
      (actor : String) (r : Result A) (f : A → Exec B) (db : Database) (w : World)
      → w.db ≡ db
      → ((a : A) → Accounted actor (f a))
      → AccountedEnd actor db (continue r f w)
  continue-Accounted actor (ok a) f db w same h = rw (← same) ((h a).at w)
  continue-Accounted actor (err (http_exception status detail)) f db w same h = same
  continue-Accounted actor (err integrity_error) f db w same h =
      ap (λ (d : Database). d.audit_events) same
  continue-Accounted actor (err (other_error message)) f db w same h =
      ap (λ (d : Database). d.audit_events) same

  pub Accounted-bind-Quiet :
      (actor : String) (m : Exec A) (f : A → Exec B)
      → Quiet m
      → ((a : A) → Accounted actor (f a))
      → Accounted actor (m >>= f)
  unfolding ◌>>=◌
  Accounted-bind-Quiet actor m f hm hf = record {
    at = λ w. continue-Accounted actor (m w).0 f w.db (m w).1 (hm.at w) hf;
  }

  continue-Accounted_careful :
      (actor : String) (db : Database) (r : Result A) (w : World) (f : A → Exec B)
      → CarefulEnd db (r, w)
      → ((a : A) → Audited actor (f a))
      → AccountedEnd actor db (continue r f w)
  continue-Accounted_careful actor db (ok a) w f same h =
      accounted_of_audited actor db w.db (f a w) same ((h a).at w)
  continue-Accounted_careful actor db (err (http_exception status detail)) w f same h = same
  continue-Accounted_careful actor db (err integrity_error) w f same h = same
  continue-Accounted_careful actor db (err (other_error message)) w f same h = same

  pub Accounted-bind :
      (actor : String) (m : Exec A) (f : A → Exec B)
      → Careful m
      → ((a : A) → Audited actor (f a))
      → Accounted actor (m >>= f)
  unfolding ◌>>=◌
  Accounted-bind actor m f hm hf = record {
    at = λ w. continue-Accounted_careful actor w.db (m w).0 (m w).1 f (hm.at w) hf;
  }

  continue-Audited :
      (actor : String) (db : Database) (r : Result A) (w : World) (f : A → Exec B)
      → SilentEnd db (r, w)
      → ((a : A) → Audited actor (f a))
      → AuditedEnd actor db (continue r f w)
  continue-Audited actor db (ok a) w f same h = audited_from actor db w.db (f a w) same ((h a).at w)
  continue-Audited actor db (err (http_exception status detail)) w f same h = same
  continue-Audited actor db (err integrity_error) w f same h = same
  continue-Audited actor db (err (other_error message)) w f same h = same

  pub Audited-bind :
      (actor : String) (m : Exec A) (f : A → Exec B)
      → Silent m
      → ((a : A) → Audited actor (f a))
      → Audited actor (m >>= f)
  unfolding ◌>>=◌
  Audited-bind actor m f hm hf = record {
    at = λ w. continue-Audited actor w.db (m w).0 (m w).1 f (hm.at w) hf;
  }

  continue-Silent :
      (db : Database) (r : Result A) (w : World) (f : A → Exec B)
      → SilentEnd db (r, w)
      → ((a : A) → Silent (f a))
      → SilentEnd db (continue r f w)
  continue-Silent db (ok a) w f same h = silent_from db w.db (f a w) same ((h a).at w)
  continue-Silent db (err (http_exception status detail)) w f same h = same
  continue-Silent db (err integrity_error) w f same h = same
  continue-Silent db (err (other_error message)) w f same h = same

  pub Silent-bind :
      (m : Exec A) (f : A → Exec B) → Silent m → ((a : A) → Silent (f a)) → Silent (m >>= f)
  unfolding ◌>>=◌
  Silent-bind m f hm hf = record { at = λ w. continue-Silent w.db (m w).0 (m w).1 f (hm.at w) hf }

  pub Audited-pure_after :
      (actor : String) (m : Exec A) (b : B) → Audited actor m → Audited actor (m >>= λ _. pure b)
  unfolding ◌>>=◌
  Audited-pure_after actor m b hm = record { at = λ w. last w.db (m w).0 (m w).1 (hm.at w) }
    where
      last :
          (db : Database) (r : Result A) (w : World)
          → AuditedEnd actor db (r, w)
          → AuditedEnd actor db (continue r (λ _. pure b) w)
      last db (ok a) w h = h
      last db (err (http_exception status detail)) w h = h
      last db (err integrity_error) w h = h
      last db (err (other_error message)) w h = h

-- The actions that neither raise nor write an audit event.
module _ {A : Type 0} where
  pub Silent-pure : (a : A) → Silent (pure a)
  unfolding pure
  Silent-pure a = record { at = λ w. refl }

  pub Silent-gets : (f : Database → A) → Silent (gets f)
  unfolding gets
  Silent-gets f = record { at = λ w. refl }

pub Silent-utc_now : (clock : ℕ → String) → Silent (utc_now clock)
unfolding utc_now
Silent-utc_now clock = record { at = λ w. refl }

pub Silent-uuid_hex : (uuid : ℕ → String) (digits : ℕ) → Silent (uuid_hex uuid digits)
unfolding uuid_hex
Silent-uuid_hex uuid digits = record { at = λ w. refl }

pub Silent-write :
    (f : Database → Database)
    → ((db : Database) → (f db).audit_events ≡ db.audit_events)
    → Silent (write f)
unfolding write
Silent-write f same = record { at = λ w. same w.db }

-- What an INSERT does to the audit log, by whether the key was free.
abbrev pub SameAudit : Database → Option Database → Type 0
SameAudit db none = Unit
SameAudit db (some db') = db'.audit_events ≡ db.audit_events

pub Silent-write_new :
    (f : Database → Option Database)
    → ((db : Database) → SameAudit db (f db))
    → Silent (write_new f)
unfolding write_new
Silent-write_new f same = record { at = λ w. ends w (f w.db) (same w.db) }
  where
    ends : (w : World) (o : Option Database) → SameAudit w.db o → SilentEnd w.db (committed w o)
    ends w none h = refl
    ends w (some db) h = h

continue_assoc :
    {A B C : Type 0} (r : Result A) (f : A → Exec B) (g : B → Exec C) (w : World)
    → continue (continue r f w).0 g (continue r f w).1 ≡ continue r (λ a. f a >>= g) w
unfolding ◌>>=◌
continue_assoc (ok a) f g w = refl
continue_assoc (err e) f g w = refl

-- Binding is associative.
pub bind_assoc :
    {A B C : Type 0} (m : Exec A) (f : A → Exec B) (g : B → Exec C) (w : World)
    → ((m >>= f) >>= g) w ≡ (m >>= λ a. f a >>= g) w
unfolding ◌>>=◌
bind_assoc m f g w = continue_assoc (m w).0 f g (m w).1

-- Two steps that are careful together, and a rest that is audited.
pub Accounted-bind_two :
    {A B C : Type 0} (actor : String) (m : Exec A) (f : A → Exec B) (g : B → Exec C)
    → Careful (m >>= f)
    → ((b : B) → Audited actor (g b))
    → Accounted actor (m >>= λ a. f a >>= g)
Accounted-bind_two actor m f g careful audited = record {
  at = λ w. rw (← bind_assoc m f g w) ((Accounted-bind actor (m >>= f) g careful audited).at w);
}
