-- ===== src/Store/Exec/Keeps.antt =====
-- Actions that keep a property of the database, whatever they answer.
use app_scan_custom_dashboar.Base.{ℕ, String, Option, none, some}
use app_scan_custom_dashboar.Errors.{Result, ok, err}
use app_scan_custom_dashboar.Store.Exec.{
  Database, World, Exec, pure, lift, gets, or_raise, write, write_new, committed, continue, ◌>>=◌,
  utc_now, uuid_hex,
}

pub record Keeps (P : Database → Type 0) {A : Type 0} (m : Exec A) : Type 0 where
  pub at : (w : World) → P w.db → P (m w).1.db

module _ {P : Database → Type 0} where
  module _ {A : Type 0} where
    pub Keeps-pure : (a : A) → Keeps P (pure a)
    unfolding pure
    Keeps-pure a = record { at = λ w h. h }

    pub Keeps-lift : (r : Result A) → Keeps P (lift r)
    unfolding lift
    Keeps-lift r = record { at = λ w h. h }

    pub Keeps-gets : (f : Database → A) → Keeps P (gets f)
    unfolding gets
    Keeps-gets f = record { at = λ w h. h }

    pub Keeps-or_raise :
        (status : ℕ) (detail : String) (o : Option A) → Keeps P (or_raise status detail o)
    unfolding or_raise
    Keeps-or_raise status detail none = record { at = λ w h. h }
    Keeps-or_raise status detail (some a) = record { at = λ w h. h }

  pub Keeps-utc_now : (clock : ℕ → String) → Keeps P (utc_now clock)
  unfolding utc_now
  Keeps-utc_now clock = record { at = λ w h. h }

  pub Keeps-uuid_hex : (uuid : ℕ → String) (digits : ℕ) → Keeps P (uuid_hex uuid digits)
  unfolding uuid_hex
  Keeps-uuid_hex uuid digits = record { at = λ w h. h }

  pub Keeps-write :
      (f : Database → Database) → ((db : Database) → P db → P (f db)) → Keeps P (write f)
  unfolding write
  Keeps-write f step = record { at = λ w. step w.db }

  module _ {A B : Type 0} where
    continue-keeps :
        (r : Result A) (f : A → Exec B) (w : World)
        → ((a : A) → Keeps P (f a))
        → P w.db
        → P (continue r f w).1.db
    continue-keeps (ok a) f w hf h = (hf a).at w h
    continue-keeps (err e) f w hf h = h

    pub Keeps-bind :
        (m : Exec A) (f : A → Exec B) → Keeps P m → ((a : A) → Keeps P (f a)) → Keeps P (m >>= f)
    unfolding ◌>>=◌
    Keeps-bind m f hm hf = record { at = λ w h. continue-keeps (m w).0 f (m w).1 hf (hm.at w h) }

-- What an INSERT must do to keep `P`.
abbrev pub KeptBy : (Database → Type 0) → Option Database → Type 0
KeptBy P none = Unit
KeptBy P (some db) = P db

pub Keeps-write_new :
    {P : Database → Type 0} (f : Database → Option Database)
    → ((db : Database) → P db → KeptBy P (f db))
    → Keeps P (write_new f)
unfolding write_new
Keeps-write_new {P} f step = record { at = λ w h. ends w (f w.db) h (step w.db h) }
  where
    ends : (w : World) (o : Option Database) → P w.db → KeptBy P o → P (committed w o).1.db
    ends w none h k = h
    ends w (some db) h k = k

pub ruleset keeps_rules =
    (Keeps-pure, Keeps-lift, Keeps-gets, Keeps-or_raise, Keeps-utc_now, Keeps-uuid_hex, Keeps-bind)
