-- ===== src/StateMachine/Moves.antt =====
-- The abstract view of the database: the state of every unit, and the moves between such views that
-- the transition tables allow. What a transaction or a coroutine does is measured by it.
use mathlib.Core.Path.{subst}
use sf_f.Base.{String, ◌≡◌, refl, sym, ap, ◌∙◌, true, ◌&&◌, Option, some, ◌==◌, string_eq, inl, inr}
use sf_f.Base.Raises.{result-cases, Result, ok, err}
use sf_f.Models.Level.{Level, level_eq}
use sf_f.Models.UnitState
use sf_f.Models.UnitState.{UnitState, allowed, parse-value_of}
use sf_f.Models.Json.{Payload}
use sf_f.Models.Records.{Time}
use sf_f.Store.Db.{Db}
use sf_f.Store.Tx.{Tx}
use sf_f.Store.Act.{Act, ◌>>=◌, proceed, transact}
use sf_f.Store.Database.{Database, transaction}
use sf_f.Store.Database.Atomic.{transaction-ok, transaction-err}
use sf_f.Store.Units.{unit_state}
use sf_f.Store.Units.Laws.{overwrite}
use sf_f.StateMachine.{transition, transition_event, coupled_writes}
use sf_f.StateMachine.History.{IsTraced, unit_state-logged, step-IsTraced}
use sf_f.StateMachine.Atomic.{transition-Moved, transition_rolls_back, Moved}
use sf_f.Store.Events.Laws.{logged}

abbrev pub View : Type 0
View = Level → String → Option UnitState

abbrev pub view : Db → View
view d l i = unit_state l i d

-- One unit moves to a state that the table of its level allows; every other unit stays.
pub record Move (v w : View) : Type 0 where
  pub level : Level
  pub unit_id : String
  pub from : UnitState
  pub to : UnitState
  pub found : v level unit_id ≡ some from
  pub legal : allowed from to ≡ true
  pub after : (l : Level) (i : String) → w l i ≡ overwrite (level == l && unit_id == i) to (v l i)

-- A specification of the whole program: any number of legal moves.
pub data Run (v : View) : View → Type 0 where
  still : Run v v
  snoc : {w x : View} → Run v w → Move w x → Run v x

pub Run-trans : {v w x : View} → Run v w → Run w x → Run v x
Run-trans r still = r
Run-trans r (snoc s m) = snoc (Run-trans r s) m

-- Tables after which every unit is where it was, and still at the end of its history.
pub record Still (d d' : Db) : Type 0 where
  pub same : view d ≡ view d'
  pub traced : IsTraced d → IsTraced d'

pub Still-refl : (d : Db) → Still d d
Still-refl d = record { same = refl; traced = λ t. t }

pub Still-trans : {a b c : Db} → Still a b → Still b c → Still a c
Still-trans p q = record { same = p.same ∙ q.same; traced = λ t. q.traced (p.traced t) }

-- What any operation may do to the units: legal moves, each of them in the log.
pub record Effect (db db' : Database) : Type 0 where
  pub run : Run (view db.tables) (view db'.tables)
  pub traced : IsTraced db.tables → IsTraced db'.tables

pub Effect-refl : (db : Database) → Effect db db
Effect-refl db = record { run = still; traced = λ t. t }

pub Effect-trans : {a b c : Database} → Effect a b → Effect b c → Effect a c
Effect-trans p q = record { run = Run-trans p.run q.run; traced = λ t. q.traced (p.traced t) }

pub Still-Effect : {db db' : Database} → Still db.tables db'.tables → Effect db db'
Still-Effect {db} s = record { run = subst (Run (view db.tables)) s.same still; traced = s.traced }

-- Writes after which every unit is where it was.
abbrev pub IsQuiet : {A : Type 0} → Tx A → Type 0
IsQuiet {A} m = (d : Db) (r : A × Db) → m d ≡ ok r → Still d r.1

-- A coroutine all of whose effects are legal moves.
abbrev pub IsLawful : {A : Type 0} → Act A → Type 0
IsLawful m = (db : Database) → Effect db (m db).1

pub proceed-Effect :
    {A B : Type 0} (db : Database) (r : Result A × Database) (f : A → Act B)
    → Effect db r.1
    → ((a : A) → r.0 ≡ ok a → Effect r.1 (f a r.1).1)
    → Effect db (proceed r f).1
proceed-Effect db (ok a, db') f e g = Effect-trans e (g a refl)
proceed-Effect db (err x, db') f e g = e

pub transact-Still :
    {A : Type 0} (m : Tx A) (db : Database)
    → IsQuiet m
    → Still db.tables (transaction m db).1.tables
transact-Still m db quiet = elim (result-cases (transaction m db).0) [
  | inl (a, returned) ↦
      let (d', ran, left) = transaction-ok m db returned in
      subst (λ (x : Database). Still db.tables x.tables) (sym left) (quiet db.tables (a, d') ran)
  | inr (e, raised) ↦
      subst (λ (x : Database). Still db.tables x.tables) (sym (transaction-err m db raised))
        (Still-refl db.tables)
]

Moved-Effect :
    {now : Time} {level : Level} {unit_id : String} {target : UnitState} {actor reason : String}
    {payload : Option Payload} {coupled : Option (Tx (Unit {0}))} (db : Database) {d' : Db}
    → {seq : _} → UnitState.parse level (UnitState.value target) ≡ some target
    → Moved now level unit_id target actor reason payload coupled db.tables seq d'
    → IsQuiet (coupled_writes coupled)
    → Effect db (record db { tables = d' })
Moved-Effect {now} {level} {unit_id} {target} {actor} {reason} {payload} db {d' = d'} known m
      quiet =
    let event = transition_event level unit_id m.from target actor reason payload in
    let s = quiet (logged now event m.after) (tt, d') m.rest in
    record {
      run = snoc still (record {
        level = level;
        unit_id = unit_id;
        from = m.from;
        to = target;
        found = m.found;
        legal = m.legal;
        after = λ l i.
            sym (ap (λ (v : View). v l i) s.same)
            ∙ sym (unit_state-logged now event m.after l i)
            ∙ m.written.states l i;
      });
      traced = λ t. s.traced (
          step-IsTraced now level unit_id m.from target actor reason payload db.tables m.after t
            m.found m.legal known m.written);
    }

pub transition-Effect :
    (now : Time) (level unit_id to_state actor reason : String) (payload : Option Payload)
    (coupled : Option (Tx (Unit {0}))) (db : Database)
    → IsQuiet (coupled_writes coupled)
    → Effect db (transition now level unit_id to_state actor reason payload coupled db).1
transition-Effect now level unit_id to_state actor reason payload coupled db quiet =
    elim (result-cases (transition now level unit_id to_state actor reason payload coupled db).0) [
      | inl (seq, returned) ↦
          let (lv, target, d', parsed_level, parsed, m, left) =
            transition-Moved now level unit_id to_state actor reason payload coupled db returned in
          subst (Effect db) (sym left)
            (Moved-Effect db (parse-value_of lv to_state target parsed) m quiet)
      | inr (e, raised) ↦
          subst (Effect db)
            (sym (
              transition_rolls_back now level unit_id to_state actor reason payload coupled db
                raised))
            (Effect-refl db)
    ]

pub bind-IsLawful :
    {A B : Type 0} (m : Act A) (f : A → Act B)
    → IsLawful m
    → ((a : A) → IsLawful (f a))
    → IsLawful (m >>= f)
bind-IsLawful m f p k db = proceed-Effect db (m db) f (p db) (λ a _. k a (m db).1)

pub transact-IsLawful : {A : Type 0} (m : Tx A) → IsQuiet m → IsLawful (transact m)
transact-IsLawful m quiet db = Still-Effect (transact-Still m db quiet)
