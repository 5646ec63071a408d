-- ===== src/StateMachine/Invariant.antt =====
-- `transition` keeps the log and the rows in step.
use mathlib.Core.Path.{subst}
use sf_f.Models.UnitState.{parse-value_of}
use sf_f.Base.{sym, inl, inr, inr, inl, Option, String, ◌≡◌}
use sf_f.Base.Raises.{result-cases, ok}
use sf_f.Models.Json.{Payload}
use sf_f.Models.Records.{Time}
use sf_f.Store.Db.{Db}
use sf_f.Store.Tx.{Tx}
use sf_f.Store.Database.{Database}
use sf_f.StateMachine.{transition, coupled_writes}
use sf_f.StateMachine.History.{IsTraced, step-IsTraced}
use sf_f.StateMachine.Atomic.{transition-Moved, transition_rolls_back}

-- Writes that leave every unit in step with its history.
abbrev pub KeepsTraced : Tx (Unit {0}) → Type 0
KeepsTraced m = (d d' : Db) → IsTraced d → m d ≡ ok (tt, d') → IsTraced d'

-- Whatever `transition` is called with, and whether it returns or raises: if every unit's row was the
-- end of its history in the event log, it is so afterwards, for coupled writes that keep it.
pub transition-IsTraced :
    (now : Time) (level unit_id to_state actor reason : String) (payload : Option Payload)
    (coupled : Option (Tx (Unit {0}))) (db : Database)
    → KeepsTraced (coupled_writes coupled)
    → IsTraced db.tables
    → IsTraced (transition now level unit_id to_state actor reason payload coupled db).1.tables
transition-IsTraced now level unit_id to_state actor reason payload coupled db keeps t =
    elim (result-cases (transition now level unit_id to_state actor reason payload coupled db).0) [
      | inl (seq, returned) ↦
          let (lv, target, d', parsed_level, parsed, m, left) =
            transition-Moved now level unit_id to_state actor reason payload coupled db returned in
          subst (λ (x : Database). IsTraced x.tables) (sym left)
            (keeps _ d'
              (step-IsTraced now lv unit_id m.from target actor reason payload db.tables m.after t
                m.found m.legal (parse-value_of lv to_state target parsed) m.written)
              m.rest)
      | inr (e, raised) ↦
          subst (λ (x : Database). IsTraced x.tables)
            (sym (
              transition_rolls_back now level unit_id to_state actor reason payload coupled db
                raised))
            t
    ]
