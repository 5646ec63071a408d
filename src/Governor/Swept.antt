-- ===== src/Governor/Swept.antt =====
-- What the sweep of the capacity governor of src/sf_factory/scheduler.py does to the escalations.
use mathlib.Core.Path.{subst}
use mathlib.Core.List.{reverse, reverse-append}
use sf_f.Base.{
  ℕ, suc, String, ◌≡◌, refl, sym, ap, ◌∙◌, Bool, false, ◌&&◌, Option, none, some, List, [], ◌∷◌,
  ◌==◌, ==_iff, string_eq, nat_eq, option_eq, find, if◌then◌else◌, arith, Bool-cases, inl, inr,
}
use sf_f.Base.Raises.{ok, ok-injective}
use sf_f.Models.Records.{Time, Event, Escalation}
use sf_f.Store.Table
use sf_f.Store.Table.{Table}
use sf_f.Store.Table.Keys.{IsKeyed, Below, modify, get-insert, get-update, insert-IsKeyed}
use sf_f.Store.Db.{Db}
use sf_f.Store.Tx.{bind-eq-ok}
use sf_f.Store.Events.{event_of, insert_event}
use sf_f.Store.Events.Laws.{logged, insert_event-ok, values-insert}
use sf_f.Store.Escalations.{is_open, close, resolve_escalation}
use sf_f.Store.Escalations.Laws.{resolved}
use sf_f.Governor.{
  is_evident, is_limit_mark, is_fall, last_fall, token_for, token_by, resolution_for,
  resolved_event, resume, consider, sweep,
}

past :
    {R : Type 0} (high : ℕ) (rows : List (ℕ × R))
    → Below high rows
    → Table.get_row (suc high) rows ≡ none
past high [] b = refl
past high ((j, r) ∷ rows) b = ground (arith, past high rows)

-- An event that is neither a limit failure nor a fall.
record IsNeutral (f : ℕ → Event) : Type 0 where
  pub unmarked : (n : ℕ) → is_limit_mark (f n) ≡ false
  pub no_fall : (unit_id : String) (n : ℕ) → is_fall unit_id (f n) ≡ false

evident-insert :
    (f : ℕ → Event) (log : Table Event) (i : ℕ)
    → IsKeyed log
    → IsNeutral f
    → is_evident (Table.get i (Table.insert f log)) ≡ is_evident (Table.get i log)
unfolding Table.get
evident-insert f log i k neutral = elim (Bool-cases (suc log.last_id == i)) [
  | inl same ↦
      let at : suc log.last_id ≡ i = (==_iff (suc log.last_id) i).0 same in
      ap is_evident (get-insert f log i k)
      ∙ rw same (neutral.unmarked i)
      ∙ sym (
          ap is_evident
            (subst (λ n. Table.get_row n log.rows ≡ none) at (past log.last_id log.rows k.below)))
  | inr other ↦ ap is_evident (get-insert f log i k) ∙ rw other refl
]

last_fall-insert :
    (f : ℕ → Event) (log : Table Event) (unit_id : String)
    → IsNeutral f
    → last_fall unit_id (Table.insert f log) ≡ last_fall unit_id log
last_fall-insert f log unit_id neutral =
    ap (λ es. find (is_fall unit_id) (reverse es)) (values-insert f log)
    ∙ ap (find (is_fall unit_id)) (reverse-append (Table.values log) (f (Table.next_id log) ∷ []))
    ∙ skip (f (Table.next_id log)) (reverse (Table.values log)) (neutral.no_fall unit_id _)
  where
    skip :
        (e : Event) (es : List Event)
        → is_fall unit_id e ≡ false
        → find (is_fall unit_id) (e ∷ es) ≡ find (is_fall unit_id) es
    skip e es h = rw h refl

token_by-insert :
    (f : ℕ → Event) (log : Table Event) (seq : Option ℕ) (unit_id : String)
    → IsKeyed log
    → IsNeutral f
    → token_by seq unit_id (Table.insert f log) ≡ token_by seq unit_id log
token_by-insert f log none unit_id k neutral = refl
token_by-insert f log (some seq) unit_id k neutral =
    ap (λ b. if b then token_for (last_fall unit_id (Table.insert f log)) else none)
      (evident-insert f log seq k neutral)
    ∙ ap (λ fall. if is_evident (Table.get seq log) then token_for fall else none)
        (last_fall-insert f log unit_id neutral)

resolved_event-IsNeutral :
    (now : Time) (id : ℕ) (e : Escalation) (token : String)
    → IsNeutral (event_of now (resolved_event id e token))
resolved_event-IsNeutral now id e token = record {
  unmarked = λ n. refl;
  no_fall = λ unit_id n. neither (some e.unit_id == some unit_id);
}
  where
    neither : (b : Bool) → (b && false) ≡ false
    neither b = ground arith

-- What the sweep does to the row under key `k`, one selected row and then all of them.
abbrev pub settle : Time → ℕ → Option String → ℕ → Option Escalation → Option Escalation
settle now id none k row = row
settle now id (some token) k row = if id == k then modify is_open (close now token) row else row

abbrev pub settled : Time → Db → List (ℕ × Escalation) → ℕ → Option Escalation → Option Escalation
settled now d [] k row = row
settled now d ((id, e) ∷ rows) k row =
    settled now d rows k (settle now id (resolution_for e d) k row)

pub record Step (d d' : Db) (change : ℕ → Option Escalation → Option Escalation) : Type 0 where
  pub keyed : IsKeyed d'.events
  pub tokens :
      (seq : Option ℕ) (unit_id : String)
      → token_by seq unit_id d'.events ≡ token_by seq unit_id d.events
  pub rows : (k : ℕ) → Table.get k d'.escalations ≡ change k (Table.get k d.escalations)

pub resume-Step :
    (now : Time) (id : ℕ) (e : Escalation) (token : Option String) (d d' : Db) (ids : List ℕ)
    → IsKeyed d.events
    → resume now id e token d ≡ ok (ids, d')
    → Step d d' (settle now id token)
resume-Step now id e none d d' ids k h =
    subst (λ (x : Db). Step d x (settle now id none))
      (ap (λ (x : List ℕ × Db). x.1) (ok-injective h))
      (record { keyed = k; tokens = λ seq u. refl; rows = λ i. refl })
resume-Step now id e (some token) d d' ids k h =
    let (u, d1, closed, h1) = bind-eq-ok (resolve_escalation now id token d) _ h in
    let (seq, d2, entered, h2) =
      bind-eq-ok (insert_event now (resolved_event id e token) d1) _ h1 in
    let left = resolved now id token d closed in
    let changed : Step d (logged now (resolved_event id e token) (closed_in d))
        (settle now id (some token)) =
      record {
        keyed = insert-IsKeyed (event_of now (resolved_event id e token)) d.events k;
        tokens = λ seq unit_id.
            token_by-insert (event_of now (resolved_event id e token)) d.events seq unit_id k
              (resolved_event-IsNeutral now id e token);
        rows = λ i. get-update id i is_open (close now token) d.escalations;
      } in
    subst (λ (x : Db). Step d x (settle now id (some token)))
      (ap (logged now (resolved_event id e token)) (sym left.1)
        ∙ (insert_event-ok now (resolved_event id e token) d1 entered).1
        ∙ ap (λ (x : List ℕ × Db). x.1) (ok-injective h2))
      changed
  where
    closed_in : Db → Db
    closed_in d = record d { escalations = Table.update id is_open (close now token) d.escalations }

Step-trans :
    {d d1 d2 : Db} {f g : ℕ → Option Escalation → Option Escalation}
    → Step d d1 f
    → Step d1 d2 g
    → Step d d2 (λ k row. g k (f k row))
Step-trans {g = g} p q = record {
  keyed = q.keyed;
  tokens = λ seq u. q.tokens seq u ∙ p.tokens seq u;
  rows = λ k. q.rows k ∙ ap (g k) (p.rows k);
}

-- The tokens are read while the rows change; they are those of the tables `d0` before the sweep.
pub sweep-Step :
    (now : Time) (rows : List (ℕ × Escalation)) (d0 d d' : Db) (ids : List ℕ)
    → IsKeyed d.events
    → ((seq : Option ℕ) (u : String) → token_by seq u d.events ≡ token_by seq u d0.events)
    → sweep now rows d ≡ ok (ids, d')
    → Step d d' (settled now d0 rows)
unfolding sweep resolution_for
sweep-Step now [] d0 d d' ids k same h =
    subst (λ (x : Db). Step d x (settled now d0 []))
      (ap (λ (x : List ℕ × Db). x.1) (ok-injective h))
      (record { keyed = k; tokens = λ seq u. refl; rows = λ i. refl })
sweep-Step now ((id, e) ∷ rows) d0 d d' ids k same h =
    let (done, d1, first, h1) = bind-eq-ok (consider now (id, e) d) _ h in
    let (rest, d2, others, h2) = bind-eq-ok (sweep now rows d1) _ h1 in
    let step = resume-Step now id e (resolution_for e d) d d1 done k first in
    let next =
      sweep-Step now rows d0 d1 d2 rest step.keyed (λ seq u. step.tokens seq u ∙ same seq u)
        others in
    subst (λ (x : Db). Step d x (settled now d0 ((id, e) ∷ rows)))
      (ap (λ (x : List ℕ × Db). x.1) (ok-injective h2))
      (Step-trans
        (subst (λ token. Step d d1 (settle now id token)) (same e.event_seq e.unit_id) step) next)
