-- ===== src/Store/Counters/Laws.antt =====
-- The counters of src/sf_factory/db.py.
use mathlib.Core.Option.{map as map_option}
use sf_f.Base.{
  ==_refl, ℕ, ◌+◌, ◌≤◌, String, ◌≡◌, refl, sym, ap, ◌∙◌, Bool, true, false, ◌&&◌, Option, none,
  some, List, [], ◌∷◌, ◌++◌, ◌==◌, string_eq, nat_eq, ==_iff, find, find-append_none,
  find-update_where_same, find-update_where_ne, Option-cases, inl, inr, arith,
}
use sf_f.Base.Raises.{ok, sqlite_integrity_error, ok-injective}
use sf_f.Models.Records.{Time}
use sf_f.Store.Db.{Db, FixIteration, Churn}
use sf_f.Store.Tx.{check-eq-ok}
use sf_f.Store.Artifacts.{refers}
use sf_f.Store.Counters.{
  known_stage, max_iteration, insert_fix_iteration, is_bucket, edits, bump_churn, upsert,
}

max_iteration-append :
    (stage_id : String) (rows : List FixIteration) (r : FixIteration)
    → r.stage_id ≡ stage_id
    → max_iteration stage_id rows ≤ r.iteration
    → max_iteration stage_id (rows ++ r ∷ []) ≡ r.iteration
max_iteration-append stage_id [] r same h = ground (arith, ==_iff r.stage_id stage_id)
max_iteration-append stage_id (x ∷ rows) r same h =
    ground (arith, max_iteration-append stage_id rows r same)

max_iteration-other :
    (stage_id : String) (rows : List FixIteration) (r : FixIteration)
    → (r.stage_id == stage_id) ≡ false
    → max_iteration stage_id (rows ++ r ∷ []) ≡ max_iteration stage_id rows
max_iteration-other stage_id [] r other = ground arith
max_iteration-other stage_id (x ∷ rows) r other =
    ground (arith, max_iteration-other stage_id rows r other)

-- A fix iteration of a stage gets the number after the stage's last one, is then the last one itself,
-- and leaves the numbers of every other stage alone.
pub insert_fix_iteration_lem :
    (now : Time) (stage_id : String) (failing_tests : ℕ) (report : Option ℕ) (d : Db) {n : ℕ}
    {d' : Db}
    → insert_fix_iteration now stage_id failing_tests report d ≡ ok (n, d')
    → (n ≡ max_iteration stage_id d.fix_iterations + 1)
      × (max_iteration stage_id d'.fix_iterations ≡ n)
      × ((other : String)
          → (stage_id == other) ≡ false
          → max_iteration other d'.fix_iterations ≡ max_iteration other d.fix_iterations)
unfolding insert_fix_iteration
insert_fix_iteration_lem now stage_id failing_tests report d {n} {d'} h =
    let (fits, h') =
      check-eq-ok (known_stage stage_id d && refers report d) sqlite_integrity_error _ d h in
    let left = ok-injective h' in
    let number = sym (ap (λ (x : ℕ × Db). x.0) left) in
    let tables = sym (ap (λ (x : ℕ × Db). x.1) left) in
    let rows = d.fix_iterations in
    let r : FixIteration = record {
      stage_id = stage_id;
      iteration = max_iteration stage_id rows + 1;
      failing_tests = failing_tests;
      report_artifact_id = report;
      created_at = now;
    } in
    (
      number,
      ap (λ (x : Db). max_iteration stage_id x.fix_iterations) tables
          ∙ max_iteration-append stage_id rows r refl (omega arith)
          ∙ sym number,
      λ other differs.
          ap (λ (x : Db). max_iteration other x.fix_iterations) tables
          ∙ max_iteration-other other rows r differs,
    )

-- Whether two buckets are one.
abbrev pub same_bucket : String → String → ℕ → String → String → ℕ → Bool
same_bucket s f r s' f' r' = s == s' && (f == f' && r == r')

is_bucket-other :
    (s f s' f' : String) (r r' : ℕ) (c : Churn)
    → same_bucket s f r s' f' r' ≡ false
    → is_bucket s f r c ≡ true
    → is_bucket s' f' r' c ≡ false
is_bucket-other s f s' f' r r' c h k = ground (
  arith,
  ==_iff s s',
  ==_iff f f',
  ==_iff r r',
  ==_iff c.stage_id s,
  ==_iff c.file_path f,
  ==_iff c.region r,
  ==_iff c.stage_id s',
  ==_iff c.file_path f',
  ==_iff c.region r',
)

abbrev first : Time → String → String → ℕ → Churn
first now s f r = record {
  stage_id = s;
  file_path = f;
  region = r;
  edit_count = 1;
  updated_at = now;
}

abbrev bumped : Time → Churn → Churn
bumped now c = record c { edit_count = c.edit_count + 1; updated_at = now }

fits_first : (now : Time) (s f : String) (r : ℕ) → is_bucket s f r (first now s f r) ≡ true
fits_first now s f r = rw (==_refl s, ==_refl f, ==_refl r) refl

found_first :
    (now : Time) (s f : String) (r : ℕ)
    → find (is_bucket s f r) (first now s f r ∷ []) ≡ some (first now s f r)
found_first now s f r = rw (fits_first now s f r) refl

find-append_miss :
    (p : Churn → Bool) (rows : List Churn) (c : Churn)
    → p c ≡ false
    → find p (rows ++ c ∷ []) ≡ find p rows
find-append_miss p [] c h = rw h refl
find-append_miss p (x ∷ rows) c h = ground (arith, find-append_miss p rows c h)

-- The bucket that is bumped has one edit more; the count that is returned is its new one.
edits-upsert :
    (now : Time) (s f : String) (r : ℕ) (rows : List Churn)
    → edits s f r (upsert now s f r rows) ≡ edits s f r rows + 1
edits-upsert now s f r rows = elim (Option-cases (find (is_bucket s f r) rows)) [
  | inl missing ↦
      let none_yet : edits s f r rows ≡ 0 =
        ap (λ o. elim o [ none ↦ 0 | some c ↦ c.edit_count ]) missing in
      let one : 1 ≡ edits s f r rows + 1 = omega (arith, none_yet) in
      rw (missing, upsert)
        (ap (λ o. elim o [ none ↦ 0 | some c ↦ c.edit_count ])
            (find-append_none (is_bucket s f r) rows (first now s f r ∷ []) missing
              ∙ found_first now s f r)
          ∙ one)
  | inr (c, found) ↦
      let before : edits s f r rows ≡ c.edit_count =
        ap (λ o. elim o [ none ↦ 0 | some c ↦ c.edit_count ]) found in
      rw (found, upsert)
        (ap (λ o. elim o [ none ↦ 0 | some c ↦ c.edit_count ])
            (find-update_where_same (is_bucket s f r) (bumped now) rows (λ _. refl)
              ∙ ap (map_option (bumped now)) found)
          ∙ sym (ap (λ n. n + 1) before))
]

edits-upsert_other :
    (now : Time) (s f s' f' : String) (r r' : ℕ) (rows : List Churn)
    → same_bucket s f r s' f' r' ≡ false
    → edits s' f' r' (upsert now s f r rows) ≡ edits s' f' r' rows
edits-upsert_other now s f s' f' r r' rows other =
    elim (Option-cases (find (is_bucket s f r) rows)) [
      | inl missing ↦
          rw (missing, upsert)
            (ap (λ o. elim o [ none ↦ 0 | some c ↦ c.edit_count ])
              (find-append_miss (is_bucket s' f' r') rows (first now s f r)
                (is_bucket-other s f s' f' r r' (first now s f r) other (fits_first now s f r))))
      | inr (c, found) ↦
          rw (found, upsert)
            (ap (λ o. elim o [ none ↦ 0 | some c ↦ c.edit_count ])
              (find-update_where_ne (is_bucket s f r) (is_bucket s' f' r') (bumped now) rows
                (λ x hit. (
                  is_bucket-other s f s' f' r r' x other hit,
                  is_bucket-other s f s' f' r r' x other hit,
                ))))
    ]

-- Every edit of a bucket counts once: the count that is returned is one more than before and is what
-- the table then has, and no other bucket of any stage changes.
pub bump_churn_lem :
    (now : Time) (s f : String) (r : ℕ) (d : Db) {n : ℕ} {d' : Db}
    → bump_churn now s f r d ≡ ok (n, d')
    → (n ≡ edits s f r d.churn + 1)
      × (edits s f r d'.churn ≡ n)
      × ((s' f' : String) (r' : ℕ)
          → same_bucket s f r s' f' r' ≡ false
          → edits s' f' r' d'.churn ≡ edits s' f' r' d.churn)
unfolding bump_churn
bump_churn_lem now s f r d {n} {d'} h =
    let (known, h') = check-eq-ok (known_stage s d) sqlite_integrity_error _ d h in
    let left = ok-injective h' in
    let number = sym (ap (λ (x : ℕ × Db). x.0) left) in
    let tables = sym (ap (λ (x : ℕ × Db). x.1) left) in
    (
      number ∙ edits-upsert now s f r d.churn,
      ap (λ (x : Db). edits s f r x.churn) tables ∙ sym number,
      λ s' f' r' other.
          ap (λ (x : Db). edits s' f' r' x.churn) tables
          ∙ edits-upsert_other now s f s' f' r r' d.churn other,
    )
