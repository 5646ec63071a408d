-- ===== src/Store/Processes/Laws.antt =====
-- The life of a run in the registry of src/sf_factory/db.py.
use sf_f.Base.{ℕ, ◌≡◌, refl, sym, ap, ◌∙◌, true, false, some, ◌==◌, string_eq, nat_eq}
use sf_f.Base.Raises.{ok, err, factory_error, ok-injective}
use sf_f.Models.Records.{Time, ProcessRecord}
use sf_f.Store.Table
use sf_f.Store.Table.{Table}
use sf_f.Store.Table.Keys.{IsKeyed, update_again, update-found}
use sf_f.Store.Db.{Db}
use sf_f.Store.Tx.{check-eq-ok}
use sf_f.Store.Processes.{mark_process_running, is_spawned, start}

marked :
    (i pid : ℕ) (now : Time) (d : Db) {d' : Db}
    → mark_process_running i pid now d ≡ ok (tt, d')
    → ((Table.rowcount i is_spawned d.processes == 1) ≡ true)
      × (d' ≡ record d { processes = Table.update i is_spawned (start pid now) d.processes })
unfolding mark_process_running
marked i pid now d h =
    let (one, h') =
      check-eq-ok (Table.rowcount i is_spawned d.processes == 1) factory_error _ d h in
    (one, sym (ap (λ (x : Unit × Db). x.1) (ok-injective h')))

unmarked :
    (i pid : ℕ) (now : Time) (d : Db)
    → (Table.rowcount i is_spawned d.processes == 1) ≡ false
    → mark_process_running i pid now d ≡ err factory_error
unfolding mark_process_running
unmarked i pid now d h = rw h refl

-- In a table whose keys ascend, a run is marked as running once: its row was there and spawned, it then
-- has its process id, and to mark it again raises FactoryError.
pub mark_process_running_once :
    (i pid pid' : ℕ) (now later : Time) (d : Db) {d' : Db}
    → IsKeyed d.processes
    → mark_process_running i pid now d ≡ ok (tt, d')
    → ((r : ProcessRecord) × (Table.get i d.processes ≡ some r)
        × (is_spawned r ≡ true)
        × (Table.get i d'.processes ≡ some (start pid now r)))
      × (mark_process_running i pid' later d' ≡ err factory_error)
mark_process_running_once i pid pid' now later d {d'} k h =
    let (one, left) = marked i pid now d h in
    let (r, found, spawned, changed) =
      update-found i is_spawned (start pid now) d.processes k one in
    let again = update_again i is_spawned (start pid now) d.processes k (λ _. refl) one in
    (
      (r, found, spawned, ap (λ (x : Db). Table.get i x.processes) left ∙ changed),
      unmarked i pid' later d'
          (ap (λ (x : Db). Table.rowcount i is_spawned x.processes == 1) left ∙ again),
    )
