-- ===== src/Executor/NoStaleAnswer.antt =====
-- A stage that enters its human gate never consumes an answer that was given before.
use sf_f.Models.StageState.{StageState}
use sf_f.Store.Db.{Db}
use sf_f.Store.Database.{Database}
