-- ===== src/Movement/Service/Answers.antt =====
-- The idempotency key of a movement command, whatever requests come between.
use pda_backend.Movement.Task.{Task}
use pda_backend.Movement.Database.{Database}
use pda_backend.Movement.Service.{Reply, Plan, plan, request}
use pda_backend.Movement.Service.Ledger.{Request}

abbrev pub plan_of : Request → Plan
plan_of r = plan r.operation r.command r.fresh.now

abbrev pub reply_to : Request → Database → Reply × Database
reply_to r = request r.refusal r.operation r.command r.fresh
