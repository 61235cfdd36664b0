-- ===== src/Queue/Runner.antt =====
-- internal/queue/worker.go: what a runner does with the tasks that it claims.
--
-- The handler and the context are outside: a round is given what the handler returned and whether
-- the runner's context had ended by then. What is logged is left out.
use mathlib.Core.List.{List}
use nit.Base.{ℕ, Bool, ◌&&◌, Option, none, some, GoString, text, if◌then◌else◌, Result, ok, err}
use nit.Store.Task.{TaskKind, Failure, Task}
use nit.Store.Memory.{TaskStore}
use nit.Queue.{Limits, Handle, claim_task, complete_task, fail_task, release_task}

-- What the runner asks of a handler's error: the protocol error that `errors.As` finds in it,
-- whether it is `context.Canceled`, and its text.
pub record HandlerError : Type 0 where
  pub protocol : Option Failure
  pub is_canceled : Bool
  pub message : GoString

unfoldable pub as_protocol_error : HandlerError → Failure
as_protocol_error e = elim e.protocol [
  | some failure ↦ failure
  | none ↦ record { code = text "internal"; message = e.message }
]

-- `execute`, after the handler has returned.
unfoldable pub execute :
    Limits → ℕ → Bool → Result HandlerError GoString → Handle → TaskStore → TaskStore
execute limits now shutting_down (ok result) h s = (complete_task now result h s).0
execute limits now shutting_down (err e) h s =
    if shutting_down && e.is_canceled
    then (release_task now h s).0
    else (fail_task limits now (some (as_protocol_error e)) h s).0

-- The runner's part of the configuration.
pub record Runner : Type 0 where
  pub holder : GoString
  pub kinds : List TaskKind

-- One turn of the loop of `Run`: the instants of the claim and of the end, the token drawn, and the
-- handler. Without a task the runner sleeps.
pub record Turn : Type 0 where
  pub claimed_at : ℕ
  pub token : GoString
  pub handler : Task → Result HandlerError GoString
  pub ended_at : ℕ
  pub shutting_down : Bool

unfoldable pub take_turn : Limits → Runner → Turn → TaskStore → TaskStore
take_turn limits r turn s =
    let (claimed, result) = claim_task limits turn.claimed_at turn.token r.holder r.kinds s in
    elim result [
      | err e ↦ claimed
      | ok h ↦ execute limits turn.ended_at turn.shutting_down (turn.handler h.task) h claimed
    ]
