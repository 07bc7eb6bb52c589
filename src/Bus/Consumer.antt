-- ===== src/Bus/Consumer.antt =====
-- `MessageBusConsumer.run` of ha/util/message_bus.py. The bus is cortx-utils': what it and the
-- callback answer in each round of its two loops is given, as lists of rounds. The result is the trace
-- of what the consumer did, and how the loop ended.
pub mod Order
use cortx_ha.Prelude.{Bool, true, false, List, [], ◌∷◌, ◌++◌, Option, none, some, if◌then◌else◌}
use cortx_ha.Prelude.{Result, ok, raise}

-- CONSUMER_STATUS; `other` is any other value that the callback returns, `None` among them.
pub data Status : Type 0 where
  success failed failed_stop success_stop other : Status

-- What the callback did: it returned a status, or it raised.
pub data Answer : Type 0 where
  returned : Status → Answer
  raised : Answer

module _ {ℓ} (M : Type ℓ) where
  pub data Action : Type ℓ where
    received : M → Action
    called : M → Answer → Action
    acked : M → Action

  -- One round: the stop event, and what `receive`, the callback and `ack` would answer. `receive`
  -- raises (`raise`), times out (`ok none`) or gives a message.
  pub record Round : Type ℓ where
    pub stop : Bool
    pub receive : Result (Option M)
    pub answer : M → Answer
    pub ack : Result (Unit {0})

  -- One round of the loop that flushes: what `receive` and `ack` would answer.
  pub record FlushRound : Type ℓ where
    pub receive : Result (Option M)
    pub ack : Result (Unit {0})

-- How a run ends: by the stop event, by a status that stops it, behind the loop that flushes, by an
-- exception of the bus in that loop, or because no more rounds are given.
pub data End : Type 0 where
  stopped broken flushed crashed unfinished : End

-- What follows a round: the loop ends, or goes on; `go (some m)` is `retry = True` with message `m`.
pub data Next {ℓ} (M : Type ℓ) : Type ℓ where
  halt : End → Next M
  go : Option M → Next M

module _ {ℓ} {M : Type ℓ} where
  -- `self.consumer.ack()`, then `next`; an exception is suppressed and ends the round
  abbrev pub ack_then : M → Result (Unit {0}) → Next M → List (Action M) × Next M
  ack_then m (ok _) next = (acked m ∷ [], next)
  ack_then m (raise e) next = ([], go none)

  -- the tests on the callback's status
  unfoldable pub handle : M → Round M → Answer → List (Action M) × Next M
  handle m r (returned success) = ack_then m r.ack (go none)
  handle m r (returned failed_stop) = ([], halt broken)
  handle m r (returned success_stop) = ack_then m r.ack (halt broken)
  handle m r (returned _) = ([], go (some m))
  handle m r raised = ([], go (some m))

  abbrev pub call : M → Round M → List (Action M) × Next M
  call m r =
      let (actions, next) = handle m r (r.answer m) in (called m (r.answer m) ∷ actions, next)

  abbrev pub receive_then_call : Round M → Result (Option M) → List (Action M) × Next M
  receive_then_call r (ok none) = ([], go none)
  receive_then_call r (ok (some m)) = let (actions, next) = call m r in (received m ∷ actions, next)
  receive_then_call r (raise e) = ([], go none)

  abbrev pub with_message : Option M → Round M → List (Action M) × Next M
  with_message none r = receive_then_call r r.receive
  with_message (some m) r = call m r

  -- one round of `while not self._stop.is_set()`
  unfoldable pub round : Option M → Round M → List (Action M) × Next M
  unfolding handle
  round retry r = if r.stop then ([], halt stopped) else with_message retry r

  -- the rest of the loop, by the value of `retry` that a round leaves
  abbrev pub then_run :
      (Option M → List (Action M) × End) → List (Action M) × Next M → List (Action M) × End
  then_run rest (actions, halt end) = (actions, end)
  then_run rest (actions, go retry) = let (more, end) = rest retry in (actions ++ more, end)

  -- the loop until it stops, from a value of `retry` and `message`
  unfoldable pub consume : Option M → List (Round M) → List (Action M) × End
  consume retry [] = ([], unfinished)
  consume retry (r ∷ rs) = then_run (λ retry'. consume retry' rs) (round retry r)

  abbrev pub flush_round :
      List (Action M) × End → Result (Option M) → Result (Unit {0}) → List (Action M) × End
  flush_round rest (raise e) ack = ([], crashed)
  flush_round rest (ok none) ack = ([], flushed)
  flush_round rest (ok (some m)) (raise e) = (received m ∷ [], crashed)
  flush_round (actions, end) (ok (some m)) (ok _) = (received m ∷ acked m ∷ actions, end)

  -- the loop that flushes: it acks what arrives until `receive` times out
  unfoldable pub flush : List (FlushRound M) → List (Action M) × End
  flush [] = ([], unfinished)
  flush (r ∷ rs) = flush_round (flush rs) r.receive r.ack

  abbrev pub then_flush : Bool → List (FlushRound M) → List (Action M) × End → List (Action M) × End
  then_flush flush_on_exit fs (actions, unfinished) = (actions, unfinished)
  then_flush false fs (actions, end) = (actions, end)
  then_flush true fs (actions, end) = let (more, end') = flush fs in (actions ++ more, end')

  -- `run`; `flush_on_exit` is what it is where the first loop ends
  unfoldable pub run : Bool → List (Round M) → List (FlushRound M) → List (Action M) × End
  unfolding consume flush
  run flush_on_exit rs fs = then_flush flush_on_exit fs (consume none rs)
