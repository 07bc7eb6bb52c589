-- ===== src/Bus/Consumer/Order.antt =====
-- The order of what a consumer does.
use mathlib.Core.List.{append-nil}
use cortx_ha.Prelude.{
  ◌≡◌, refl, sym, Bool, true, false, List, [], ◌∷◌, ◌++◌, Option, none, some, if_ind,
}
use cortx_ha.Prelude.{Result, ok, raise}
use cortx_ha.Bus.Consumer.{
  success, failed, failed_stop, success_stop, other, Answer, returned, raised, Action, received,
  called, acked, Round, Next, halt, go, ack_then, handle, End, broken, unfinished, FlushRound,
  consume, flush_round, flush, then_flush, receive_then_call, with_message, then_run, round, run,
}

-- The answers after which the message is processed again.
abbrev pub retries : Answer → Bool
retries (returned success) = false
retries (returned failed_stop) = false
retries (returned success_stop) = false
retries _ = true

-- The answers that are acknowledged.
abbrev pub acknowledges : Answer → Bool
acknowledges (returned success) = true
acknowledges (returned success_stop) = true
acknowledges _ = false

module _ {M : Type 0} where
  -- What may come next. A received message is processed; one whose processing failed is processed
  -- again before anything else; only a message that was just processed with success is
  -- acknowledged; and behind `failed_stop` nothing comes.
  abbrev pub Follows : Option (Action M) → Action M → Type 0
  Follows none (received m) = Unit
  Follows (some (received m)) (called n a) = m ≡ n
  Follows (some (called m a)) (received n) = acknowledges a ≡ true
  Follows (some (called m a)) (called n b) = (m ≡ n) × (retries a ≡ true)
  Follows (some (called m a)) (acked n) = (m ≡ n) × (acknowledges a ≡ true)
  Follows (some (acked m)) (received n) = Unit
  Follows _ _ = ⊥

  abbrev pub Orderly : Option (Action M) → List (Action M) → Type 0
  Orderly last [] = Unit
  Orderly last (a ∷ rest) = Follows last a × Orderly (some a) rest

  abbrev last_of : Option (Action M) → List (Action M) → Option (Action M)
  last_of last [] = last
  last_of last (a ∷ rest) = last_of (some a) rest

  Orderly-append :
      (last : Option (Action M)) (xs ys : List (Action M))
      → Orderly last xs
      → Orderly (last_of last xs) ys
      → Orderly last (xs ++ ys)
  Orderly-append last [] ys hx hy = hy
  Orderly-append last (x ∷ xs) ys hx hy = (hx.0, Orderly-append (some x) xs ys hx.1 hy)

  -- the values of `retry` and `message` that fit the last action
  abbrev Ready : Option M → Option (Action M) → Type 0
  Ready none none = Unit
  Ready none (some (received m)) = ⊥
  Ready none (some (called m a)) = acknowledges a ≡ true
  Ready none (some (acked m)) = Unit
  Ready (some m) (some (called n a)) = (n ≡ m) × (retries a ≡ true)
  Ready (some m) _ = ⊥

  abbrev NextReady : Next M → Option (Action M) → Type 0
  NextReady (halt end) last = Unit
  NextReady (go retry) last = Ready retry last

  abbrev IsFine : Option (Action M) → List (Action M) × Next M → Type 0
  IsFine last (actions, next) = Orderly last actions × NextReady next (last_of last actions)

  IsFine-ack_then :
      (m : M) (a : Answer) (ack : Result (Unit {0})) (next : Next M)
      → acknowledges a ≡ true
      → NextReady next (some (acked m))
      → IsFine (some (called m a)) (ack_then m ack next)
  IsFine-ack_then m a (ok _) next h ready = (((refl, h), tt), ready)
  IsFine-ack_then m a (raise e) next h ready = (tt, h)

  IsFine-handle : (m : M) (r : Round M) (a : Answer) → IsFine (some (called m a)) (handle m r a)
  unfolding handle
  IsFine-handle m r (returned success) =
      IsFine-ack_then m (returned success) r.ack (go none) refl tt
  IsFine-handle m r (returned failed) = (tt, (refl, refl))
  IsFine-handle m r (returned failed_stop) = (tt, tt)
  IsFine-handle m r (returned success_stop) =
      IsFine-ack_then m (returned success_stop) r.ack (halt broken) refl tt
  IsFine-handle m r (returned other) = (tt, (refl, refl))
  IsFine-handle m r raised = (tt, (refl, refl))

  IsFine-receive :
      (last : Option (Action M)) (r : Round M) (received_now : Result (Option M))
      → Ready none last
      → IsFine last (receive_then_call r received_now)
  IsFine-receive last r (ok none) h = (tt, h)
  IsFine-receive last r (raise e) h = (tt, h)
  IsFine-receive none r (ok (some m)) h =
      let (fine, ready) = IsFine-handle m r (r.answer m) in ((tt, (refl, fine)), ready)
  IsFine-receive (some (received n)) r (ok (some m)) h = absurd h
  IsFine-receive (some (called n a)) r (ok (some m)) h =
      let (fine, ready) = IsFine-handle m r (r.answer m) in ((h, (refl, fine)), ready)
  IsFine-receive (some (acked n)) r (ok (some m)) h =
      let (fine, ready) = IsFine-handle m r (r.answer m) in ((tt, (refl, fine)), ready)

  IsFine-with_message :
      (retry : Option M) (last : Option (Action M)) (r : Round M)
      → Ready retry last
      → IsFine last (with_message retry r)
  IsFine-with_message none last r h = IsFine-receive last r r.receive h
  IsFine-with_message (some m) none r h = absurd h
  IsFine-with_message (some m) (some (received n)) r h = absurd h
  IsFine-with_message (some m) (some (acked n)) r h = absurd h
  IsFine-with_message (some m) (some (called n a)) r h =
      let (fine, ready) = IsFine-handle m r (r.answer m) in ((h, fine), ready)

  IsFine-round :
      (retry : Option M) (last : Option (Action M)) (r : Round M)
      → Ready retry last
      → IsFine last (round retry r)
  unfolding round
  IsFine-round retry last r h =
      if_ind (IsFine last) r.stop (tt, tt) (IsFine-with_message retry last r h)

  Orderly-then_run :
      (last : Option (Action M)) (rest : Option M → List (Action M) × End)
      (step : List (Action M) × Next M)
      → IsFine last step
      → ((retry : Option M) (l : Option (Action M)) → Ready retry l → Orderly l (rest retry).0)
      → Orderly last (then_run rest step).0
  Orderly-then_run last rest (actions, halt end) fine later = fine.0
  Orderly-then_run last rest (actions, go retry) fine later =
      Orderly-append last actions (rest retry).0 (fine.0)
        (later retry (last_of last actions) (fine.1))

  Orderly-from :
      (rs : List (Round M)) (retry : Option M) (last : Option (Action M))
      → Ready retry last
      → Orderly last (consume retry rs).0
  unfolding consume
  Orderly-from [] retry last h = tt
  Orderly-from (r ∷ rs) retry last h =
      Orderly-then_run last (λ retry'. consume retry' rs) (round retry r)
        (IsFine-round retry last r h) (Orderly-from rs)

  -- messages that are acknowledged as they come, the last one of them perhaps not
  abbrev pub Flushed : List (Action M) → Type 0
  Flushed [] = Unit
  Flushed (received m ∷ []) = Unit
  Flushed (received m ∷ acked n ∷ rest) = (m ≡ n) × Flushed rest
  Flushed _ = ⊥

  Flushed-flush_round :
      (rest : List (Action M) × End) (got : Result (Option M)) (ack : Result (Unit {0}))
      → Flushed (rest.0)
      → Flushed (flush_round rest got ack).0
  Flushed-flush_round rest (raise e) ack h = tt
  Flushed-flush_round rest (ok none) ack h = tt
  Flushed-flush_round rest (ok (some m)) (raise e) h = tt
  Flushed-flush_round rest (ok (some m)) (ok _) h = (refl, h)

  Flushed-flush : (fs : List (FlushRound M)) → Flushed (flush fs).0
  unfolding flush
  Flushed-flush [] = tt
  Flushed-flush (r ∷ fs) = Flushed-flush_round (flush fs) r.receive r.ack (Flushed-flush fs)

  -- a trace in two parts: messages processed in order, and messages flushed if that was asked for
  pub record Runs (flush_on_exit : Bool) (trace : List (Action M)) : Type 0 where
    pub processed : List (Action M)
    pub flushed_away : List (Action M)
    pub parts : trace ≡ processed ++ flushed_away
    pub in_order : Orderly none processed
    pub acked_only : Flushed flushed_away
    pub as_asked : flush_on_exit ≡ false → flushed_away ≡ []

  Runs-unflushed :
      (flush_on_exit : Bool) (actions : List (Action M))
      → Orderly none actions
      → Runs flush_on_exit actions
  Runs-unflushed flush_on_exit actions h = record {
    processed = actions;
    flushed_away = [];
    parts = sym (append-nil actions);
    in_order = h;
    acked_only = tt;
    as_asked = λ e. refl;
  }

  Runs-flushed :
      (actions : List (Action M)) (fs : List (FlushRound M))
      → Orderly none actions
      → Runs true (actions ++ (flush fs).0)
  Runs-flushed actions fs h = record {
    processed = actions;
    flushed_away = (flush fs).0;
    parts = refl;
    in_order = h;
    acked_only = Flushed-flush fs;
    as_asked = λ e. cc;
  }

  Runs-then_flush :
      (flush_on_exit : Bool) (fs : List (FlushRound M)) (loop : List (Action M) × End)
      → Orderly none (loop.0)
      → Runs flush_on_exit (then_flush flush_on_exit fs loop).0
  Runs-then_flush flush_on_exit fs (actions, unfinished) h = Runs-unflushed flush_on_exit actions h
  Runs-then_flush false fs (actions, end) h = Runs-unflushed false actions h
  Runs-then_flush true fs (actions, end) h = Runs-flushed actions fs h

  -- Whatever the bus and the callback do, a run is a part that processes messages and a part that
  -- flushes them. In the first, a message that was received is processed next; one whose processing
  -- failed or raised is processed again before anything else is done; only a message that was just
  -- processed with success is acknowledged; and nothing is done after FAILED_STOP. In the second,
  -- which is empty unless the flush is asked for, messages are received and acknowledged without being
  -- processed, except that the last one may not be acknowledged, where the bus raises.
  pub run-Orderly :
      (flush_on_exit : Bool) (rs : List (Round M)) (fs : List (FlushRound M))
      → Runs flush_on_exit (run flush_on_exit rs fs).0
  unfolding run
  run-Orderly flush_on_exit rs fs =
      Runs-then_flush flush_on_exit fs (consume none rs) (Orderly-from rs none none tt)
