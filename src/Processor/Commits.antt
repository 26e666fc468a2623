-- ===== src/Processor/Commits.antt =====
-- The acknowledged commits of a whole run of the consumer.
use confluo.Prelude.{arith, ◌≡◌, refl, sym, List, [], ◌∷◌}
use mathlib.Core.Path.{subst}
use confluo.Fault.{ok}
use confluo.Config.{ProcessorConfig, JoinConfig}
use confluo.Store.Keeps.{single-StoreKeeps, scoped-StoreKeeps}
use confluo.Consumer.{Handler, Record}
use confluo.Consumer.Run.{Poll, resolver_from_single, resolver_from_map, run_single}
use confluo.Consumer.Run.Acks.{acked}
use confluo.Consumer.Run.Acks.Accounts.{Accounted}
use confluo.Consumer.Run.Acks.Loop.{polled, Quiet, run-Accounted}
use confluo.World.Extends.{Extends-refl, Extends-IsCalm, statement-Extends}
use confluo.World.{
  Codec, KafkaRecord, Services, World, History, Event, Statement, executed, committed, exec,
}
use confluo.World.Keeps.{Keeps, IsCalm, IsCall, Keeps-exec}
use confluo.Processor.{
  single_handler, multi_handler, multi_handlers, run_single_config, run_multi_config,
}
use confluo.Processor.Routing.{multi_handlers-IsOwn, routed-IsOwn}
use confluo.Processor.Stores.Wired.{single_handler-Keeps, multi_handler-Keeps}

module _ (l : List KafkaRecord) where
  abbrev Committed : History → Type 0
  Committed h = acked h ≡ l

  Committed-IsCalm : IsCalm Committed
  unfolding acked
  Committed-IsCalm = record { step = go }
    where
      go : (e : Event) (h : History) → IsCall e → Committed h → Committed (e ∷ h)
      go (executed s r) h x g = absurd x
      go (committed rec r) h x g = absurd x
      go _ h x g = g

  statement-Committed : (s : Statement) → Keeps Committed (exec s)
  unfolding acked
  statement-Committed s = Keeps-exec s (λ h r g. g)

module _ (cfg : ProcessorConfig) (jc : JoinConfig) where
  single-Quiet : (env : Services) → Quiet env (single_handler cfg jc)
  single-Quiet env r w = (
    (single_handler-Keeps (Committed-IsCalm _) cfg jc
          (single-StoreKeeps (Committed-IsCalm _) (statement-Committed _)) r).at
        env w refl,
    (single_handler-Keeps (Extends-IsCalm _) cfg jc
          (single-StoreKeeps (Extends-IsCalm _) (statement-Extends _)) r).at
        env w (Extends-refl w.history),
  )

  multi-Quiet : (codec : Codec) (env : Services) → Quiet env (multi_handler codec cfg jc)
  multi-Quiet codec env r w = (
    (multi_handler-Keeps (Committed-IsCalm _) cfg jc codec
          (scoped-StoreKeeps (Committed-IsCalm _) (statement-Committed _) jc.config_id) r).at
        env w refl,
    (multi_handler-Keeps (Extends-IsCalm _) cfg jc codec
          (scoped-StoreKeeps (Extends-IsCalm _) (statement-Extends _) jc.config_id) r).at
        env w (Extends-refl w.history),
  )

module _ (codec : Codec) (cfg : ProcessorConfig) (env : Services) where
  pub to_single-Quiet :
      (jc : JoinConfig) (r : Record) (hd : Handler)
      → resolver_from_single (single_handler cfg jc) r ≡ ok hd
      → Quiet env hd
  unfolding resolver_from_single
  to_single-Quiet jc r hd e =
      let same : single_handler cfg jc ≡ hd = ground arith in
      subst (Quiet env) same (single-Quiet cfg jc env)

  routed-Quiet :
      (jcs : List JoinConfig) (r : Record) (hd : Handler)
      → resolver_from_map codec (multi_handlers codec cfg jcs []) r ≡ ok hd
      → Quiet env hd
  routed-Quiet jcs r hd e =
      let (id, g, (jc, x, y)) =
        routed-IsOwn codec cfg (multi_handlers codec cfg jcs []) r hd
          (multi_handlers-IsOwn codec cfg jcs [] tt) e in
      subst (Quiet env) (sym x) (multi-Quiet cfg jc codec env)

  -- Whatever the services answer, over any number of polls, with one configuration as with several:
  -- the history only grows, and the commits that Kafka acknowledges are, in the order in which they
  -- were polled, of some of the polled records, each at most as often as it was polled. Each of
  -- these records is either routed to no handler, or its acknowledged commit stands in the history
  -- behind a call of the handler that it is routed to, which ended on it without an error.
  pub run-commits :
      (jc : JoinConfig) (jcs : List JoinConfig) (polls : List Poll) (w : World)
      → Accounted
          (resolver_from_single (single_handler cfg jc))
          env
          (polled polls)
          w.history
          (run_single_config cfg jc polls env w).1.history
        × Accounted
            (resolver_from_map codec (multi_handlers codec cfg jcs []))
            env
            (polled polls)
            w.history
            (run_multi_config codec cfg jcs polls env w).1.history
  unfolding run_single_config run_single run_multi_config
  run-commits jc jcs polls w = (
    run-Accounted _ env (to_single-Quiet jc) polls w,
    run-Accounted _ env (routed-Quiet jcs) polls w,
  )
