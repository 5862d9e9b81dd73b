-- ===== src/Analytics/Main/Exact.antt =====
-- Every run of the consumer, from its start to its end, keeps the tables exact, or, where lookups of
-- offsets fail, complete.
use shortn.Prelude.{ℕ, ◌≡◌, sym, List, All, length}
use mathlib.Core.Path.{subst}
use shortn.Act.{ok}
use shortn.Config.{Config, load}
use shortn.Store.{Db}
use shortn.Analytics.Assigned.{on_assigned, start_of, AreAnswered}
use shortn.Analytics.Exactly.{Log, IsExact, InSequence, all_records}
use shortn.Analytics.Exactly.Sessions.{IsClean}
use shortn.Analytics.Exactly.Replay.{IsComplete, session-IsComplete}
use shortn.Analytics.Session.{session, IsAssigned, session-IsExact}
use shortn.Analytics.{Delivery}
use shortn.Analytics.Main.{Libraries, consuming, main}
use shortn.Analytics.Main.Kept.{tables_of, AreApart, session_start, main-Holds}

module _ {W : Type 0} (lib : Libraries W) where
  -- Where the client is told to start.
  abbrev pub offsets : Config → W → List (ℕ × ℕ)
  offsets cfg w = (on_assigned cfg.kafka_group cfg.kafka_topic (lib.assigned w) (lib.db w)).0

  abbrev pub handed_out : Config → W → List Delivery
  handed_out cfg w = all_records (lib.polls w (offsets cfg w))

  -- From the offsets that it is told on, the client hands out the log, in order and with no record
  -- beside an error.
  pub record IsOrdered (cfg : Config) (log : Log) (w : W) : Type 0 where
    pub clean :
        All (IsClean lib.decode cfg.kafka_group cfg.kafka_topic log) (lib.polls w (offsets cfg w))
    pub ordered : InSequence log (λ q. start_of q (offsets cfg w)) (handed_out cfg w)

  -- The client at the start of the session: the offsets can be read, and from them on it hands out
  -- the log of the partitions it is assigned, in order and with no record beside an error.
  pub record IsServed (cfg : Config) (log : Log) (w : W) : Type 0 where
    pub answered :
        AreAnswered cfg.kafka_group cfg.kafka_topic (length (lib.assigned w)) (lib.db w).trips
    pub clean :
        All (IsClean lib.decode cfg.kafka_group cfg.kafka_topic log) (lib.polls w (offsets cfg w))
    pub within_assigned :
        All
          (IsAssigned lib.decode cfg.kafka_group cfg.kafka_topic log (lib.assigned w))
          (handed_out cfg w)
    pub ordered : InSequence log (λ q. start_of q (offsets cfg w)) (handed_out cfg w)

  module _ (apart : AreApart lib) (cfg : Config) (log : Log) where
    consuming-IsExact :
        (w : W)
        → IsServed cfg log w
        → IsExact lib.decode cfg.kafka_group cfg.kafka_topic log (tables_of lib w)
        → IsExact lib.decode cfg.kafka_group cfg.kafka_topic log
            (tables_of lib (consuming lib cfg w).1)
    unfolding consuming
    consuming-IsExact w c x =
        let written =
          (session lib.decode cfg.kafka_group cfg.kafka_topic (lib.assigned w) (lib.polls w)
            (lib.db w)).1 in
        subst (λ (d : Db). IsExact lib.decode cfg.kafka_group cfg.kafka_topic log d.tables)
          (sym (apart.db_put written w))
          (session-IsExact lib.decode cfg.kafka_group cfg.kafka_topic log (lib.assigned w)
            (lib.polls w) (lib.db w) x c.answered c.clean c.within_assigned c.ordered)

    consuming-IsComplete :
        (w : W)
        → IsOrdered cfg log w
        → IsComplete lib.decode cfg.kafka_group cfg.kafka_topic log (tables_of lib w)
        → IsComplete lib.decode cfg.kafka_group cfg.kafka_topic log
            (tables_of lib (consuming lib cfg w).1)
    unfolding consuming
    consuming-IsComplete w c x =
        let written =
          (session lib.decode cfg.kafka_group cfg.kafka_topic (lib.assigned w) (lib.polls w)
            (lib.db w)).1 in
        subst (λ (d : Db). IsComplete lib.decode cfg.kafka_group cfg.kafka_topic log d.tables)
          (sym (apart.db_put written w))
          (session-IsComplete lib.decode cfg.kafka_group cfg.kafka_topic log (lib.assigned w)
            (lib.polls w) (lib.db w) x c.clean c.ordered)

    -- Every run of the consumer program from exact tables, refused at its start, cut off by a
    -- record that fails, or shut down, leaves exact tables, if only the session writes to them,
    -- the offsets can be read on assignment, and the client hands out the log from the offsets
    -- it is told, in order and with no record beside an error.
    pub main-IsExact :
        (w : W)
        → load lib.getenv lib.hostname ≡ ok cfg
        → IsExact lib.decode cfg.kafka_group cfg.kafka_topic log (tables_of lib w)
        → IsServed cfg log (session_start lib apart cfg w).world
        → IsExact lib.decode cfg.kafka_group cfg.kafka_topic log (tables_of lib (main lib w).1)
    main-IsExact w c x client =
        main-Holds lib apart cfg (IsExact lib.decode cfg.kafka_group cfg.kafka_topic log) w c x
          (consuming-IsExact (session_start lib apart cfg w).world client)

    -- Every run of the consumer program, also one where lookups of offsets fail on assignment
    -- and partitions are taken from the start of the log again, leaves complete tables if they
    -- were: no click below a committed offset is missing, every row is a click of the log, and
    -- no event id is there twice; if only the session writes to them, and the client hands out
    -- the log from the offsets it is told, in order and with no record beside an error.
    pub main-IsComplete :
        (w : W)
        → load lib.getenv lib.hostname ≡ ok cfg
        → IsComplete lib.decode cfg.kafka_group cfg.kafka_topic log (tables_of lib w)
        → IsOrdered cfg log (session_start lib apart cfg w).world
        → IsComplete lib.decode cfg.kafka_group cfg.kafka_topic log (tables_of lib (main lib w).1)
    main-IsComplete w c x client =
        main-Holds lib apart cfg (IsComplete lib.decode cfg.kafka_group cfg.kafka_topic log) w c x
          (consuming-IsComplete (session_start lib apart cfg w).world client)
