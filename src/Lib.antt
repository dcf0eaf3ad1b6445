-- ===== src/Lib.antt =====
-- sccache-dist-action: one program that is a GitHub Action's coordinator, its workers, and the
-- forwarder that the coordinator's step leaves behind, for a farm of sccache-dist build servers on
-- a tailnet.
--
-- The parts and how they interact. cmd/sccache-dist-action/main.go reads the configuration
-- (internal/config) and becomes a worker, or the coordinator's step, which spawns itself again,
-- detached, as the forwarder and waits until that has exported SCCACHE_J. The forwarder
-- (internal/coordinator) joins the tailnet (internal/tsmesh), starts the scheduler
-- (internal/sccachedist), opens a relay (internal/proxy) at a local port for every expected worker,
-- waits until the workers are registered with the scheduler, and exports. A worker (internal/worker)
-- joins the tailnet, bridges to the scheduler, exposes its server there, supervises that server, and
-- leaves when the coordinator is gone.
--
-- The action's wrapper (src/index.js) fetches the program and the sccache engine, or builds the program,
-- and runs it with the action's inputs in its environment.
--
-- Where what is modelled:
--   Config.antt              internal/config/config.go: `load_from` is loadFrom, over a lookup of
--                            environment variables; or_default, atoi_or, bool_or, dur_or
--   Coordinator/Run.antt     internal/coordinator/coordinator.go: `run` is Run as the list of the
--                            calls it makes (`Action`), over a `World` that answers them
--   Coordinator/Registration.antt, Forward.antt, Log.antt, Status.antt
--                            waitForRegisteredServers, forwardSpec and boolStr, openLog and
--                            stdoutUntilBroken, registeredServers and a round of logStatus
--   Worker/Run.antt          internal/worker/worker.go: `run` is Run, with its deferred calls
--   Worker/Guard.antt, Address.antt, Probe.antt
--                            guard, observe and the loop at the end of Run (in Guard/Timing.antt
--                            with its times); workerIndex and serverPublicAddr; probeServer,
--                            probeCoordinator and a line of the status log
--   Worker/Supervisor.antt   internal/worker/supervise.go: the supervisor as a machine (`step`) whose
--                            events are what its goroutine meets at its blocking calls
--   Proxy/Dial.antt, Serve.antt, Counters.antt, Status.antt
--                            internal/proxy/proxy.go: dialRetrying; Serve; relay and Status as
--                            interleaved atomic operations (`Step`, `Reach`), and Status's line
--   Proxy/Session.antt, Tandem.antt, Stream.antt
--                            relay behind its dial, pipe and closeWrite: the two connections with
--                            both directions and their failures (`step`); two relays in a row, with
--                            the connection between them; one direction through any number of relays
--   SccacheDist/*.antt       internal/sccachedist/sccachedist.go: the configuration files, their
--                            paths, WriteFile, logEnv, StartScheduler and StartServer; Toml.antt reads
--                            the files back by TOML's rules
--   Tsmesh/*.antt            internal/tsmesh/tsmesh.go: Up and upOnce, the peer lists, splitTags,
--                            WaitForWorkers
--   Main/*.antt              cmd/sccache-dist-action/main.go and procctl.go: the branches of main
--                            (Dispatch.antt) and a whole run of it (Run.antt), the pid file,
--                            spawnForwarder and its environment, waitForEnvExport
--   Farm/*.antt              what two parts promise each other: the addresses of coordinator and
--                            worker, the server that a worker launches and the forward for it, the
--                            liveness port and the probes, the handover from the forwarder to the
--                            step and its times, what a later step reads in the runner's files, the
--                            two ways to wait for the workers
--   Wrapper.antt, Wrapper/*.antt
--                            src/index.js: the inputs in the program's environment (Wiring) and in its
--                            configuration (Configured), the release that a ref stands for (Release),
--                            and `run` as the list of its calls (Run), over a `World` that answers
--                            them (World)
--   Spike.antt, Spike/*.antt spike/tsnet-conn/tsbridge/main.go, and how it differs from the above
--   Stdlib/*.antt            the functions of Go's standard library that the program computes with
--   Effects.antt             functions that act on the world: a result and the calls made
--   Common.antt              shared types, tests and lemmas
--   Tests/*.antt             the theorems at concrete inputs
--
-- Conventions. Numbers are native; Go's int and time.Duration are `ℤ` with the wrap-around at 64
-- bits written out (`wrap64`); counts that only grow by one (`misses`, the counters of a relay) are
-- ℕ. A string is the list of its code points. A Go error is `Result`; what the world does (tsnet,
-- HTTP, the file system, the child processes, the clock) is an argument of the function: an answer
-- for each call, or the list of the rounds of a polling loop. A loop over such a list says so when
-- the list is too short (`none`, `polling`, `watching`, `unfinished`). Fuel stands only in Itoa (a
-- number has at most as many digits as its value plus one), in ParseDuration (a group takes a
-- character or more) and in the TOML reader (the number of lines of the file). Where times matter they
-- are nanoseconds in ℕ, and each round of a loop says how long its parts took.
--
-- Not modelled: the log lines, apart from the two status logs and what the coordinator's log keeps;
-- the wire formats of HTTP, TLS and JSON, which are the answers to a request; failures in a stream
-- through more than two relays; dist/index.js, which is src/index.js bundled with its packages. Node,
-- the packages of the wrapper, semver's comparisons among them, and the API are parameters.
pub mod Common
pub mod Stdlib
pub mod Effects
pub mod Config
pub mod Proxy
pub mod SccacheDist
pub mod Tsmesh
pub mod Worker
pub mod Coordinator
pub mod Main
pub mod Farm
pub mod Spike
pub mod Wrapper
pub mod Tests
