-- ===== src/Lib.antt =====
-- A verification library for the core of the LiveOPS backend, a NestJS service that runs live
-- productions. The services keep their state in maps of their own or in a database that they reach
-- through Prisma; controllers and websocket gateways call them, and events carry the results on.
--
-- Parts, with the source that they model:
--   Prelude       Shared: outcomes of methods that throw (Effect), JavaScript's Map and Set (Map), a
--                 database table as a record of operations and laws (Table), lists (Lists), Boolean
--                 tests (Tests).
--   Productions   src/productions: Transition is the status machine (production-state.machine.ts),
--                 State is updateState, validateEngineConnection and toggleRehearsal
--                 (productions-state.service.ts). Transition/Legal and State/Update are the proofs.
--   Presence      src/websockets/presence.service.ts: the four maps and the grace timers as one state,
--                 each method an operation, a timer's expiry an operation of its own. Invariant,
--                 Upkeep, Members and Grace are the proofs.
--   Automation    src/automation: Condition is automation-condition.evaluator.ts; Engine is
--                 executeActions of automation-engine.service.ts, as runs that triggers start and
--                 settling actions drive; Dispatch is handleEvent, handleHardwareTrigger and
--                 executeRuleById; Timing is checkTimeTriggers; Executor is
--                 automation-action.executor.ts.
--   Guards        src/common/guards: Request is what both guards read, Permissions is
--                 permissions.guard.ts, Roles is roles.guard.ts.
--   Auth          src/auth: Store is the state and token.service.ts, Login is login of
--                 auth.service.ts, Refresh is refresh, logout and sessions.service.ts, TwoFactor is
--                 two-factor.service.ts and jwt.strategy.ts, Recovery is password.service.ts and
--                 email-verification.service.ts, Register is register of auth.service.ts, OAuth is
--                 oauth.service.ts, Totp is src/common/utils/totp.ts with the encoding of secrets in
--                 Totp/Encode.
--   Timeline      src/timeline/timeline.service.ts: the calls on blocks; Single and Order are the
--                 proofs about calls one after another, Race about two that interleave.
--   Gateway       src/websockets/gateways/core.gateway.ts: which sockets are in which rooms, by
--                 every message that joins or leaves one, and the calls of Presence. The proofs are in
--                 Confined.
--   Obs           src/obs: the three maps of obs-state.store.ts; Manager is obs-connection.manager.ts
--                 with the listeners of obs-event-handler.ts for a closed socket and the heartbeat.
--   Vmix          src/vmix/vmix-connection.manager.ts: connections; Poll is what an answer or a failure
--                 does, ApiUrl the address. Sustained states when a connection counts as lost.
--   Sports        src/sports/sports.service.ts: matches, and the intervals that are their clocks.
--   Guest         src/guest/guest.service.ts: invitations, slots and taking a guest to program.
--   Social        src/social/social.service.ts: messages of viewers, and polls in Voting, where
--                 a vote is its read and its write. Words, Shown and Polls are the proofs.
--   FieldCipher   src/common/crypto/field-cipher.service.ts: tokens of encrypted fields.
--   Intercom      src/intercom/intercom.service.ts: templates, commands and their notifications.
--   Rbac          src/common/constants/rbac.constants.ts: permissions and standard roles.
--
-- Methods are functions of a state that return an outcome and the next state; what was written
-- before a throw stays written. A method is one step unless said otherwise: presence and the
-- engine's guard run between awaits, Engine splits a run at its actions, Timeline a start at its
-- database steps, Social a vote, Obs.Manager and Vmix a connection at its answers. In these two an
-- instance is an object on a heap, which a timer or a request that is under way refers to after the
-- maps have let go of it. Their timers and intervals, and those of Sports, are handles in a table
-- and their expiry is a step. Recursion is structural throughout, so there is no fuel.
--
-- Parameters, since their code is not in the repository: Prisma (a Table, whose laws state what the
-- calls do to the rows; list_table meets them), bcrypt, JWT, HMAC, AES, UTF-8, the answers of OBS
-- and vMix, JavaScript's numbers in conditions, its regular expressions and case mapping, the clock
-- and random values (arguments). Times are milliseconds as natural numbers.
--
-- Constructors and functions keep the names of the source in snake case.
--
-- Not modelled: controllers, the other gateways, modules, DTO validation; of the OBS connections
-- what bootstrapInitialState reads, the listeners for scenes and audio, and the polls of stats and
-- screenshots; of vMix sendCommand, getVmixState and XML; of sports seedFromOverlay and the format
-- of the time; NDI, streaming servers and hardware, AI, chat, Restream and analytics, and the other
-- services beside those named, most of which are calls of the database or of such a server.
pub mod Prelude
pub mod Auth
pub mod Automation
pub mod FieldCipher
pub mod Gateway
pub mod Guards
pub mod Guest
pub mod Intercom
pub mod Obs
pub mod Presence
pub mod Productions
pub mod Rbac
pub mod Social
pub mod Sports
pub mod Timeline
pub mod Vmix
