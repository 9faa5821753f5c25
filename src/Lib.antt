-- ===== src/Lib.antt =====
-- LowBatteryTown: two strangers meet for a few minutes of anonymous chat. The server is edge/src,
-- the visitor's page frontend/lib/lbt.
--
-- The program. A Durable Object (edge/src/townObject.ts) holds every guest's sockets and runs
-- events, one at a time but for its awaits; it dispatches frames to the class Town (edge/src/town.ts), which keeps its
-- state in TownStore (edge/src/store.ts) and follows the pure rules of edge/src/rules.ts,
-- companion.ts, jojo.ts and avatars.ts. An alarm sweeps: it ends chats that are over or abandoned,
-- drops absent waiters and pairs the rest. Reports are reviewed in moderation.ts; unlocks.ts sells
-- codes; token.ts makes and checks the tokens by which guests are known. On the page,
-- liveTransport.ts keeps one connection to the server and turns its frames into events, and the
-- store of sessionStore.ts applies these to what the screens show, and asks the transport for what
-- the visitor does.
--
-- The files.
--   Prelude   lists, Boolean tests, association lists, strings as code points, JSON values.
--   Guest     guest ids: the companion's, an AI's (`ai:jojo:` and a guest id), any other.
--   Rules     Cleaning (cleanText), Contacts (maskContacts), Profile (parseProfile,
--             companionProfile, publicProfile), Pairing (compatibility, pickPartner), Hours
--             (parseOpenHours, isOpen).
--   Avatars   avatarPair.
--   Store     State is the record of the values under TownStore's keys; Presence, Queue, Chats,
--             Blocks and Limits have its methods as functions of that record.
--   Town      World is what a Town reads and writes, with what its hooks were handed; Exec the
--             methods' monad, in which a throw keeps what was written before; Session, Lobby,
--             Companion, Jojo, Chat and Sweep the methods; Hoare and Sound the invariant and
--             lemmas about it, method by method.
--   Server    Dispatch (webSocketMessage, dispatch, report, setMaintenance, moderate), Events (the
--             histories of events), Alarm (ensureAlarm), Admin (the administrator's calls, the
--             start-up), Sockets (fetch, closeStaleSockets), Moderation (moderateReport); Sound
--             and Reach speak of all histories.
--   Unlocks   normalizeCode, redeemCode, revokeCode, verifyUnlock on the table's rows.
--             Create: newCode, createCodes and the form; Fresh speaks of new codes.
--   Tokens    token.ts; Base64, Laws and Genuine are about it.
--   Client    the page. State: types.ts, transport.ts and what the store keeps; Clock and Handle:
--             `handle` of sessionStore.ts, with the timers; Actions: its other actions; Run: all
--             of them in any order. Consistent, Screens, Over, Lines, Typing, Sending and Phases
--             speak of such runs. Connection and Live: liveTransport.ts, and Frames its
--             mapServerFrame; TownTime is townTime.ts and Unlocked unlocks.ts. Live/History,
--             Trying, Outbox, Waiting and Delivery speak of any course of events, and Understood
--             of the frames that Server/Wire renders as the server does.
--   Settings  config.ts: the numbers of the environment and townConfig.
--   Stats     dailyStats.ts: recordConversation, listDailyTrends.
--   Topics    topics.ts: ideasFor, publicTopics.
--   Persona   jojo.ts, createJojoReply: the fixed answers and the tone.
--   Examples  concrete inputs; Interleaved is a run in which an event starts a conversation while a
--             hook is awaited.
--
-- How it is modelled. Times are milliseconds, not negative; `now - x` stops at 0 only where the
-- result is compared with such a time. One event reads the clock once. Ids are numbers, the k-th
-- drawn being `new_id k`; that two draws differ is a hypothesis (crypto.randomUUID). Regular
-- expressions, the local time of day, hashes, signatures and calendar arithmetic are parameters. The
-- reply of the AI is awaited while other events run: sendMessage is split there, and what follows
-- the await is `finish_reply`, an event of its own. The hooks that write to D1 or raise an alert
-- (onConversationStarted, saveReport, onLonelyWaiter) are awaited too: `awaited` lets the other
-- events change the town, by the parameter `meanwhile`, and then succeeds or throws, by `rejects`.
-- What is then asked of those events is `IsCalm` in Town/Sound/Waits: they keep the invariant and
-- start no conversation (run-IsCalm in Server/Sound takes a history of events for `meanwhile`). The
-- second condition is not met by every run of the program: pairWaiting goes on with the pool that it
-- read before the await, and a conversation started meanwhile can be started again; the run in
-- Examples/Interleaved is such a one. Awaits of the object's own storage let no event run, as the
-- platform documents.
-- On the page, a call of the transport is recorded and emits nothing before the caller has ended; a
-- timer is what it is due for, and runs when an input says so. Sockets are the browser's: it opens
-- one that is connecting and closes one that is not gone. Base64, UTF-8, JSON and Web Crypto are
-- parameters of the tokens.
-- No model needs fuel: loops run over lists that were read before them.
--
-- Not modelled: rendering of times as text, the order in which votes are replayed, the tokens of
-- unlocks.ts, the wording of the rules in jojo.ts, the feed and the tables of topics.ts, and the
-- files that are SQL, HTTP or HTML: index.ts, adminPage.ts, adminCompanion.ts, topicIssues.ts,
-- reports.ts, feedback.ts, ownerAlert.ts, security.ts; on the page, the HTTP calls of the transport,
-- the scripted demo, and the scenes, music and legacy rooms of the rest of the client.
pub mod Prelude
pub mod Guest
pub mod Rules
pub mod Store
pub mod Client
pub mod Avatars
pub mod Town
pub mod Server
pub mod Unlocks
pub mod Tokens
pub mod Settings
pub mod Stats
pub mod Topics
pub mod Persona
pub mod Examples
