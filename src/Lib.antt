-- ===== src/Lib.antt =====
-- Timber: the client of a private, non-custodial direct-message app (frontend/src).
--
-- The client keeps its history in a local database and treats the relay as a transport that holds
-- sealed envelopes. A message, an edit, a reaction and a call's end are all envelopes: the thread is
-- what a fold over the opened envelopes of a conversation shows. The relay sends messages and receipts
-- over a socket; what is missed while the device is away is fetched by `backfill`, and receipts that
-- could not be told are swept. The view that the screens render from is a store of its own, filled
-- from the database. An open session ends by timers or by another tab, and a reload may resume it.
--
-- Files and the code they model:
--
-- - Prelude, with Prelude/Tests, Lists and Maps: Boolean tests, lists over the native numbers, and
--   dictionaries in order of insertion, as JavaScript's maps and sets are.
-- - Presentation: `presentMessages` of frontend/src/db/localStore.ts over the payloads of
--   frontend/src/types/message.ts. `Projection` is the pair of `visible` and `order`; `fold_message`
--   is one turn of the loop, `fold_payload` its switch. View, Find, Order, Authors, Retraction and
--   Chips hold the theorems; Inherited is the same with the reactions that make it throw.
-- - Database: the rows of frontend/src/types/db.ts, and IndexedDB as the record `Database` of what the
--   code relies on: rows under their key, and a cursor over `byConversation` in order of time.
--   Database/InMemory gives one over lists, which the runs use.
-- - Store: `putMessage`, `confirmMessage`, `markReceipt`, `markAck`, `markSeen`, `unreadCount` and the
--   two queries of unsent receipts, of frontend/src/db/localStore.ts. `Store` is the object stores and
--   the module's map `deferredReceipts`. Receipts, Progress and Unread hold the theorems.
-- - ChatStore: the state and the actions of frontend/src/store/chatStore.js. Append, Removal and Ticks
--   hold the theorems; Ticks compares it with Store.
-- - Envelope: `conversationKey` with its cache, `seal` and `open` of frontend/src/crypto/envelope.ts.
--   `Suite` is the curve, HKDF, the cipher, base64 and JSON; Plain gives one without secrets. Agreement
--   holds the theorem.
-- - Contacts: profiles, conversations and their keys, of frontend/src/db/localStore.ts. `Device` is
--   IndexedDB with its other stores and the ciphers, `Archive` what stands on it. An operation is an
--   `Action`: it returns or throws, and what it wrote stays; Throwing holds the rules for such calls.
--   Peers and Conversations hold the operations, Peers/Pins and Conversations/Deletion theorems, and
--   Columns and InMemory a device that runs.
-- - Threads: `messagesFor`, `composeMessage`, `pendingMessages`, `getMeta` and `setMeta` of the same file.
--   Saved is the saved messages and the search.
-- - Concurrency: `mapWithLimit` of frontend/src/lib/concurrency.js. Bounds and Results hold the
--   theorems.
-- - Sync: frontend/src/lib/sync.js. Backfill is `backfill`, Sweep `sweepReceipts`,
--   `acknowledgeDelivery`, `acknowledgeRead` and `markConversationRead`, Latch the coalescing of
--   `reconcileRealtime`. Conversations is `syncConversations`, with Pinned and Blocked; Inbox what goes to
--   the view, `refreshConversationList`, `loadConversation` and `loadOlder`, with Arrivals for
--   `receiveMessage` and Refresh and Received for the theorems; Outbox what is sent,
--   `prepareOutgoingPayload`, `sendEncryptedPayload` and `flushOutbox`, with Resent and Echo; Receipts is
--   `syncReceipts`. The database and the view are a pair there.
-- - Session: LockPolicy is frontend/src/lib/lockPolicy.ts, AutoLock the effect of
--   frontend/src/hooks/useAutoLock.js, Resume frontend/src/crypto/resume.ts, and Lifecycle
--   frontend/src/crypto/session.ts with frontend/src/lib/lockSession.js.
-- - Calls: `useCall` of frontend/src/hooks/useCall.js. Actions are the steps its handlers share, Stages
--   what each awaited call goes on with, Signals the frames of the socket, Events all that can happen.
--   A call's context is an object that several asynchronous functions hold, so contexts stand in a heap;
--   `waiting` are the functions at an await, and the event `settled` picks one of them. Awaits that
--   follow each other without a change of state are one. Streams, with its children, Candidates and
--   Screen hold the theorems.
-- - Vault: frontend/src/crypto/vault.ts, with the records of frontend/src/types/db.ts. Pin seals and
--   opens, Transfer is the package for another device, a text that is read into fields of any type, and
--   Registration frontend/src/crypto/registration.ts. `Device` is the vault store of this device.
--   Attempts, Recovery, Transfer/Moved and the children of Registration hold the theorems.
-- - Socket: the effect of frontend/src/hooks/useWebSocket.js that opens the socket and keeps it. `Link`
--   is what its references and timers hold. Operations, Single and Twice hold the theorems.
-- - Recovery: frontend/src/lib/sessionRecovery.ts, with `acceptSession` of frontend/src/lib/auth.js. What
--   may happen are events; Armed holds the theorem.
-- - AccountPrivacy: frontend/src/lib/accountPrivacy.js, the gate on analytics events; Silence holds the
--   theorem.
--
-- Conventions. Times are natural numbers, milliseconds but for what the relay writes; a time that may
-- be null or undefined is an Option, and `truthy` is JavaScript's test of it. A flag that the database
-- keeps as 0 or 1 is a Bool. Between two awaits the code runs alone, so an operation of the database
-- is one function on its state (a function of sync.js is one run with nothing else between its awaits),
-- and what may interleave is a sequence of events or of picks. A promise
-- that rejects is a result of its own, or `none`. `Array.prototype.sort` is stable.
-- `presentMessages` throws for a reaction whose emoji is a name that every object inherits: Presentation
-- is the fold where no message brings one, and Presentation/Inherited the function that may throw.
--
-- Fuel. `backfill` pages until a page is short or known, so its loop carries fuel: one unit for each
-- page, and more units than the history has messages are enough.
--
-- Parameters. IndexedDB, the ciphers, scrypt, base64 and the reading of a scanned code, WebRTC, the
-- socket, the requests to the relay and the reading of dates are not in the repository, and are
-- arguments of the definitions that use them, or answers that an event carries. What the relay answers
-- to a request for history is as `get_messages` of backend/src/routes/conversations.rs documents it.
-- What the vault gives to Session for an account without a PIN is an argument there.
--
-- Not modelled: the sealing of files, the recovery phrase, the signing of a profile and the safety
-- numbers (frontend/src/crypto/identity.ts; whether a profile is signed is a parameter of Contacts), the
-- start of the app (`bootstrap`) and the order in which a cycle of `reconcileRealtime` runs its parts, the
-- remote media, the bit rates and the words for a refused camera of a call, the reading of the socket's
-- frames (frontend/src/hooks/useWebSocket.js), requests and accounts (frontend/src/lib/api.js and the
-- rest of auth.js), notifications and the service worker; the React components,
-- which render; and the relay itself (backend), which is another program.
pub mod Prelude
pub mod Presentation
pub mod Database
pub mod Store
pub mod Session
pub mod ChatStore
pub mod Concurrency
pub mod Sync
pub mod AccountPrivacy
pub mod Calls
pub mod Vault
pub mod Envelope
pub mod Contacts
pub mod Threads
pub mod Socket
pub mod Recovery
