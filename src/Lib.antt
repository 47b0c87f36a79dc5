-- ===== src/Lib.antt =====
-- Models and proofs for the Fofu backend, a FastAPI service over a relational database.
--
-- The program's parts that are modelled, and the file for each:
--   RateLimit: app/rate_limit.py, the limiter of requests. Bucket has the limiter, Window the
--     sliding window it stands for.
--   Push: app/services/push.py, device registration, the outbox of notifications and the worker's
--     transactions. Rows has the tables (app/models.py) and settings (app/config.py), Cancel the
--     retirement of devices and deliveries, Register `register_device`, Enqueue
--     `enqueue_message_notifications`, Claim `claim_push_deliveries` and `_claim_is_current`,
--     Finish `_finish_delivery`, `dispatch_claimed_delivery` and the purge, Sender `APNsSender`.
--     Steps has each transaction as a step between tables; the other files are for proofs.
--   Utils: app/utils.py, `normalize_locale` and `localized` in Locale, `encode_cursor` and
--     `decode_cursor` in Cursor; Text has the operations on texts. The other files are for proofs.
--   Cart: app/services/cart.py with app/schemas/cart.py. Rows has the tables and errors, Service
--     the search for the current cart, Change the three operations that change it, Compatibility
--     `_compatibility`, Serialize `serialize_cart`, OrderCard `build_order_card`, Prepare
--     `prepare_order_card`, Requests how the handlers of app/api/cart.py load a cart and change
--     it. The other files are for proofs.
--   Auth: app/services/auth.py, app/security.py, app/google_identity.py, app/dependencies.py and
--     app/api/auth.py. Rows has the tables, settings and errors, Tokens the access tokens, Revoke
--     the end of sessions, `revoke_sessions` among them, Issue `issue_session`,
--     `create_anonymous_user`, `login_user` and `rotate_refresh_token`, Register
--     `_claim_guest_upgrade` and `register_user`, Identity `verify_google_id_token`, Google
--     `login_google_user`, Principal `get_optional_principal` and the requirements, and Handlers
--     the handlers of app/api/auth.py. The other files are for proofs.
--   Messaging: app/services/messaging.py with app/schemas/messaging.py. Rows has the tables and
--     responses, Send `send_message` and `mark_conversation_read`, Read `list_messages` and
--     `_conversation_response`, Inbox `list_conversations`, Create `create_conversation`. The
--     other files are for proofs.
--   Base: what the parts share: Boolean tests, lists, the rows of tables, and calls that may
--     raise.
--
-- How the parts interact: registration asks the limiter; the cart and the order card use the
-- locales; messages enqueue deliveries, and a session's end, in Auth, retires its devices in Push.
-- Auth and Messaging keep the tables of Push inside their own; each request of a client comes with
-- the principal that Auth finds for its token.
--
-- State: a table is a list of records, a uuid is a number, and a time is a number of microseconds.
-- A query is a search or a selection, an UPDATE changes the rows that its condition selects, and
-- an operation takes the tables and returns them with its result. The session does not flush by
-- itself and rolls back when an error is raised, so that an error leaves the tables as they were.
-- A transaction is one step. A request that changes a cart loads it in a query of its own, so that
-- the cart is an argument of the operations in Cart/Change and Cart/Locking; Cart/Requests says
-- what their check of the version refuses when the cart is loaded before another request's commit
-- or after it. While a send waits for Apple, other sends use the cache of the token (Push/Sender).
-- The clock of the limiter is read before its lock is taken, so that the order of the readings is
-- a hypothesis of the theorems on it. Clocks, new ids, secrets and the rows that other workers
-- have locked are arguments. Where a unique constraint decides a race, the operation takes the
-- tables that its first query sees and those that its statements change. The card that an order
-- keeps as JSON is taken to be read as it was written.
--
-- Parameters: functions of the language that follow Unicode tables (strip, casefold, int),
-- digests, password hashes, the encoding of tokens (PyJWT) and base64, HTTP and JSON, the
-- database's ILIKE, google-auth and the check of an email address (pydantic).
--
-- Bounds: the loops run over lists. The text of a number takes a round for each digit, and is
-- given one round more than the number, which is enough since each round divides it by ten or
-- more. A client that reads a conversation page by page, a use of the cursors that the
-- repository does not contain, is given one page more than there are messages, and the tables do
-- not change while it reads.
--
-- Not modelled: the HTTP client of the sender and the worker's polling loop; what the database makes
-- of a commit of a cart that another request has changed since it was loaded; the catalog, owners,
-- administration, profiles and QR codes; the HTTP layer but for Auth and the loading of
-- carts; HTML, media files, migrations, seeds and scripts.
pub mod Base
pub mod RateLimit
pub mod Push
pub mod Utils
pub mod Cart
pub mod Auth
pub mod Messaging
