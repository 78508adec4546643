-- ===== src/Lib.antt =====
-- Verification of the authorization server eri.
--
-- The server is an OAuth 2.1 provider with a PostgreSQL database. Its configuration (src/config.rs)
-- declares a registry of clients, against which a request to authorize is validated (src/oauth.rs);
-- a client that is not declared may be read from the metadata document at its identifier
-- (src/cimd.rs). A user signs in with Google (src/google.rs) and consents in a browser transaction
-- (src/browser.rs), and leaves by a logout challenge (src/logout.rs). What was approved is stored
-- as an authorization code, which is exchanged for tokens, and whose refresh tokens are rotated
-- within a family (src/credentials.rs). The endpoints (src/web.rs) read a request, call the store,
-- and answer with the tokens (src/tokens.rs) or with what is known of the user.
--
-- Modules:
--   Common       shared helpers: byte strings, tests, results, ordered sets (`BTreeSet`), hash maps,
--                `i64`, characters, the splitting of texts, and the rows of a table
--   External     the functions of other crates, as parameters with the laws that are used
--   Cimd         src/cimd.rs: Binding (documents, leases and `CimdSecurityBinding`), ClientId
--                (`validate_client_id`), Address (`public_ip`), Document (`validate_document`), Ttl
--                (`cache_ttl`) and Fetch (the fetcher with its cache, flights and permits; its
--                steps are Fetch/Machine)
--   Google       src/google.rs: Claims (`validate_claims`), Keys (`key` and its cache) and Login
--                (`exchange_code`, `verify_id_token`)
--   Keys         src/keys.rs: `load`, `verify` and `verify_id_logout`; Published and Verified on these
--   Config       src/config.rs: Types, Registry (`authorization_registry`) and Valid on `validate`
--   Oauth        src/oauth.rs: Pkce, Redirect, Client, Registry (`ClientRegistry`), and Policy
--                (`validate_pending_parts`, `approve`, `pre_authorizes`)
--   Transaction  how a transaction ends: committed, left, or committed with an error
--   Store        the tables of migrations/, and Store/Evolution, how they may change
--   Credentials  src/credentials.rs: Issue (sessions and codes), Exchange (`exchange_code_bound` and
--                its callers), Refresh (`rotate_refresh_bound`, `revoke_refresh`, `logout`)
--   Identity     the upsert of src/database.rs for an identity that Google has verified
--   Browser      src/browser.rs: Google (until the answer), Login (`complete_callback_bound`), Consent
--                (`approve` is `approve_consent`), and Ended, Growth, Approval, Once, Revalidation
--                and Consented on these
--   Logout       src/logout.rs: `LogoutStore`, and Finish, Closed and Confirmed on it
--   Tokens       src/tokens.rs: the claims, and `issue`
--   Web          src/web.rs: Form (forms, cookies and headers), Percent (`valid_percent`), Escape,
--                Provider (`resolve_client`), Token (`token`, `revoke`) and UserInfo (`userinfo`)
--   Steps        the calls as steps on the database, and their sequences
--   Tests        runs on concrete inputs
--
-- The names of functions and types are those of the code. Text is a list of bytes, which the code
-- compares byte by byte. Identifiers (UUIDs) are numbers, times are microseconds, and the readings
-- of the clocks, the random draws and what other calls commit while a call waits for its locks
-- are the record `Ambient`, so that each call is a function. A call reads some rows first and then
-- again under the lock on its session; between the two, `others` stands for any calls of others,
-- and `IsFair` says that these are steps of the program. The parts of a transaction that runs under
-- the lock are one step, and where a transaction takes several locks, they are taken together. A
-- chain of fallible queries is a do block over `Outcome`, which tells a failure that leaves the
-- database from one that commits first.
--
-- The loops of the code go through a list, as structural recursions, apart from that of
-- `valid_percent` over the positions of a text. It takes the length and one as fuel, and is proved
-- to end within that; so is `read_text`, the reader of references that describes `escape`.
--
-- Parameters are: the functions of other crates (`Libs`: digest, base64, URLs, JSON, forms); what
-- the resolver and the transport answer to a fetch of a document or of keys; the reading of tokens
-- and keys (`Jwt`, `Decoder`, `Rsa` with the files), and the making of a signature (`Signer`). The
-- only laws on the digest are its size and that of its encoding (`EncodesDigests`): that different
-- secrets have different digests is nowhere assumed, as the code itself looks rows up by digest
-- alone. The token endpoint takes what the fetcher answers as an argument (`fetched`), and the user
-- information endpoint the verification of a token (`verify`).
--
-- Not modelled: the connection to the database and its errors, apart from those of repeated keys and
-- of rows that are missing; CHECK constraints, foreign keys, and the UNIQUE columns that an update
-- sets (`claim_hash`) or that belong to identities; the transport of requests (DNS, TLS and HTTP),
-- which is input and output; the reading of the configuration file and the defaults of its fields;
-- and of src/web.rs the handlers of the browser flow (authorization, Google's redirect and callback,
-- consent, logout), the pages and the routes.
pub mod Common
pub mod Cimd
pub mod External
pub mod Oauth
pub mod Transaction
pub mod Store
pub mod Credentials
pub mod Identity
pub mod Browser
pub mod Logout
pub mod Tokens
pub mod Google
pub mod Keys
pub mod Config
pub mod Web
pub mod Steps
pub mod Tests
