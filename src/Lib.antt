-- ===== src/Lib.antt =====
-- fikua-lab-issuer: an issuer of verifiable credentials (OID4VCI) with a status list.
--
-- The issuer is a resource server. An operator triggers an issuance, which makes a record and a
-- credential offer; a wallet follows the offer to an authorization server of its own, comes back with
-- an access token that is bound to a DPoP key, and asks for the credential. A relying party fetches
-- the status list, in which the operator can revoke the credential.
--
-- The files, and the code under internal/ that each one models:
--   Prelude             tests, lists, 64-bit integers and maps, which the other files share
--   Result              oauth2/error.go, and methods that return (T, error) over a state: Exec; and
--                       rules on what a chain of methods raises (Raises), establishes (Ensures) and
--                       leaves whether it fails or not (Leaves)
--   Platform            what the program uses of Go's library and of jwx, as a record of functions
--   Session             session/store.go: nonces and credential offers
--   Oauth2              oauth2/dpop.go: Jti (JTIStore.Accept), Fold (equalFoldASCII), Dpop
--                       (ValidateDPoPProof, ComputeATH, DPoPThumbprint, htuMatches)
--   Accesstoken         accesstoken/verifier.go: Verify, keySet, isRevoked
--   Oid4vci             oid4vci: Messages (offer.go, request.go, response.go), Proof (proof.go),
--                       Metadata (metadata.go)
--   Statuslist          statuslist: bitstring.go; Token (token.go, compress.go, crypto/x5c.go)
--   Sdjwt               sdjwt: Disclosure (disclosure.go), Builder (builder.go)
--   Mdoc                mdoc: Item (element.go, item.go), Cose (cose.go), Builder (mso.go, builder.go)
--   Registryclient      registryclient: Types (types.go), Client (client.go), Cache (cache.go)
--   Credentialconfig    credentialconfig: builder.go; Labels (label.go, scalar.go)
--   Crypto              crypto: Keys (signingkey.go), Loader (keyloader.go, walletprovider.go)
--   Issuance            issuance: Record, Interface (recordstore.go, statusstore.go), Store (store.go),
--                       Memory (the store as the service's stores), Postgres (postgres_store.go), State,
--                       Formats and Service (service.go), ListSize, Listing (list.go)
--   Httpapi             httpapi: Responses (writeJSON, writeOAuthError, cors.go), Params (parseIntParam,
--                       extractAccessToken), Handlers (handlers.go, issuance_handlers.go)
--   Config              config/config.go
--   Startup             cmd/issuer/main.go: the key, the store and the order of the start
--   Tests               a small world, and the results applied in it
--
-- The state of the service is one record, Service: the session store, the store of the issuances, the
-- set of DPoP proof ids, the verifier's caches, and the cached status list token. A handler is a
-- method of type Exec: it returns a value or an error and the state that it leaves, on either way out.
-- A method of one part runs in the whole by zoom (in_sessions, in_issuances, in_jtis, in_tokens). Each
-- store operation holds its mutex in the code, so it is one step; a request is a chain of such steps,
-- a sequence of requests is served one after the other (Issuance/Service/Requests), and interleavings of
-- several requests are only followed for the nonces, over sequences of calls.
--
-- Conventions. A time is a number of nanoseconds since Go's zero time; one reading of the clock serves
-- a request, but for the ones after a fetch, which may take seconds: Upstream holds what the clock reads
-- after the fetches of the verifier and between them. Drawn random tokens, the order of a range over a Go map, sort.Slice and the format of a
-- timestamp are arguments. What an HTTP fetch would answer is an argument, Upstream. Go's int and int64
-- are integers whose sums and products are wrapped to 64 bits. A panic is the result none of the pure
-- code and an error of a method. All recursion is structural; there is no fuel.
--
-- An endpoint of Httpapi is a function from a request and a service to an answer, or a panic at which the
-- server drops the connection, and the service after it. The PostgreSQL store works on tables with the
-- constraints of db/schema.sql; which statements fail is a parameter, and a transaction that fails
-- changes nothing. The catalogue changes by ticks of a background goroutine, each one step.
--
-- Not modelled: the registration of routes with net/http and the decoding of paths and queries; the
-- static Swagger page and web UI; logging; what happens while several requests run at once, except for
-- the nonces.
pub mod Prelude
pub mod Result
pub mod Platform
pub mod Session
pub mod Oauth2
pub mod Accesstoken
pub mod Oid4vci
pub mod Statuslist
pub mod Sdjwt
pub mod Mdoc
pub mod Registryclient
pub mod Credentialconfig
pub mod Crypto
pub mod Issuance
pub mod Httpapi
pub mod Config
pub mod Startup
pub mod Tests
