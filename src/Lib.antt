-- ===== src/Lib.antt =====
-- JOL Marketplace: the logic of the web client, the TypeScript under frontend/src.
--
-- The client keeps a cart and a consent decision in stores that survive a reload, talks to the
-- backend through a generated API client, and runs a middleware in front of every page. The backend,
-- next-intl, the browser's URL parser and the clock are not part of it: a call of the API is given by
-- its outcome (Http.Call), and the others are parameters.
--
-- Common      the texts, whole numbers, lists and JavaScript objects that the parts share
-- Json        values of type unknown, as JSON.parse gives them, and the reads that are made of them
-- Errors      frontend/src/lib/errors.ts; Errors/Privacy on what may leave the browser
-- Http        the result of a call of the API client, response.ok, unwrapOk
-- Rows        the shape map-then-filter by which the answers' lists are parsed
-- Cart        frontend/src/stores/cart-store.ts and frontend/src/hooks/use-cart.ts: Item (pure
--             helpers), Store (the state CartState and an operation for each action), Persist
--             (partialize, merge), Server (the calls serverAddItem, fetchServerCart and so on), Sync
--             (useAddToCart, useUpdateQuantity, useRemoveItem, syncWithServer); proofs in Quantities,
--             Invariant, Reload, Merging, Optimistic, Effects, Races; Abstract is what the store
--             promises its readers, a function from product ids to lines, and Refinement relates them
-- Consent     frontend/src/stores/consent-store.ts (Store, History) and the handlers of the gate, the
--             banner and the account page in frontend/src/components/client (Panel); proofs in Laws
-- Search      frontend/src/lib/search.ts: buildSearchQuery (Query), recent searches (Recent),
--             fetchSearch and fetchSuggestions (Answers), whose product schema is a parameter; the
--             palette of frontend/src/components/client/search/search-combobox.tsx: its state and
--             effects (Palette), its handlers, timer and answers (PaletteEvents); proofs in Consistency
--             and Race; the search page, search-interface.tsx beside it (Page), with its proofs in
--             Freshness and PageRuns
-- Routing     frontend/src/middleware.ts (Middleware), frontend/src/i18n/config.ts (Locale,
--             Protection), frontend/src/lib/security.ts (Headers, Nonce), the redirect guards of it and
--             of frontend/src/lib/auth.ts (Redirects); proofs in Ranking, Segments, Redirects, Gate
-- Admin       frontend/src/lib/admin.ts: Queues, Detail, Decisions; proofs in Audit; the moderation page
--             of the listings, listing-queue.tsx and confirm-dialog.tsx in
--             frontend/src/components/client/admin (Moderation); proofs in Turns, Answers and
--             ModerationRuns
-- Seller      frontend/src/lib/seller.ts: Answers; proofs in Connect; the documents of the onboarding,
--             frontend/src/components/client/seller/onboarding-provider.tsx and kyc-upload.tsx beside
--             it (Kyc); proofs in Previews and Uploads; its other steps, business-info-form.tsx
--             (Business), payout-setup.tsx and review-step.tsx, with the stepper (Wizard,
--             WizardEvents); proofs in Submissions and FieldErrors; listing-form.tsx (Listing), with
--             its proofs in Listing/Images, Listing/Moves and Listing/Limits
-- Checkout    frontend/src/lib/checkout.ts and the calls of
--             frontend/src/components/client/checkout/checkout-provider.tsx: Delivery, Orders,
--             Formats (with the registration numbers of lib/seller.ts); proofs in Laws; the provider's
--             state and the effect that creates the order (Flow), the handlers of the four steps in
--             frontend/src/components/client/checkout (FlowEvents); proofs in Requests and Fixed
-- Logging     frontend/src/lib/logger.ts (State, Identity, Queue), its redactObject and the scrubPii of
--             frontend/src/lib/sanitization.ts (Redaction), luhnValid (Luhn); proofs in Cleaning,
--             Delivery, Invariant and Runs
-- Session     frontend/src/lib/auth.ts (Calls) and the hooks of frontend/src/lib/api-client.ts (Hooks),
--             with the two readers of the CSRF cookie (Csrf); proofs in Readers and Laws; the login form,
--             frontend/src/components/client/login-form.tsx (LoginForm), with its proof in Locks
-- Forms       frontend/src/lib/validation.ts (Validation) and password-strength.ts beside it (Password)
-- Catalog     frontend/src/components/client/category-filters.tsx, the page of a category that reads its
--             URL, and the query to the backend in frontend/src/server/catalog.ts; proof in RoundTrip; the
--             page links of frontend/src/components/client/pagination.tsx (Pages), proof in Links
-- Gaps        frontend/src/lib/api/contract-gaps.ts (Registry) and
--             frontend/src/components/contract-gap-notice.tsx
-- Funeral     frontend/src/lib/funeral.ts, with its proof in Issues; the dialog of a request,
--             frontend/src/components/client/funeral/consultation-form.tsx (Consultation), with its
--             proof in Confirmed
-- Examples    the theorems at concrete inputs
--
-- How the code is carried over. A field or function someName is some_name here. A function that
-- throws returns a Result. An async function takes the outcome of its calls; a hook is split where it
-- waits, so that Cart/Races can put another mutation into the wait. A moderator's action returns what
-- it sends and logs. A component of React is a record of its state; a handler is a function on it that
-- includes the effects which the change sets off, and a run is a list of handlers' calls, timers and
-- answers in any order. Object maps are lists of entries in the order of their first writing. Texts are
-- lists of code points, and case folding is that of ASCII. Numbers are whole: a price stays a text, as
-- in the code, and JSON numbers are taken to be whole. Two functions recur on a number: the printing of
-- a natural number n, with n + 1, which is more than it has digits, and the redactions, with the levels
-- that the code itself allows (7 and 9) before it cuts the rest off. Objects of a payload refer to one
-- another through a heap, so that a payload may contain itself.
--
-- Not modelled: floating-point money (parseMoney, includedVat), rendering, the zod schemas, the
-- replacements of patterns in texts (parameters of the log), the conversion of pictures and the text
-- editor of a listing, the registration form, the drawer of the cart, the other moderation pages,
-- Stripe, the forwarding of cookies on the server, the browser's instrumentation, the Python backend.
pub mod Common
pub mod Json
pub mod Errors
pub mod Http
pub mod Rows
pub mod Cart
pub mod Catalog
pub mod Consent
pub mod Search
pub mod Routing
pub mod Admin
pub mod Seller
pub mod Checkout
pub mod Logging
pub mod Session
pub mod Forms
pub mod Funeral
pub mod Gaps
pub mod Examples
