-- ===== src/Lib.antt =====
-- Models of the SYSBREAK smart contracts, and the theorems that make them correct.
--
-- The repository holds CosmWasm contracts in Rust. A contract keeps its state in named items and
-- maps, and is called by a host: `instantiate` once, then `execute` with a message, and `migrate`
-- when its code is replaced. A handler reads and writes the storage, and answers with messages
-- that the host sends on (here, transfers of coins and the notice of a sent NFT) and with attributes. The host drops the
-- writes of a call that ends in an error or a panic. The contracts do not call one another.
--
-- Base (Numbers, Results, Texts, Maps, Order, Prefixes, Paging, Decimal, Numerals, Separators, Lists)
-- holds what all models share: tests and checked arithmetic on natural numbers with the bound of
-- each width written out, outcomes with errors and panics, texts as lists of bytes, storage maps as
-- association lists in the order of their keys, how a client lists a map page by page, decimal
-- notation, and where a text with separators can be cut. Host holds what a contract is called with and what it
-- answers.
--
-- Bridge models sysbreak-credit-bridge/src. State: state.rs, error.rs and the messages of msg.rs.
-- Helpers: helpers.rs. Treasury, Withdraw, Admin and Query: the handlers and queries of
-- contract.rs under the names that they have there; `execute_withdraw` is composed of the parts
-- that its comments number. Contract: `instantiate`, `migrate`, and the dispatch of lib.rs. Trace
-- states the histories of calls, and Induction and Frame the rules by which theorems about them
-- are proved; the other modules below Bridge are about the limits, replay, amounts, the
-- signed text, settings and roles.
--
-- Dao models sysbreak-corporation-dao/src. State: state.rs, error.rs and the messages of msg.rs
-- that change state. Helpers: helpers.rs. Members, Proposals, Execution and Payouts: the handlers
-- of contract.rs under the names that they have there; the long match of
-- `execute_execute_proposal` is one function for each kind of proposal. Query: the queries.
-- Contract: `instantiate`, `execute` and `migrate`. Trace states the histories of calls, with
-- `migrate` as a step; Votes, Steps, Migration and Induction say what the calls and the migration
-- do to proposals and votes, Outcomes says what each kind of proposal is meant to do, and the other
-- modules are about counting, finality, voting, decisions, members, claims, fees and the vote
-- status.
--
-- Items models sysbreak-item-nft/src, and Achievements models sysbreak-achievement-nft/src. In both,
-- State: state.rs, error.rs and the messages of msg.rs that change state. Helpers: helpers.rs. Mint
-- (mints, batches and burns), Transfer (transfers and approvals), Admin (settings and roles) and
-- Query: the handlers and queries of contract.rs under the names that they have there. Contract:
-- `instantiate`, `migrate`, and the dispatch of lib.rs. Trace states the histories of calls, of
-- all messages or of those that a test lets through (no burns, no transfers), with `migrate` as a
-- step. Steps says what each call does to the books (the tokens, their owners, the indices, the
-- approvals and the count), Induction carries what these changes keep over calls and histories,
-- and Index is about the loop of `migrate`. The other modules below Items are about the books
-- (Ledger), the numbers of tokens (Numbering, Reuse), owners (Ownership, Transfers), data
-- (Immutable), batches (Batch), settings (Settings) and pages of tokens (Listing); those below Achievements about the same,
-- about soulbound tokens (Soulbound), and about the check for duplicates (Once, Doubled).
--
-- How the models read the source. A handler is a function from its arguments and the storage to an
-- outcome with the new storage and the response. `Uint128`, `u64` and `u32` are natural numbers; a
-- checked operation fails past the bound, a saturating one stops there, and a plain `+=` past it
-- is a panic, since the workspace builds with overflow checks. A `Timestamp` is its nanoseconds.
-- Loops are recursions over a list or over the rounds that are left, so that no fuel is needed,
-- but for the client that lists pages, who asks as often as there are entries: the pruning loop
-- has the ten rounds of the source, and the loop over `oldest..=counter` one round for each index.
-- An address is a number, which `as_str` writes out. Errors carry numbers where the source carries
-- their decimal notation, and attributes carry the values that are written out.
--
-- The host's functions (validation and rendering of addresses, SHA-256, the check of signatures,
-- the balance that the bank reports) are arguments, with no assumption about them, but for the
-- fees of the DAO, where the balance is a `Uint128`.
--
-- Not modelled: JSON, the costs of a call, failures of a transfer after the handler has answered,
-- what a contract does that receives an NFT, and the prototypes in Solidity.
pub mod Base
pub mod Host
pub mod Bridge
pub mod Dao
pub mod Items
pub mod Achievements
