-- ===== src/Host.antt =====
-- What a contract is called with and what it answers (cosmwasm-std): the block, the caller and the
-- coins that it sent, the host's functions, and the messages and attributes of a response.
-- The host's functions are values of `Deps`, so that a model takes them as arguments.
use sysbreak_trust.Base.{ℕ, Bool, Option, List, String, Text}

-- A validated address, by its number in the order of the storage's keys. The contracts compare
-- addresses, store them, and write them out by `Addr::as_str`.
abbrev pub Addr : Type 0
Addr = ℕ

pub record Coin : Type 0 where
  pub denom : Text
  pub amount : ℕ

pub record MessageInfo : Type 0 where
  pub sender : Addr
  pub funds : List Coin

-- `time` is in nanoseconds.
pub record Env : Type 0 where
  pub time : ℕ
  pub contract : Addr

-- `none` is an error of the call. `secp256k1_verify` takes the hash, the signature and the key.
pub record Deps : Type 0 where
  pub addr_validate : Text → Option Addr
  pub as_str : Addr → Text
  pub secp256k1_verify : Text → Text → Text → Option Bool
  pub sha256 : Text → Text
  pub query_balance : Addr → Text → Option ℕ

-- The errors of the library that the contracts pass on by `?`.
pub data StdError : Type 0 where
  not_found : StdError
  generic_err : StdError

-- The messages that the contracts send: `BankMsg::Send` with one coin, and `WasmMsg::Execute` with
-- a `Cw721ReceiveMsg`.
pub data Message : Type 0 where
  bank_send : (to_address : Addr) → (amount : Coin) → Message
  wasm_receive : (contract_addr sender : Addr) → (token_id msg : Text) → Message

-- The value of an attribute: a word of the source, or a value that the source writes out.
pub data Value : Type 0 where
  word : String → Value
  text : Text → Value
  number : ℕ → Value
  address : Addr → Value
  flag : Bool → Value

pub record Response : Type 0 where
  pub messages : List Message
  pub attributes : List (String × Value)
