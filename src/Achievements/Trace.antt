-- ===== src/Achievements/Trace.antt =====
-- The histories of the achievement NFT: an instantiation, then calls of `execute` that succeed, of the
-- messages that a test lets through, and replacements of the code by `migrate`. A call that fails or
-- panics leaves no trace, since the host drops it.
use sysbreak_trust.Base.{◌≡◌, ok, Bool, true, false}
use sysbreak_trust.Host.{MessageInfo, Deps, Response}
use sysbreak_trust.Achievements.State.{Storage, InstantiateMsg, ExecuteMsg}
use sysbreak_trust.Achievements.Contract.{fresh, instantiate, execute, migrate}

pub data Reach (lets : ExecuteMsg → Bool) : Storage → Type 0 where
  start :
      {s : Storage} {r : Response} (d : Deps) (msg : InstantiateMsg)
      → instantiate d msg fresh ≡ ok (s, r)
      → Reach lets s
  call :
      {s s' : Storage} {r : Response} (d : Deps) (info : MessageInfo) (msg : ExecuteMsg)
      → Reach lets s
      → lets msg ≡ true
      → execute d info msg s ≡ ok (s', r)
      → Reach lets s'
  upgrade : {s s' : Storage} {r : Response} → Reach lets s → migrate s ≡ ok (s', r) → Reach lets s'

-- What a storage can become by further calls and migrations.
pub data After (lets : ExecuteMsg → Bool) (s : Storage) : Storage → Type 0 where
  now : After lets s s
  more :
      {s' s'' : Storage} {r : Response} (d : Deps) (info : MessageInfo) (msg : ExecuteMsg)
      → After lets s s'
      → lets msg ≡ true
      → execute d info msg s' ≡ ok (s'', r)
      → After lets s s''
  renewed :
      {s' s'' : Storage} {r : Response}
      → After lets s s'
      → migrate s' ≡ ok (s'', r)
      → After lets s s''

-- All messages, all but the burning of a token, and all but the transfers.
abbrev pub any_message : ExecuteMsg → Bool
any_message msg = true

abbrev pub no_burn : ExecuteMsg → Bool
no_burn (ExecuteMsg.burn id) = false
no_burn _ = true

abbrev pub no_transfer : ExecuteMsg → Bool
no_transfer (ExecuteMsg.transfer_nft a id) = false
no_transfer (ExecuteMsg.send_nft a id msg) = false
no_transfer _ = true
