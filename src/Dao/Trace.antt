-- ===== src/Dao/Trace.antt =====
-- The histories of the corporation DAO: an instantiation, then calls of `execute` that succeed, and
-- replacements of the code by `migrate`. A call that fails or panics leaves no trace, since the host
-- drops it.
use sysbreak_trust.Base.{◌≡◌, ok}
use sysbreak_trust.Host.{Env, MessageInfo, Deps, Response}
use sysbreak_trust.Dao.State.{Storage, InstantiateMsg, ExecuteMsg}
use sysbreak_trust.Dao.Contract.{fresh, instantiate, execute, migrate}

pub data Reach : Storage → Type 0 where
  start :
      (d : Deps) (msg : InstantiateMsg) {s : Storage} {r : Response}
      → instantiate d msg fresh ≡ ok (s, r)
      → Reach s
  call :
      {s s' : Storage} {r : Response} (d : Deps) (env : Env) (info : MessageInfo) (msg : ExecuteMsg)
      → Reach s
      → execute d env info msg s ≡ ok (s', r)
      → Reach s'
  upgrade : {s s' : Storage} {r : Response} → Reach s → migrate s ≡ ok (s', r) → Reach s'

-- Calls of `execute` that succeed, from one storage to a later one.
pub data Later (s : Storage) : Storage → Type 0 where
  now : Later s s
  next :
      {s' s'' : Storage} {r : Response} (d : Deps) (env : Env) (info : MessageInfo)
      (msg : ExecuteMsg)
      → Later s s'
      → execute d env info msg s' ≡ ok (s'', r)
      → Later s s''

pub Reach-Later : {s s' : Storage} → Reach s → Later s s' → Reach s'
Reach-Later h now = h
Reach-Later h (next d env info msg l e) = call d env info msg (Reach-Later h l) e
