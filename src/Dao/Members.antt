-- ===== src/Dao/Members.antt =====
-- The handlers of the corporation DAO for corporations and their members (contract.rs).
use sysbreak_trust.Base.{
  ℕ, ◌+◌, Bool, true, false, not, ◌&&◌, some, List, [], ◌∷◌, String, Text, ltb, leb, is_zero,
  if◌then◌else◌, Result, ok, ◌>>=◌, ◌>>◌, fail_if, or_err, or_panic, fits, checked_add, checked_sub,
  u32_max, u64_max, has, save, remove, number_key, pair_key,
}
use sysbreak_trust.Host.{
  Addr, Deps, Env, MessageInfo, Response, Value, word, text, number, address, not_found,
}
use sysbreak_trust.Dao.State.{
  Corporation, CorporationStatus, dissolved, JoinPolicy, open_to_all, invite_only, founder, member,
  MemberInfo, Storage, ContractError, std, unauthorized, already_member, by_invite_only,
  no_pending_invite, corporation_full, insufficient_creation_fee, zero_amount, founder_cannot_leave,
  overflow, Outcome,
}
use sysbreak_trust.Dao.Helpers.{
  load_config, validate_addr, load_corporation, assert_active, assert_not_dissolved, assert_member,
  assert_officer_or_founder, is_founder, validate_funds, validate_funds_min, reject_funds,
}

-- A response with no message.
abbrev pub attributes_only : List (String × Value) → Response
attributes_only attributes = record { messages = []; attributes = attributes }

abbrev pub is_open_to_all : JoinPolicy → Bool
is_open_to_all open_to_all = true
is_open_to_all invite_only = false

unfoldable pub execute_create_corporation :
    Env → MessageInfo → Text → Text → JoinPolicy → Storage → Outcome
unfolding validate_funds
execute_create_corporation env info name description join_policy s = do
  config ← load_config s
  paid ← validate_funds info config.denom config.creation_fee insufficient_creation_fee
  count ← or_err (std not_found) s.corp_count
  corp_id ← or_panic (fits u64_max (count + 1))
  let corp : Corporation = record {
    id = corp_id;
    name = name;
    description = description;
    founder = info.sender;
    join_policy = join_policy;
    quorum_bps = config.default_quorum_bps;
    voting_period = config.default_voting_period;
    max_members = config.default_max_members;
    member_count = 1;
    treasury_balance = 0;
    created_at = env.time;
    status = CorporationStatus.active;
  }
  let member_info : MemberInfo = record { role = founder; joined_at = env.time }
  ok (
    record s {
      corp_count = some corp_id;
      corporations = save corp_id corp s.corporations;
      members = save (corp_id, info.sender) member_info s.members;
    },
    attributes_only (
        ("action", word "create_corporation")
        ∷ ("corp_id", number corp_id)
        ∷ ("name", text name)
        ∷ ("founder", address info.sender)
        ∷ []),
  )

-- The end that `execute_join_corporation` and `execute_accept_invite` share, from the test of the
-- capacity on; `rest` is the storage that the new entries are written to.
unfoldable pub admit : Env → Addr → ℕ → Corporation → String → Storage → Outcome
admit env sender corp_id corp action rest = do
  fail_if (leb corp.max_members corp.member_count) (corporation_full corp.max_members)
  count ← or_panic (fits u32_max (corp.member_count + 1))
  let member_info : MemberInfo = record { role = member; joined_at = env.time }
  ok (
    record rest {
      corporations = save corp_id (record corp { member_count = count }) rest.corporations;
      members = save (corp_id, sender) member_info rest.members;
    },
    attributes_only
        (("action", word action) ∷ ("corp_id", number corp_id) ∷ ("member", address sender) ∷ []),
  )

unfoldable pub execute_join_corporation : Env → MessageInfo → ℕ → Storage → Outcome
unfolding load_corporation assert_active admit
execute_join_corporation env info corp_id s = do
  corp ← load_corporation s corp_id
  assert_active corp
  fail_if (not (is_open_to_all corp.join_policy)) by_invite_only
  fail_if (has (corp_id, info.sender) s.members) (already_member corp_id)
  admit env info.sender corp_id corp "join_corporation" s

unfoldable pub execute_invite_member : Deps → MessageInfo → ℕ → Text → Storage → Outcome
unfolding reject_funds load_corporation assert_active assert_officer_or_founder
execute_invite_member d info corp_id invitee s = do
  reject_funds info
  corp ← load_corporation s corp_id
  assert_active corp
  inviter ← assert_officer_or_founder s corp_id info.sender
  invitee_addr ← validate_addr d invitee
  fail_if (has (corp_id, invitee_addr) s.members) (already_member corp_id)
  ok (
    record s { invites = save (corp_id, invitee_addr) true s.invites },
    attributes_only (
        ("action", word "invite_member")
        ∷ ("corp_id", number corp_id)
        ∷ ("invitee", address invitee_addr)
        ∷ []),
  )

unfoldable pub execute_accept_invite : Env → MessageInfo → ℕ → Storage → Outcome
unfolding reject_funds load_corporation assert_active admit
execute_accept_invite env info corp_id s = do
  reject_funds info
  corp ← load_corporation s corp_id
  assert_active corp
  fail_if (not (has (corp_id, info.sender) s.invites)) no_pending_invite
  fail_if (has (corp_id, info.sender) s.members) (already_member corp_id)
  admit env info.sender corp_id corp "accept_invite"
      (record s { invites = remove (corp_id, info.sender) s.invites })

-- The corporation with one member less; without members it is dissolved.
unfoldable pub one_member_less : Corporation → Result ContractError Corporation
one_member_less corp = do
  count ← or_panic (checked_sub corp.member_count 1)
  ok (record corp {
    member_count = count;
    status = if is_zero count then dissolved else corp.status;
  })

unfoldable pub execute_leave_corporation : MessageInfo → ℕ → Storage → Outcome
unfolding reject_funds load_corporation assert_not_dissolved assert_member one_member_less
execute_leave_corporation info corp_id s = do
  reject_funds info
  corp ← load_corporation s corp_id
  assert_not_dissolved corp
  leaving ← assert_member s corp_id info.sender
  fail_if (is_founder leaving.role && ltb 1 corp.member_count) founder_cannot_leave
  corp' ← one_member_less corp
  ok (
    record s {
      members = remove (corp_id, info.sender) s.members;
      corporations = save corp_id corp' s.corporations;
    },
    attributes_only (
        ("action", word "leave_corporation")
        ∷ ("corp_id", number corp_id)
        ∷ ("member", address info.sender)
        ∷ []),
  )

unfoldable pub execute_donate_treasury : MessageInfo → ℕ → Storage → Outcome
unfolding load_corporation assert_active validate_funds_min
execute_donate_treasury info corp_id s = do
  corp ← load_corporation s corp_id
  assert_active corp
  config ← load_config s
  amount ← validate_funds_min info config.denom 1 zero_amount
  balance ← or_err overflow (checked_add corp.treasury_balance amount)
  ok (
    record s {
      corporations = save corp_id (record corp { treasury_balance = balance }) s.corporations;
    },
    attributes_only (
        ("action", word "donate_treasury")
        ∷ ("corp_id", number corp_id)
        ∷ ("amount", number amount)
        ∷ []),
  )

unfoldable pub execute_update_description : MessageInfo → ℕ → Text → Storage → Outcome
unfolding reject_funds load_corporation assert_active assert_member
execute_update_description info corp_id description s = do
  reject_funds info
  corp ← load_corporation s corp_id
  assert_active corp
  caller ← assert_member s corp_id info.sender
  fail_if (not (is_founder caller.role)) (unauthorized "founder")
  ok (
    record s {
      corporations = save corp_id (record corp { description = description }) s.corporations;
    },
    attributes_only (("action", word "update_description") ∷ ("corp_id", number corp_id) ∷ []),
  )
