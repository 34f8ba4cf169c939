-- ===== src/Dao/Claiming.antt =====
-- What a member is paid out of a dissolved corporation.
use sysbreak_trust.Base.{
  ℕ, ◌+◌, ◌-◌, is_zero, ◌<◌, ◌≡◌, arith, ok, some, none, [], ◌∷◌, find, remove, save,
  find-save_self, find-remove, number_key, pair_key, inl, inr, Option-cases, eqb, ◌&&◌,
  if◌then◌else◌, eqb_refl, false,
}
use sysbreak_trust.Host.{Addr, MessageInfo, Response, bank_send}
use sysbreak_trust.Dao.State.{Config, Corporation, dissolving, dissolved, Storage}
use sysbreak_trust.Dao.Members.{one_member_less}
use sysbreak_trust.Dao.Payouts.{execute_claim_dissolution}

-- What a claim has done.
pub record Claimed (info : MessageInfo) (id : ℕ) (config : Config) (corp : Corporation)
    (s s' : Storage) (r : Response) : Type 0 where
  pub share : ℕ
  pub after : Corporation
  pub was_dissolving : corp.status ≡ dissolving
  pub recorded : find (id, info.sender) s.dissolution_claims ≡ some share
  pub positive : 0 < share
  pub paid :
      r.messages ≡ bank_send info.sender (record { denom = config.denom; amount = share }) ∷ []
  pub stored : find id s'.corporations ≡ some after
  pub books : after.treasury_balance + share ≡ corp.treasury_balance
  pub one_less : after.member_count + 1 ≡ corp.member_count
  pub used_up : find (id, info.sender) s'.dissolution_claims ≡ none
  pub others :
      (c : ℕ) (a : Addr)
      → (eqb id c && eqb info.sender a) ≡ false
      → find (c, a) s'.dissolution_claims ≡ find (c, a) s.dissolution_claims

module _ (info : MessageInfo) (id : ℕ) (s s' : Storage) (r : Response) (config : Config)
    (corp : Corporation) (has_config : s.config ≡ some config)
    (has_corp : find id s.corporations ≡ some corp)
    (h : execute_claim_dissolution info id s ≡ ok (s', r)) where
  claims_after : s'.dissolution_claims ≡ remove (id, info.sender) s.dissolution_claims
  unfolding execute_claim_dissolution
  claims_after = ground arith

  -- A claim that succeeds is of a dissolving corporation, and pays the caller exactly the amount
  -- that is recorded, which is above zero; the treasury falls by it and the count of members by one.
  -- The claim is used up, and all other claims stay.
  pub claim_pays_once : Claimed info id config corp s s' r
  unfolding execute_claim_dissolution one_member_less
  claim_pays_once = elim (Option-cases (find (id, info.sender) s.dissolution_claims)) [
    | inl e ↦ absurd (ground arith)
    | inr (x, e) ↦
        let after : Corporation = record corp {
          member_count = corp.member_count - 1;
          status = if is_zero (corp.member_count - 1) then dissolved else corp.status;
          treasury_balance = corp.treasury_balance - x;
        } in
        let saved : s'.corporations ≡ save id after s.corporations = ground arith in
        record {
          share = x;
          after = after;
          was_dissolving = ground arith;
          recorded = e;
          positive = ground arith;
          paid = ground arith;
          stored = rw saved (find-save_self id after s.corporations);
          books = ground arith;
          one_less = ground arith;
          used_up = rw claims_after (
              ground (
                arith,
                find-remove (id, info.sender) (id, info.sender) s.dissolution_claims,
                eqb_refl id,
                eqb_refl info.sender,
              ));
          others = λ c a n.
              rw claims_after
                (ground (arith, find-remove (id, info.sender) (c, a) s.dissolution_claims));
        }
  ]
