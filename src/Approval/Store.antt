-- ===== src/Approval/Store.antt =====
-- packages/hds-brain/src/approval_store.ts: the store of grants, in memory and beside a JSON file.
-- `serialize` is the text that `persist` writes; `file` is its content, if the store has a file.
pub mod Laws
use blue_tanuki.Base.{
  ℕ, suc, ◌+◌, String, Bool, true, false, not, ◌&&◌, Option, none, some, List, [], ◌∷◌, map,
  if◌then◌else◌, ltb, leb, length,
}
use blue_tanuki.Base.Dict.{Dict, get, put, remove}
use blue_tanuki.Base.Sort.{sort_by}
use blue_tanuki.Approval.Types.{ApprovalGrant}
use blue_tanuki.Approval.Grants.{is_expired}

pub record GrantStore : Type 0 where
  pub grants : Dict ApprovalGrant
  pub file : Option String

-- `list`: the values, by `created_at`
unfoldable pub list : Dict ApprovalGrant → List ApprovalGrant
list grants = sort_by (λ a b. leb a.created_at b.created_at) (map (λ e. e.1) grants)

-- the grants that `clearExpired` keeps, and how many it drops
unfoldable pub sweep : Dict ApprovalGrant → ℕ → Dict ApprovalGrant × ℕ
sweep [] now = ([], 0)
sweep ((id, grant) ∷ grants) now =
    let (kept, n) = sweep grants now in
    if is_expired grant.expires_at now then (kept, suc n) else ((id, grant) ∷ kept, n)

module _ (serialize : List ApprovalGrant → String) where
  -- `afterMutation` of the file store writes the whole list; that of the memory store does nothing
  unfoldable pub after_mutation : GrantStore → GrantStore
  after_mutation s = record s {
    file = elim s.file [ none ↦ none | some _ ↦ some (serialize (list s.grants)) ];
  }

  unfoldable pub add : GrantStore → ApprovalGrant → GrantStore
  unfolding after_mutation
  add s grant = after_mutation (record s { grants = put s.grants grant.id grant })

  unfoldable pub revoke : GrantStore → String → GrantStore × Bool
  unfolding after_mutation
  revoke s id = elim (get s.grants id) [
    | none ↦ (s, false)
    | some grant ↦
        if grant.revocable
        then (after_mutation (record s { grants = remove s.grants id }), true)
        else (s, false)
  ]

  unfoldable pub clear_expired : GrantStore → ℕ → GrantStore × ℕ
  unfolding after_mutation sweep
  clear_expired s now =
      let (kept, n) = sweep s.grants now in
      (if ltb 0 n then after_mutation (record s { grants = kept }) else s, n)

unfoldable pub size : GrantStore → ℕ
size s = length s.grants
