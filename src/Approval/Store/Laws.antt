-- ===== src/Approval/Store/Laws.antt =====
-- The grant store of approval_store.ts and its file.
use blue_tanuki.Base.{ℕ, String, ◌≡◌, some, List, arith}
use blue_tanuki.Approval.Types.{ApprovalGrant}
use blue_tanuki.Approval.Store.{GrantStore, list, add, revoke, clear_expired}

module _ (serialize : List ApprovalGrant → String) where
  -- The file holds the current grants.
  abbrev pub IsSaved : GrantStore → Type 0
  IsSaved s = s.file ≡ some (serialize (list s.grants))

  -- Every operation leaves the file with the current grants, if it held them before.
  pub operations-IsSaved :
      (s : GrantStore) (grant : ApprovalGrant) (id : String) (now : ℕ)
      → IsSaved s
      → IsSaved (add serialize s grant)
        × IsSaved (revoke serialize s id).0
        × IsSaved (clear_expired serialize s now).0
  unfolding add revoke clear_expired
  operations-IsSaved s grant id now h = (rw h, ground arith, ground arith)
