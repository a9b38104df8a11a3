-- ===== src/Ticket.antt =====
-- packages/channel-webchat/src/ticket_store.ts and resume_approval_token_store.ts: single-use secrets in a
-- map with a cap. `secret` is what `randomBytes` gives, `now` is the store's clock. The value of an
-- entry is the user of a ticket, or the request of an approval token.
pub mod Laws
mod Tests
use blue_tanuki.Base.{
  ℕ, ◌+◌, String, Bool, true, false, Option, none, some, List, [], ◌∷◌, ◌==◌, ltb, leb, length,
  if◌then◌else◌, Result, ok, thrown,
}
use blue_tanuki.Base.Dict.{Dict, get, put, remove}
use blue_tanuki.Base.Text.{◌<>◌}
use blue_tanuki.Base.Trim.{trim}

pub record MemoryEntry : Type 0 where
  pub value : String
  pub expires_at_ms : ℕ

pub record SecretStore : Type 0 where
  pub cap : ℕ
  pub map : Dict MemoryEntry

pub record SecretIssued : Type 0 where
  pub secret : String
  pub expires_at_ms : ℕ

-- the constructor of the class `name`
unfoldable pub open_store : String → ℕ → Result String SecretStore
open_store name cap =
    if ltb cap 1 then thrown (name <> ": cap must be >= 1") else ok (record { cap = cap; map = [] })

unfoldable pub gc : ℕ → Dict MemoryEntry → Dict MemoryEntry
gc now [] = []
gc now ((k, v) ∷ m) = let rest = gc now m in if ltb v.expires_at_ms now then rest else (k, v) ∷ rest

abbrev pub drop_oldest : Dict MemoryEntry → Dict MemoryEntry
drop_oldest [] = []
drop_oldest ((k, v) ∷ m) = remove ((k, v) ∷ m) k

-- the map that has room for one more
unfoldable pub make_room : ℕ → Dict MemoryEntry → Dict MemoryEntry
make_room cap m = if leb cap (length m) then drop_oldest m else m

unfoldable pub insert_secret : SecretStore → String → ℕ → String → ℕ → SecretIssued × SecretStore
insert_secret st value ttl_ms secret now = (
  record { secret = secret; expires_at_ms = now + ttl_ms },
  record {
    cap = st.cap;
    map =
        put (make_room st.cap (gc now st.map)) secret
          (record { value = value; expires_at_ms = now + ttl_ms });
  },
)

-- MemoryTicketStore.issue
unfoldable pub issue_ticket :
    SecretStore → String → ℕ → String → ℕ → Result String (SecretIssued × SecretStore)
issue_ticket st user ttl_ms secret now =
    if leb ttl_ms 0
    then thrown "MemoryTicketStore: ttl_ms must be > 0"
    else ok (insert_secret st user ttl_ms secret now)

-- MemoryResumeApprovalTokenStore.issue
unfoldable pub issue_token :
    SecretStore → String → ℕ → String → ℕ → Result String (SecretIssued × SecretStore)
issue_token st request_id ttl_ms secret now =
    if trim request_id == ""
    then thrown "MemoryResumeApprovalTokenStore: request_id is required"
    else if leb ttl_ms 0
    then thrown "MemoryResumeApprovalTokenStore: ttl_ms must be > 0"
    else ok (insert_secret st request_id ttl_ms secret now)

abbrev pub without_secret : SecretStore → String → SecretStore
without_secret st secret = record { cap = st.cap; map = remove st.map secret }

-- the value of an entry that has not expired
abbrev pub live_value : Option MemoryEntry → ℕ → Option String
live_value none now = none
live_value (some entry) now = if ltb entry.expires_at_ms now then none else some entry.value

-- the store after an entry was looked up
abbrev pub burn : SecretStore → String → Option MemoryEntry → SecretStore
burn st secret none = st
burn st secret (some _) = without_secret st secret

unfoldable pub consume_ticket : SecretStore → String → ℕ → Option String × SecretStore
consume_ticket st ticket now =
    let entry = get st.map ticket in (live_value entry now, burn st ticket entry)

abbrev pub is_for : Option String → String → Bool
is_for none request_id = false
is_for (some r) request_id = r == request_id

unfoldable pub consume_token : SecretStore → String → String → ℕ → Bool × SecretStore
consume_token st request_id token now =
    let entry = get st.map token in (is_for (live_value entry now) request_id, burn st token entry)

-- `size` collects the expired entries first.
unfoldable pub store_size : SecretStore → ℕ → ℕ × SecretStore
store_size st now = (length (gc now st.map), record { cap = st.cap; map = gc now st.map })
