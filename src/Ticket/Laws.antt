-- ===== src/Ticket/Laws.antt =====
-- Tickets and approval tokens are single use, live until they expire, and stay within the cap.
use blue_tanuki.Base.{
  ◌-◌, ℕ, ◌+◌, ◌≤◌, String, ◌≡◌, refl, ap, sym, ◌∙◌, Bool, true, false, Option, none, some, [], ◌∷◌,
  ◌==◌, ltb, leb, length, if◌then◌else◌, arith, eq_refl, ok, thrown,
}
use blue_tanuki.Base.Dict.{
  Dict, get, remove, get-put_same, get-remove, get-remove_same, length-remove-le, length-put-le,
}
use blue_tanuki.Base.Trim.{trim}
use blue_tanuki.Ticket.{
  MemoryEntry, SecretStore, SecretIssued, gc, drop_oldest, make_room, insert_secret, issue_token,
  burn, consume_ticket, is_for, consume_token, store_size,
}

burn_absent :
    (st : SecretStore) (secret : String) (o : Option MemoryEntry)
    → get st.map secret ≡ o
    → get (burn st secret o).map secret ≡ none
burn_absent st secret none h = h
burn_absent st secret (some e) h = get-remove_same st.map secret

burn_others :
    (st : SecretStore) (secret other : String) (o : Option MemoryEntry)
    → (secret == other) ≡ false
    → get (burn st secret o).map other ≡ get st.map other
burn_others st secret other none h = refl
burn_others st secret other (some e) h = get-remove st.map secret other ∙ rw h refl

-- A ticket and an approval token are burned by the first attempt to consume them, whatever its outcome: a
-- second attempt, at any time and for any request, fails, and every other secret stays as it was.
pub consume_once :
    (st : SecretStore) (secret other : String) (now later : ℕ) (request_id again : String)
    → (secret == other) ≡ false
    → ((consume_ticket (consume_ticket st secret now).1 secret later).0 ≡ none)
      × ((consume_token (consume_token st request_id secret now).1 again secret later).0 ≡ false)
      × (get (consume_ticket st secret now).1.map other ≡ get st.map other)
      × (get (consume_token st request_id secret now).1.map other ≡ get st.map other)
unfolding consume_ticket consume_token
consume_once st secret other now later request_id again h =
    let gone = burn_absent st secret (get st.map secret) refl in
    let kept = burn_others st secret other (get st.map secret) h in
    (rw gone refl, rw gone refl, kept, kept)

insert_secret-get :
    (st : SecretStore) (value : String) (ttl_ms : ℕ) (secret : String) (now : ℕ)
    → get (insert_secret st value ttl_ms secret now).1.map secret
      ≡ some (record { value = value; expires_at_ms = now + ttl_ms })
unfolding insert_secret
insert_secret-get st value ttl_ms secret now =
    get-put_same (make_room st.cap (gc now st.map)) secret _

granted_only :
    {E A : Type 0} (b : Bool) (e : E) (x y : A)
    → (if b then thrown e else ok x) ≡ ok y
    → (b ≡ false) × (x ≡ y)
granted_only true e x y h = cc
granted_only false e x y h = (refl, cc)

token_positive :
    (b c : Bool) {E A : Type 0} (d e : E) (x y : A)
    → (if b then thrown d else if c then thrown e else ok x) ≡ ok y
    → (b ≡ false) × (c ≡ false) × (x ≡ y)
token_positive true c d e x y h = cc
token_positive false true d e x y h = cc
token_positive false false d e x y h = (refl, refl, cc)

is_for-if :
    (b : Bool) (r wanted : String)
    → is_for (if b then none else some r) wanted ≡ (if b then false else r == wanted)
is_for-if true r wanted = refl
is_for-if false r wanted = refl

-- An approval token that was issued for a request is accepted, until it expires, for that request alone.
pub issue_token-consume_token :
    (st next : SecretStore) (issued : SecretIssued) (request_id wanted secret : String)
    (ttl_ms now later : ℕ)
    → issue_token st request_id ttl_ms secret now ≡ ok (issued, next)
    → (consume_token next wanted secret later).0
      ≡ (if ltb (now + ttl_ms) later then false else request_id == wanted)
unfolding issue_token consume_token
issue_token-consume_token st next issued request_id wanted secret ttl_ms now later h =
    let (_, _, same) =
      token_positive (trim request_id == "") (leb ttl_ms 0)
        "MemoryResumeApprovalTokenStore: request_id is required"
        "MemoryResumeApprovalTokenStore: ttl_ms must be > 0"
        (insert_secret st request_id ttl_ms secret now) (issued, next) h in
    let found =
      ap (λ p. get p.1.map secret) (sym same) ∙ insert_secret-get st request_id ttl_ms secret now in
    rw found (is_for-if (ltb (now + ttl_ms) later) request_id wanted)

gc-length : (now : ℕ) (m : Dict MemoryEntry) → length (gc now m) ≤ length m
unfolding gc
gc-length now [] = omega arith
gc-length now ((k, v) ∷ m) = ground (arith, gc-length now m)

remove_first :
    (k : String) (v : MemoryEntry) (m : Dict MemoryEntry)
    → length (remove ((k, v) ∷ m) k) ≤ length m
unfolding remove
remove_first k v m = rw (eq_refl k) (length-remove-le m k)

drop_oldest-length : (m : Dict MemoryEntry) → length (drop_oldest m) ≤ length m - 1
drop_oldest-length [] = omega arith
drop_oldest-length ((k, v) ∷ m) = omega (arith, remove_first k v m)

make_room-length :
    (size : ℕ) (m : Dict MemoryEntry)
    → 1 ≤ size
    → length m ≤ size
    → length (make_room size m) + 1 ≤ size
unfolding make_room
make_room-length size m positive bound = ground (arith, drop_oldest-length m)

burn-length :
    (st : SecretStore) (secret : String) (o : Option MemoryEntry)
    → length st.map ≤ st.cap
    → length (burn st secret o).map ≤ st.cap
burn-length st secret none h = h
burn-length st secret (some e) h = omega (arith, length-remove-le st.map secret, h)

-- A store with a positive cap that is within it stays within it, whatever is issued, consumed or counted.
pub insert_secret-length :
    (st : SecretStore) (value : String) (ttl_ms : ℕ) (secret : String) (now later : ℕ)
    (request_id : String)
    → 1 ≤ st.cap
    → length st.map ≤ st.cap
    → (length (insert_secret st value ttl_ms secret now).1.map ≤ st.cap)
      × (length (consume_ticket st secret later).1.map ≤ st.cap)
      × (length (consume_token st request_id secret later).1.map ≤ st.cap)
      × (length (store_size st later).1.map ≤ st.cap)
unfolding insert_secret consume_ticket consume_token store_size
insert_secret-length st value ttl_ms secret now later request_id positive bound =
    let kept =
      make_room-length st.cap (gc now st.map) positive
        (omega (arith, gc-length now st.map, bound)) in
    (
      omega (
        arith,
        kept,
        length-put-le (make_room st.cap (gc now st.map)) secret
            (record { value = value; expires_at_ms = now + ttl_ms }),
      ),
      burn-length st secret (get st.map secret) bound,
      burn-length st secret (get st.map secret) bound,
      omega (arith, gc-length later st.map, bound),
    )
