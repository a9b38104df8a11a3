-- ===== src/Ticket/Tests.antt =====
-- A ticket for one user and an approval token for one request, in stores with room for two.
use blue_tanuki.Base.{◌≤◌, ◌≡◌, refl, false, none, [], ◌∷◌, length, ok, arith}
use blue_tanuki.Base.Dict.{get}
use blue_tanuki.Base.Trim.{trim, is_space}
use blue_tanuki.Ticket.{
  SecretStore, insert_secret, issue_ticket, issue_token, consume_ticket, consume_token, store_size,
}
use blue_tanuki.Ticket.Laws.{consume_once, issue_token-consume_token, insert_secret-length}

abbrev empty : SecretStore
empty = record { cap = 2; map = [] }

abbrev held : SecretStore
held = record {
  cap = 2;
  map =
      ("a", record { value = "alice"; expires_at_ms = 50 })
      ∷ ("b", record { value = "bob"; expires_at_ms = 5 })
      ∷ [];
}

consume_once_example :
    ((consume_ticket (consume_ticket held "a" 10).1 "a" 11).0 ≡ none)
    × ((consume_token (consume_token held "r9" "a" 10).1 "alice" "a" 11).0 ≡ false)
    × (get (consume_ticket held "a" 10).1.map "b" ≡ get held.map "b")
    × (get (consume_token held "r9" "a" 10).1.map "b" ≡ get held.map "b")
consume_once_example = consume_once held "a" "b" 10 11 "r9" "alice" refl

issued_ticket : issue_ticket held "carol" 30 "c" 10 ≡ ok (insert_secret held "carol" 30 "c" 10)
unfolding issue_ticket
issued_ticket = refl

issued_token : issue_token empty "r1" 30 "t" 10 ≡ ok (insert_secret empty "r1" 30 "t" 10)
unfolding issue_token trim is_space
issued_token = refl

issue_token-consume_token_example :
    (consume_token (insert_secret empty "r1" 30 "t" 10).1 "r2" "t" 20).0 ≡ false
issue_token-consume_token_example =
    issue_token-consume_token empty (insert_secret empty "r1" 30 "t" 10).1
      (insert_secret empty "r1" 30 "t" 10).0 "r1" "r2" "t" 30 10 20 issued_token

insert_secret-length_example :
    (length (insert_secret held "carol" 30 "c" 10).1.map ≤ 2)
    × (length (consume_ticket held "c" 20).1.map ≤ 2)
    × (length (consume_token held "r1" "c" 20).1.map ≤ 2)
    × (length (store_size held 20).1.map ≤ 2)
insert_secret-length_example =
    insert_secret-length held "carol" 30 "c" 10 20 "r1" (omega arith) (omega arith)
