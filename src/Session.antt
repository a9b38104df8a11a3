-- ===== src/Session.antt =====
-- packages/blue-tanuki/src/sessions/memory.ts: the messages of each session, first in first out under a cap.
-- The cap is a natural number, so that the constructor has nothing to refuse.
pub mod Laws
pub mod Refinement
mod Tests
use blue_tanuki.Base.{
  ℕ, zero, suc, ◌-◌, String, Bool, true, false, Option, none, some, List, [], ◌∷◌, ◌++◌, ◌==◌, ltb,
  eqb, length, or_else, if◌then◌else◌, Result, ok, thrown, ◌>>=◌,
}
use blue_tanuki.Base.Dict.{Dict, get, put, remove}

pub record SessionStore (M : Type 0) : Type 0 where
  pub cap : ℕ
  pub store : Dict (List M)

-- `xs.slice(n)`
unfoldable pub drop : {M : Type 0} → ℕ → List M → List M
drop zero xs = xs
drop (suc n) [] = []
drop (suc n) (x ∷ xs) = drop n xs

-- `while (arr.length > cap) arr.shift()`
unfoldable pub shift_to : {M : Type 0} → ℕ → List M → List M
shift_to size [] = []
shift_to size (x ∷ xs) =
    let rest = shift_to size xs in if ltb size (suc (length xs)) then rest else x ∷ xs

module _ {M : Type 0} where
  unfoldable pub append_message : SessionStore M → String → M → Result String (SessionStore M)
  append_message st session_id message =
      if session_id == ""
      then thrown "MemorySessionStore.append: session_id required"
      else if eqb st.cap 0
      then ok st
      else ok (record st {
        store =
            put st.store session_id
              (shift_to st.cap (or_else (get st.store session_id) [] ++ message ∷ []));
      })

  abbrev pub limited : List M → Option ℕ → List M
  limited arr none = arr
  limited arr (some limit) = if ltb limit (length arr) then drop (length arr - limit) arr else arr

  -- A session without messages has an empty list, which no limit shortens.
  unfoldable pub get_messages : SessionStore M → String → Option ℕ → List M
  get_messages st session_id limit = elim (get st.store session_id) [
    | none ↦ []
    | some arr ↦ limited arr limit
  ]

  unfoldable pub clear_session : SessionStore M → String → SessionStore M
  clear_session st session_id = record st { store = remove st.store session_id }

  unfoldable pub session_count : SessionStore M → ℕ
  session_count st = length st.store
