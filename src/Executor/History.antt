-- ===== src/Executor/History.antt =====
-- The conversations that executor.ts keeps in the in-memory session store.
use blue_tanuki.Base.{
  ℕ, String, ◌≡◌, ◌⊎◌, inl, inr, refl, sym, ap, ◌∙◌, Bool, true, false, Option, none, some, List,
  [], ◌∷◌, ◌++◌, map, ◌==◌, eqb, if◌then◌else◌, Result, ok, thrown, Bool-cases,
}
use blue_tanuki.Protocol.{Role, Message, LlmCallPayload, Body, ExecuteCommand}
use blue_tanuki.Session.{SessionStore, append_message, get_messages, limited}
use blue_tanuki.Session.Refinement.{
  SessionOp, append, store_after, perform, run_ops, replay, latest, run_ops-refines,
}
use blue_tanuki.Executor.Types.{
  LlmRequest, LlmResponse, ChatMessage, SessionPort, Call, ExecutorState, Times,
}
use blue_tanuki.Executor.Run.{
  ExecutorDeps, with_timeout, timeout_of, session_of, with_call, llm_request, effective_messages,
  append_each, keep_messages, finish_llm_call, execute_llm_call, run_body, execute,
}

-- MemorySessionStore as the executor's session store
abbrev pub memory_sessions : SessionPort (SessionStore ChatMessage)
memory_sessions = record {
  append = append_message;
  get_messages = λ s id limit. ok (get_messages s id limit);
}

abbrev pub without_time : ChatMessage → Message
without_time m = record { role = m.role; content = m.content }

-- What a command and its reply add to a conversation.
abbrev pub turn : LlmCallPayload → LlmResponse → Times → List ChatMessage
turn p r t =
    map (λ m. record { role = m.role; content = m.content; timestamp = t.kept }) p.messages
    ++ record { role = Role.assistant; content = r.content; timestamp = t.replied } ∷ []

named_session :
    (o : Option String) (id : String)
    → elim o [ none ↦ none | some s ↦ if s == "" then none else some s ] ≡ some id
    → (id == "") ≡ false
named_session none id h = cc
named_session (some s) id h = elim (Bool-cases (s == "")) [
  | inl empty ↦ cc (rw empty at h)
  | inr named ↦ ap (λ x. x == "") (sym (same_text (rw named at h))) ∙ named
]
  where
    same_text : some s ≡ some id → s ≡ id
    same_text e = cc

accepted :
    {M : Type 0} (b : Bool) (s x y : SessionStore M)
    → let r : Result String (SessionStore M) = if b then ok x else ok y in r ≡ ok (store_after s r)
accepted true s x y = refl
accepted false s x y = refl

append_message-ok :
    {M : Type 0} (s : SessionStore M) (id : String) (m : M)
    → (id == "") ≡ false
    → append_message s id m ≡ ok (perform s (append id m))
unfolding append_message
append_message-ok s id m named = rw named (accepted (eqb s.cap 0) s _ _)

run_ops-append :
    {M : Type 0} (s : SessionStore M) (xs ys : List (SessionOp M))
    → run_ops s (xs ++ ys) ≡ run_ops (run_ops s xs) ys
run_ops-append s [] ys = refl
run_ops-append s (x ∷ xs) ys = run_ops-append (perform s x) xs ys

-- An executor on the in-memory session store.
abbrev pub on_memory :
    ExecutorDeps (SessionStore ChatMessage) → ExecutorDeps (SessionStore ChatMessage)
on_memory deps = record deps { sessions = memory_sessions }

module _ (deps : ExecutorDeps (SessionStore ChatMessage)) where
  append_each-eq :
      (s : SessionStore ChatMessage) (id : String) (ms : List ChatMessage)
      → (id == "") ≡ false
      → append_each (on_memory deps) s id ms ≡ (ok tt, run_ops s (map (append id) ms))
  unfolding append_each
  append_each-eq s id [] named = refl
  append_each-eq s id (m ∷ ms) named =
      rw (append_message-ok s id m named, append_each)
        (append_each-eq (perform s (append id m)) id ms named)

  -- A conversation's store after some calls.
  abbrev pub store_of : ℕ → List (SessionOp ChatMessage) → SessionStore ChatMessage
  store_of size ops = run_ops (record { cap = size; store = [] }) ops

  -- What the LLM is asked: the latest messages of the conversation, and those of the command.
  abbrev pub asked :
      ExecuteCommand → LlmCallPayload → ℕ → List (SessionOp ChatMessage) → String → LlmRequest
  asked cmd p size ops id = llm_request p cmd.constraints (
      map without_time (limited (latest size (replay (λ _. []) ops id)) deps.history_limit)
      ++ p.messages)

  effective_messages-eq :
      (p : LlmCallPayload) (size : ℕ) (ops : List (SessionOp ChatMessage)) (id : String)
      → effective_messages (on_memory deps) (some (store_of size ops)) p (some id)
        ≡ ok (
            map without_time (limited (latest size (replay (λ _. []) ops id)) deps.history_limit)
            ++ p.messages)
  unfolding effective_messages
  effective_messages-eq p size ops id =
      ap (λ h. ok (map without_time h ++ p.messages))
        (run_ops-refines size ops id deps.history_limit)

  -- The session after the LLM has answered, or has not.
  abbrev pub Continued :
      LlmCallPayload
      → Times
      → ℕ
      → List (SessionOp ChatMessage)
      → String
      → Result String LlmResponse
      → Option (SessionStore ChatMessage)
      → Type 0
  Continued p t size ops id answer kept =
      ((e : String) × (answer ≡ thrown e) × (kept ≡ some (store_of size ops)))
      ⊎ ((r : LlmResponse) × (answer ≡ ok r)
          × (kept ≡ some (store_of size (ops ++ map (append id) (turn p r t)))))

  finish_llm_call-Continued :
      (cmd_id : String) (p : LlmCallPayload) (t : Times)
      (st : ExecutorState (SessionStore ChatMessage)) (size : ℕ)
      (ops : List (SessionOp ChatMessage)) (id : String) (answer : Result String LlmResponse)
      → session_of p ≡ some id
      → (id == "") ≡ false
      → st.session_store ≡ some (store_of size ops)
      → Continued p t size ops id answer
          (finish_llm_call (on_memory deps) cmd_id p t st answer).1.session_store
        × ((finish_llm_call (on_memory deps) cmd_id p t st answer).1.calls ≡ st.calls)
  unfolding finish_llm_call keep_messages
  finish_llm_call-Continued cmd_id p t st size ops id (thrown e) session named held =
      (inl (e, refl, held), refl)
  finish_llm_call-Continued cmd_id p t st size ops id (ok r) session named held =
      rw (session, held, append_each-eq (store_of size ops) id (turn p r t) named)
        (
          inr (
            r,
            refl,
            ap some (
                sym (
                  run_ops-append (record { cap = size; store = [] }) ops
                    (map (append id) (turn p r t)))),
          ),
          refl,
        )

  -- A command of a session that the executor keeps in memory: the LLM is asked once, with the latest messages of
  -- the conversation, as many as the cap and the history limit allow, before those of the command.
  -- If it answers in time, the conversation goes on with the command's messages and the reply;
  -- if it throws or is late, the conversation is as it was.
  pub execute-Continued :
      (cmd : ExecuteCommand) (p : LlmCallPayload) (t : Times)
      (st : ExecutorState (SessionStore ChatMessage)) (size : ℕ)
      (ops : List (SessionOp ChatMessage)) (id : String)
      → cmd.body ≡ Body.llm_call p
      → session_of p ≡ some id
      → st.session_store ≡ some (store_of size ops)
      → let req = asked cmd p size ops id in
        ((execute (on_memory deps) cmd t st).1.calls ≡ st.calls ++ Call.llm req ∷ [])
        × Continued p t size ops id
            (with_timeout (deps.llm req) (timeout_of cmd.constraints))
            (execute (on_memory deps) cmd t st).1.session_store
  unfolding execute run_body execute_llm_call
  execute-Continued cmd p t st size ops id body session held =
      let req = asked cmd p size ops id in
      let answer = with_timeout (deps.llm req) (timeout_of cmd.constraints) in
      let (continued, calls) =
        finish_llm_call-Continued cmd.id p t
          (with_call (record st { session_store = some (store_of size ops) }) (Call.llm req)) size
          ops id answer session (named_session p.session_id id session) refl in
      rw (body, session, held, effective_messages-eq p size ops id) (calls, continued)
