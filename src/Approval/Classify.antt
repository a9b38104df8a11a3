-- ===== src/Approval/Classify.antt =====
-- operationFromCommand of approval_policy.ts: which capabilities reach the final review.
use blue_tanuki.Base.{
  String, ◌≡◌, ◌≢◌, ◌⊎◌, refl, sym, ◌∙◌, ap, Bool, true, false, List, [], ◌∷◌, or_else, arith,
}
use blue_tanuki.Protocol.{ExecuteCommand, Body, CommandType, type_of}
use blue_tanuki.Approval.Types.{Operation, Operation-discrete}
use blue_tanuki.Approval.Operation.{
  classify, operation_from_command, operation_of_capabilities, operation_of_body,
  final_review_operation_list, is_among, has_any, has_prefix,
}

-- membership in the final-review list, by operation
abbrev is_reviewed : Operation → Bool
is_reviewed Operation.noop = false
is_reviewed Operation.llm_call = false
is_reviewed Operation.file_read = false
is_reviewed Operation.file_search = false
is_reviewed Operation.file_write = false
is_reviewed Operation.network_http = false
is_reviewed Operation.browser_snapshot = false
is_reviewed Operation.channel_send = false
is_reviewed Operation.schedule_list = false
is_reviewed _ = true

is_among-eq-is_reviewed :
    (op : Operation) → is_among op final_review_operation_list ≡ is_reviewed op
unfolding is_among Operation-discrete
is_among-eq-is_reviewed Operation.noop = refl
is_among-eq-is_reviewed _ = refl

-- None of the capabilities that lead to a final review after the browser's tests.
abbrev pub HasNoHostWrite : List String → Type 0
HasNoHostWrite caps =
    (has_prefix caps "secrets:" ≡ false)
    × (has_prefix caps "google:" ≡ false)
    × (has_any caps ("settings:write" ∷ []) ≡ false)
    × (has_any caps ("shell:exec" ∷ "process:exec" ∷ []) ≡ false)
    × (has_any caps ("fs:delete" ∷ "file:delete" ∷ []) ≡ false)

-- None of the capabilities that change schedules, GitHub, Google or a browser's page.
abbrev pub HasNoServiceWrite : List String → Type 0
HasNoServiceWrite caps =
    (has_any caps ("schedule:create" ∷ "automation:create" ∷ []) ≡ false)
    × (has_any caps ("schedule:update" ∷ "automation:update" ∷ []) ≡ false)
    × (has_any caps ("schedule:delete" ∷ "automation:delete" ∷ []) ≡ false)
    × (has_any caps ("tool:github.write" ∷ []) ≡ false)
    × (has_prefix caps "github:" ≡ false)
    × (has_any caps
          ("tool:gmail.write" ∷ "tool:google.calendar.write" ∷ "tool:google.drive.write" ∷ [])
        ≡ false)
    × (has_any caps ("google:gmail.write" ∷ "google:calendar.write" ∷ "google:drive.write" ∷ [])
        ≡ false)
    × (has_any caps ("browser:act" ∷ "tool:browser.automation" ∷ []) ≡ false)

-- One of the capabilities for files or the network, which are tested before those for sending.
abbrev pub HasFileOrNetwork : List String → Type 0
HasFileOrNetwork caps =
    (has_any caps ("fs:write" ∷ "file:write" ∷ []) ≡ true)
    ⊎ (has_any caps ("fs:read" ∷ "file:read" ∷ []) ≡ true)
    ⊎ (has_any caps ("network:http" ∷ "http.fetch" ∷ []) ≡ true)
    ⊎ (has_prefix caps "network:" ≡ true)

-- None of the capabilities that send something out.
abbrev pub HasNoSend : List String → Type 0
HasNoSend caps =
    has_any caps ("external:send" ∷ "email:send" ∷ "slack:send" ∷ "discord:send" ∷ []) ≡ false

reviewed_capabilities :
    (body : Body) (caps : List String)
    → is_reviewed (or_else (operation_of_capabilities body caps) (operation_of_body body)) ≡ false
    → (has_any caps ("credential:read" ∷ "credential.access" ∷ "secrets:read" ∷ []) ≡ false)
      × (has_any caps ("payment:charge" ∷ "billing:write" ∷ []) ≡ false)
      × ((has_any caps ("schedule:read" ∷ []) ≡ true)
          ⊎ (HasNoServiceWrite caps
              × ((has_any caps ("browser:snapshot" ∷ "tool:browser.snapshot" ∷ []) ≡ true)
                  ⊎ (HasNoHostWrite caps × (HasFileOrNetwork caps ⊎ HasNoSend caps)))))
unfolding operation_of_capabilities
reviewed_capabilities body caps h = ground arith

classify_capabilities :
    (body : Body) (caps : List String)
    → type_of body ≢ CommandType.noop
    → classify body caps ≡ or_else (operation_of_capabilities body caps) (operation_of_body body)
unfolding classify
classify_capabilities (Body.noop _) caps h = absurd (h refl)
classify_capabilities _ caps h = refl

-- A command that is no `noop` and whose operation needs no final review has no capability for
-- credentials or payments. Then it has "schedule:read", which hides all the others, or none that changes
-- schedules, GitHub or Google or acts in a browser. Then it has a browser snapshot, which hides
-- the rest, or none with the prefixes "secrets:" and "google:" and none that writes settings, runs
-- processes or deletes files. Then it has one for files or the network, which hides those for
-- sending, or none that sends anything out.
pub unreviewed_capabilities :
    (c : ExecuteCommand) (caps : List String)
    → type_of c.body ≢ CommandType.noop
    → is_among (operation_from_command c caps) final_review_operation_list ≡ false
    → (has_any caps ("credential:read" ∷ "credential.access" ∷ "secrets:read" ∷ []) ≡ false)
      × (has_any caps ("payment:charge" ∷ "billing:write" ∷ []) ≡ false)
      × ((has_any caps ("schedule:read" ∷ []) ≡ true)
          ⊎ (HasNoServiceWrite caps
              × ((has_any caps ("browser:snapshot" ∷ "tool:browser.snapshot" ∷ []) ≡ true)
                  ⊎ (HasNoHostWrite caps × (HasFileOrNetwork caps ⊎ HasNoSend caps)))))
unfolding operation_from_command
unreviewed_capabilities c caps k h = reviewed_capabilities c.body caps (
    ap is_reviewed (sym (classify_capabilities c.body caps k))
    ∙ sym (is_among-eq-is_reviewed (classify c.body caps))
    ∙ h)
