-- ===== src/Routing/Table.antt =====
-- packages/hds-brain/src/action_router.ts: the routes, TOOL_SPECS, and the names that every object has by inheritance.
use blue_tanuki.Base.{ℕ, String, List, [], ◌∷◌}
use blue_tanuki.Base.Dict.{Dict}
use blue_tanuki.Base.Json.{Json}

-- `ActionRoute`, when there is one.
pub data RoutedAction : Type 0 where
  tool_call :
      (tool_name : String)
      → Dict Json
      → (allowed_capabilities : List String) → (timeout_ms : ℕ) → RoutedAction
  noop : (reason : String) → RoutedAction

pub record ToolSpec : Type 0 where
  pub allowed_capabilities : List String
  pub timeout_ms : ℕ

unfoldable pub tool_specs : Dict ToolSpec
tool_specs =
    ("echo", record { allowed_capabilities = "tool:echo" ∷ []; timeout_ms = 5000 })
    ∷ (
      "file.search",
      record { allowed_capabilities = "tool:file.search" ∷ "fs:read" ∷ []; timeout_ms = 10000 },
    )
    ∷ (
      "file.write",
      record { allowed_capabilities = "tool:file.write" ∷ "fs:write" ∷ []; timeout_ms = 15000 },
    )
    ∷ (
      "file.edit",
      record {
        allowed_capabilities = "tool:file.edit" ∷ "fs:read" ∷ "fs:write" ∷ [];
        timeout_ms = 15000;
      },
    )
    ∷ (
      "http.fetch",
      record { allowed_capabilities = "tool:http.fetch" ∷ "network:http" ∷ []; timeout_ms = 15000 },
    )
    ∷ (
      "web.search",
      record { allowed_capabilities = "tool:web.search" ∷ "network:http" ∷ []; timeout_ms = 15000 },
    )
    ∷ (
      "github.read",
      record {
        allowed_capabilities = "tool:github.read" ∷ "network:github.com" ∷ [];
        timeout_ms = 15000;
      },
    )
    ∷ (
      "github.write",
      record {
        allowed_capabilities =
            "tool:github.write" ∷ "network:github.com" ∷ "secrets:GITHUB_TOKEN"
            ∷ "github:issue.write" ∷ "github:pr.write" ∷ "github:comment.write" ∷ [];
        timeout_ms = 15000;
      },
    )
    ∷ (
      "gmail.read",
      record {
        allowed_capabilities =
            "tool:gmail.read" ∷ "network:googleapis.com" ∷ "secrets:GMAIL_ACCESS_TOKEN"
            ∷ "secrets:GOOGLE_ACCESS_TOKEN" ∷ "google:gmail.read" ∷ [];
        timeout_ms = 15000;
      },
    )
    ∷ (
      "google.calendar.read",
      record {
        allowed_capabilities =
            "tool:google.calendar.read" ∷ "network:googleapis.com"
            ∷ "secrets:GOOGLE_CALENDAR_ACCESS_TOKEN" ∷ "secrets:GOOGLE_ACCESS_TOKEN"
            ∷ "google:calendar.read" ∷ [];
        timeout_ms = 15000;
      },
    )
    ∷ (
      "google.drive.read",
      record {
        allowed_capabilities =
            "tool:google.drive.read" ∷ "network:googleapis.com"
            ∷ "secrets:GOOGLE_DRIVE_ACCESS_TOKEN" ∷ "secrets:GOOGLE_ACCESS_TOKEN"
            ∷ "google:drive.read" ∷ [];
        timeout_ms = 15000;
      },
    )
    ∷ (
      "gmail.write",
      record {
        allowed_capabilities =
            "tool:gmail.write" ∷ "network:googleapis.com" ∷ "secrets:GMAIL_ACCESS_TOKEN"
            ∷ "secrets:GOOGLE_ACCESS_TOKEN" ∷ "google:gmail.write" ∷ "external:send" ∷ "email:send"
            ∷ [];
        timeout_ms = 15000;
      },
    )
    ∷ (
      "google.calendar.write",
      record {
        allowed_capabilities =
            "tool:google.calendar.write" ∷ "network:googleapis.com"
            ∷ "secrets:GOOGLE_CALENDAR_ACCESS_TOKEN" ∷ "secrets:GOOGLE_ACCESS_TOKEN"
            ∷ "google:calendar.write" ∷ [];
        timeout_ms = 15000;
      },
    )
    ∷ (
      "google.drive.write",
      record {
        allowed_capabilities =
            "tool:google.drive.write" ∷ "network:googleapis.com"
            ∷ "secrets:GOOGLE_DRIVE_ACCESS_TOKEN" ∷ "secrets:GOOGLE_ACCESS_TOKEN"
            ∷ "google:drive.write" ∷ [];
        timeout_ms = 15000;
      },
    )
    ∷ (
      "browser.read",
      record {
        allowed_capabilities = "tool:browser.read" ∷ "network:http" ∷ [];
        timeout_ms = 15000;
      },
    )
    ∷ (
      "browser.snapshot",
      record {
        allowed_capabilities = "tool:browser.snapshot" ∷ "browser:snapshot" ∷ "network:http" ∷ [];
        timeout_ms = 15000;
      },
    )
    ∷ (
      "browser.automation",
      record {
        allowed_capabilities = "tool:browser.automation" ∷ "browser:act" ∷ "network:http" ∷ [];
        timeout_ms = 15000;
      },
    )
    ∷ (
      "shell.exec",
      record { allowed_capabilities = "tool:shell.exec" ∷ "shell:exec" ∷ []; timeout_ms = 15000 },
    )
    ∷ (
      "schedule.list",
      record {
        allowed_capabilities = "tool:schedule.list" ∷ "schedule:read" ∷ [];
        timeout_ms = 5000;
      },
    )
    ∷ (
      "schedule.create",
      record {
        allowed_capabilities = "tool:schedule.create" ∷ "schedule:create" ∷ [];
        timeout_ms = 5000;
      },
    )
    ∷ (
      "schedule.update",
      record {
        allowed_capabilities = "tool:schedule.update" ∷ "schedule:update" ∷ [];
        timeout_ms = 5000;
      },
    )
    ∷ (
      "schedule.delete",
      record {
        allowed_capabilities = "tool:schedule.delete" ∷ "schedule:delete" ∷ [];
        timeout_ms = 5000;
      },
    )
    ∷ []

-- `TOOL_SPECS[name]` of an object literal finds these also: the properties of Object.prototype.
unfoldable pub inherited : List String
inherited =
    "constructor" ∷ "__defineGetter__" ∷ "__defineSetter__" ∷ "hasOwnProperty" ∷ "__lookupGetter__"
    ∷ "__lookupSetter__" ∷ "isPrototypeOf" ∷ "propertyIsEnumerable" ∷ "toString" ∷ "valueOf"
    ∷ "__proto__" ∷ "toLocaleString" ∷ []
