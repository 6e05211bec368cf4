-- ===== src/Qod/Notifications/Client.antt =====
-- The checks of sinks and credentials and the class `HttpNotificationClient` of
-- af_core/src/qod/qod_notification_manager.cpp. Texts are ASCII.
use Prim.Native.String.{◌++◌, len, slice}
use text.Mathlib.Text.{starts_with}
use phine_af.Prelude.{
  ℕ, String, Bool, true, false, not, ◌&&◌, ◌||◌, Option, none, some, ltb, leb, eqb, all, is_empty,
}
use phine_af.Decimal.{to_string}
use phine_af.Outcome.{Outcome}
use phine_af.Regex.{codes}

-- The events, the credentials and their fields, of common/models.
pub record EventLib : Type 1 where
  pub Event : Type 0
  pub Credential : Type 0
  -- `event.data["sessionId"]` as a text, if the data contain it.
  pub session_of : Event → Option (Outcome String)
  pub is_access_token : Credential → Bool
  pub access_token_expires_utc : Credential → Option ℕ

-- A character that `\s` matches.
is_space : ℕ → Bool
is_space c = eqb c b' ' || leb 9 c && leb c 13

-- `^https://[^\s]+$`, for the whole text.
unfoldable pub validate_sink : String → Bool
unfolding is_space
validate_sink s =
    starts_with s "https://"
    && not (is_empty (slice s 8 (len s)))
    && all (λ c. not (is_space c)) (codes (slice s 8 (len s)))

abbrev pub is_success : ℕ → Bool
is_success code = leb 200 code && ltb code 300

-- The error text of a synchronous delivery that failed.
abbrev pub failure_message : ℕ → String → String
failure_message code response = "HTTP " ++ to_string code ++ ": " ++ response

abbrev pub exception_message : String → String
exception_message what = "Exception: " ++ what

module _ (L : EventLib) where
  open L use {Event, Credential, is_access_token, access_token_expires_utc}

  -- The URL, the event, the credential and the timeout; the status code and the body.
  abbrev pub HttpClient : Type 0
  HttpClient = String → Event → Option Credential → ℕ → ℕ × String

  -- The method is not implemented.
  unfoldable pub send_notification : HttpClient
  send_notification url event credential timeout = (0, "Not implemented in this build")

  unfoldable pub validate_credential : Option Credential → ℕ → Bool
  validate_credential none now = true
  validate_credential (some c) now =
      is_access_token c
      && not (elim (access_token_expires_utc c) [ none ↦ false | some t ↦ ltb t now ])
