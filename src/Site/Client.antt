-- ===== src/Site/Client.antt =====
-- web/src/lib/client.ts: what a call of the API gives its caller.
use codolympics.Prelude.{
  ℕ, ◌&&◌, String, Option, none, some, if◌then◌else◌, leb, ltb, ◌==◌, or_else,
}
use codolympics.Live.{Value, null, text, object, property}

pub record ApiClientError : Type 0 where
  pub status : ℕ
  pub code : String
  pub message : Option String

-- `fetch` rejects, or answers with a status and a body, `none` where the body is no JSON.
pub data Answer : Type 0 where
  rejected : Answer
  answered : (status : ℕ) → Option Value → Answer

pub data Called : Type 0 where
  returned : Value → Called
  api_error : ApiClientError → Called
  network_error : Called

abbrev text_of : Option Value → Option String
text_of (some (text s)) = some s
text_of _ = none

-- `data?.key`, where it is a text.
abbrev text_at : String → Value → Option String
text_at key (object fs) = text_of (property key fs)
text_at key _ = none

-- `const data = res.status === 204 ? null : await res.json().catch(() => null)`.
unfoldable data_of : ℕ → Option Value → Value
data_of status json = if status == 204 then null else or_else json null

-- The end of `request`. Without a message of the server's, the error says "request failed (status)",
-- which stands here as `none`.
unfoldable request : Answer → Called
unfolding data_of
request rejected = network_error
request (answered status json) =
    let d = data_of status json in
    if leb 200 status && ltb status 300
    then returned d
    else api_error (record {
      status = status;
      code = or_else (text_at "error" d) "error";
      message = text_at "message" d;
    })
