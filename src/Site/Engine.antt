-- ===== src/Site/Engine.antt =====
-- web/src/lib/engine.ts: passing a browser's request to the engine, and its answer back. Header names
-- are in lower case, as `Headers` keeps them; `fetch` is the argument `exchange`, which gives none when
-- it throws.
use codolympics.Prelude.{
  ℕ, Bool, not, ◌&&◌, String, List, [], ◌∷◌, Option, none, some, if◌then◌else◌, str_eq, leb, ltb,
}
use Prim.Native.String

abbrev pub Headers : Type 0
Headers = List (String × String)

-- `headers.get(name)`.
unfoldable pub get : String → Headers → Option String
get name [] = none
get name ((k, v) ∷ rest) = if str_eq k name then some v else get name rest

-- `headers.set(name, value)`.
unfoldable pub put : String → String → Headers → Headers
put name value [] = (name, value) ∷ []
put name value ((k, v) ∷ rest) =
    if str_eq k name then (name, value) ∷ rest else (k, v) ∷ put name value rest

abbrev pub forwarded_request_headers : List String
forwarded_request_headers = "cookie" ∷ "content-type" ∷ "accept" ∷ []

abbrev pub forwarded_response_headers : List String
forwarded_response_headers = "content-type" ∷ "content-disposition" ∷ "cache-control" ∷ []

-- `const value = from.get(name); if (value) headers.set(name, value)`.
unfoldable pub copy_one : Option String → String → Headers → Headers
unfolding put
copy_one none name into = into
copy_one (some value) name into = if str_eq value "" then into else put name value into

-- The loop over the names of a list.
unfoldable pub copy_all : List String → Headers → Headers → Headers
unfolding copy_one get
copy_all [] from into = into
copy_all (name ∷ rest) from into = copy_all rest from (copy_one (get name from) name into)

unfoldable pub engine_headers : String → Headers → Headers
engine_headers token from = copy_all forwarded_request_headers from (("x-engine-token", token) ∷ [])

pub record Request : Type 0 where
  pub method : String
  pub pathname : String
  pub search : String
  pub headers : Headers
  pub body : Option String

pub record Response : Type 0 where
  pub status : ℕ
  pub headers : Headers
  pub body : Option String

-- What is sent to the engine.
pub record Outgoing : Type 0 where
  pub url : String
  pub method : String
  pub headers : Headers
  pub body : Option String

abbrev has_body : String → Bool
has_body method = not (str_eq method "GET") && not (str_eq method "HEAD")

unfoldable pub unavailable : Response
unavailable = record {
  status = 503;
  headers = ("content-type", "application/json") ∷ [];
  body =
      some
        "{\"error\":\"engine_unavailable\",\"message\":\"the contest server is not responding; try again in a moment\"}";
}

unfoldable pub outgoing : (engine_url token : String) → Request → Outgoing
unfolding engine_headers
outgoing engine_url token req = record {
  url = String.◌++◌ (String.◌++◌ engine_url req.pathname) req.search;
  method = req.method;
  headers = engine_headers token req.headers;
  body = if has_body req.method then req.body else none;
}

-- What is handed back to the browser.
unfoldable pub returned : Option Response → Response
returned none = unavailable
returned (some res) = record {
  status = res.status;
  headers = copy_all forwarded_response_headers res.headers [];
  body = res.body;
}

unfoldable pub forward :
    (engine_url token : String) → (exchange : Outgoing → Option Response) → Request → Response
unfolding outgoing returned
forward engine_url token exchange req = returned (exchange (outgoing engine_url token req))

-- `engineGet`: an answer that is not ok is thrown, with its status.
pub data Got : Type 0 where
  body : Option String → Got
  failed : (status : ℕ) → Got

unfoldable engine_get : Response → Got
engine_get res =
    if leb 200 res.status && ltb res.status 300 then body res.body else failed res.status
