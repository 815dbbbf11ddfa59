-- ===== src/Request.antt =====
-- Requests: h2_request of mod_http2/h2.h, h2_req_create of mod_http2/h2_util.c and
-- h2_request_end_headers of mod_http2/h2_request.c. Memory, the time and the id are left out; a
-- pointer that may be NULL is an option.
use mod_h.Prelude.{ℕ, ◌+◌, Bool, true, false, List, [], ◌∷◌, Option, none, some, if◌then◌else◌}
use mod_h.Apr.{Status, success, badarg, Text}

-- apr_table_t and what the source calls of it; `each` are the entries in the order of apr_table_do.
pub record Tables (T : Type 0) : Type 0 where
  pub make : T
  pub get : T → Text → Option Text
  pub setn : T → Text → Text → T
  pub mergen : T → Text → Text → T
  pub each : T → List (Text × Text)

pub record Request (T : Type 0) : Type 0 where
  pub method : Text
  pub scheme : Text
  pub authority : Option Text
  pub path : Text
  pub headers : T
  pub chunked : Bool
  pub serialize : Bool
  pub raw_bytes : ℕ

abbrev text_host : Text
text_host = b'H' ∷ b'o' ∷ b's' ∷ b't' ∷ []

abbrev text_content : Text → Text
text_content s = b'C' ∷ b'o' ∷ b'n' ∷ b't' ∷ b'e' ∷ b'n' ∷ b't' ∷ b'-' ∷ s

abbrev content_length : Text
content_length = text_content (b'L' ∷ b'e' ∷ b'n' ∷ b'g' ∷ b't' ∷ b'h' ∷ [])

abbrev content_type : Text
content_type = text_content (b'T' ∷ b'y' ∷ b'p' ∷ b'e' ∷ [])

abbrev transfer_encoding : Text
transfer_encoding =
    b'T' ∷ b'r' ∷ b'a' ∷ b'n' ∷ b's' ∷ b'f' ∷ b'e' ∷ b'r' ∷ b'-' ∷ b'E' ∷ b'n' ∷ b'c' ∷ b'o' ∷ b'd'
    ∷ b'i' ∷ b'n' ∷ b'g' ∷ []

abbrev text_chunked : Text
text_chunked = b'c' ∷ b'h' ∷ b'u' ∷ b'n' ∷ b'k' ∷ b'e' ∷ b'd' ∷ []

module _ {T : Type 0} (apr : Tables T) where
  -- A request without headers gets an empty table.
  unfoldable pub h2_req_create : Text → Text → Option Text → Text → Option T → Bool → Request T
  h2_req_create method scheme authority path header serialize = record {
    method = method;
    scheme = scheme;
    authority = authority;
    path = path;
    headers = elim header [ none ↦ apr.make | some h ↦ h ];
    chunked = false;
    serialize = serialize;
    raw_bytes = 0;
  }

  -- The length that is announced, when there is none yet.
  unfoldable pub add_length : Request T → Bool → Option Text → Request T
  add_length req eos (some s) = req
  add_length req eos none =
      if eos
      then elim (apr.get req.headers content_type) [
        | none ↦ req
        | some s ↦ record req { headers = apr.setn req.headers content_length (b'0' ∷ []) }
      ]
      else record req {
        chunked = true;
        headers = apr.mergen req.headers transfer_encoding text_chunked;
      }

  unfoldable pub end_with_host : Request T → Bool → ℕ → Request T
  end_with_host req eos raw =
      let r = add_length req eos (apr.get req.headers content_length) in
      record r { raw_bytes = r.raw_bytes + raw }

  -- An error leaves the request.
  unfoldable pub h2_request_end_headers : Request T → Bool → ℕ → Status × Request T
  h2_request_end_headers req eos raw = elim req.authority [
    | some a ↦
        (success, end_with_host (record req { headers = apr.setn req.headers text_host a }) eos raw)
    | none ↦ elim (apr.get req.headers text_host) [
      | none ↦ (badarg, req)
      | some host ↦ (success, end_with_host (record req { authority = some host }) eos raw)
    ]
  ]
