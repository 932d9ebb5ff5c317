-- ===== src/Rest/Http.antt =====
-- Requests and responses. The model stops at the JSON value: a body is what `Decode` makes of its
-- text, and a response holds the value that is given to `Encode`.
use pd_manager.Common.{ℕ, ℤ, String, Option, List, Error, error_text}
use pd_manager.Api.{PdInferenceService, PdEngineProfile}

-- `updateRequest`; a replica count is absent where it or the role around it is nil.
pub record RoleUpdate : Type 0 where
  pub replicas : Option ℤ

pub record UpdateRequest : Type 0 where
  pub model : String
  pub prefill : Option RoleUpdate
  pub decode : Option RoleUpdate

pub data ResponseBody : Type 0 where
  empty : ResponseBody
  text : String → ResponseBody
  json_service : PdInferenceService → ResponseBody
  json_services : List PdInferenceService → ResponseBody
  json_profile : PdEngineProfile → ResponseBody
  json_profiles : List PdEngineProfile → ResponseBody

pub record Response : Type 0 where
  pub status : ℕ
  pub content_type : String
  pub body : ResponseBody

-- `http.Error`
abbrev pub http_error : String → ℕ → Response
http_error message code = record {
  status = code;
  content_type = "text/plain; charset=utf-8";
  body = text message;
}

-- `http.Error(w, err.Error(), http.StatusBadRequest)`
abbrev pub bad_request : Error → Response
bad_request e = http_error (error_text e) 400

-- `http.Error(w, err.Error(), http.StatusInternalServerError)`
abbrev pub server_error : Error → Response
server_error e = http_error (error_text e) 500

-- `http.Error(w, "not found", http.StatusNotFound)`
abbrev pub not_found_response : Response
not_found_response = http_error "not found" 404

-- A JSON answer with the status that was written, 200 where none was.
abbrev pub json : ℕ → ResponseBody → Response
json code value = record { status = code; content_type = "application/json"; body = value }

-- `w.WriteHeader(http.StatusOK)` alone
abbrev pub ok_header : Response
ok_header = record { status = 200; content_type = ""; body = empty }
