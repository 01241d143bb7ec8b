-- ===== src/Api/Errors.antt =====
-- app/api/errors.py: the errors that the API answers with.
use fastapi_shipment_import.Base.{ℕ, String, Option, none, some}
use fastapi_shipment_import.Models.{ImportStatus}
use fastapi_shipment_import.Session.{Failure}

-- The `details` that the handlers give: of a duplicate, the import that is there.
pub record DuplicateDetails : Type 0 where
  pub import_id : ℕ
  pub status : ImportStatus
  pub created_at : ℕ

pub record ApiError : Type 0 where
  pub code : String
  pub message : String
  pub status_code : ℕ
  pub details : Option DuplicateDetails

abbrev pub bad_request : String → String → ApiError
bad_request code message = record {
  code = code;
  message = message;
  status_code = 400;
  details = none;
}

abbrev pub error_with_status : String → String → ℕ → ApiError
error_with_status code message status_code = record {
  code = code;
  message = message;
  status_code = status_code;
  details = none;
}

-- A handler returns, raises an ApiError, or lets another exception through.
pub data Answer (A : Type 0) : Type 0 where
  responded : A → Answer A
  api_error : ApiError → Answer A
  escaped : Failure → Answer A

-- The JSON body of an error, with its status.
pub record ErrorBody : Type 0 where
  pub code : String
  pub message : String
  pub details : Option DuplicateDetails

pub record ErrorResponse : Type 0 where
  pub status_code : ℕ
  pub error : ErrorBody

unfoldable pub handle_api_error : ApiError → ErrorResponse
handle_api_error e = record {
  status_code = e.status_code;
  error = record { code = e.code; message = e.message; details = e.details };
}

-- Nothing of the exception gets out.
unfoldable pub handle_unexpected_error : Failure → ErrorResponse
handle_unexpected_error e = record {
  status_code = 500;
  error = record {
    code = "INTERNAL_ERROR";
    message = "An internal server error occurred.";
    details = none;
  };
}

-- The error response of a request, if it is one.
unfoldable pub error_response : {A : Type 0} → Answer A → Option ErrorResponse
unfolding handle_api_error handle_unexpected_error
error_response (responded a) = none
error_response (api_error e) = some (handle_api_error e)
error_response (escaped e) = some (handle_unexpected_error e)
