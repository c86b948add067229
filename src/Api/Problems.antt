-- ===== src/Api/Problems.antt =====
-- src/acquire_intel/api/errors.py: the problem documents that the routes answer with.
use acquire_intel.Prelude.{ℕ, Option, none, some, Text, codes, pos}
use acquire_intel.Acquisition.Sources.Json.{Json, int, string, object, Fields, field, end}

-- `ProblemError`
pub record Problem : Type 0 where
  pub status : ℕ
  pub title : Text
  pub detail : Option Text
  pub type : Text

-- ProblemError(status, title, detail)
abbrev pub problem : ℕ → Text → Text → Problem
problem status title detail = record {
  status = status;
  title = title;
  detail = some detail;
  type = codes "about:blank";
}

-- What a client gets.
pub record Reply : Type 0 where
  pub status : ℕ
  pub mimetype : Text
  pub body : Json

abbrev detail_field : Option Text → Fields
detail_field none = end
detail_field (some detail) = field (codes "detail") (string detail) end

unfoldable pub problem_response : Problem → Reply
problem_response p = record {
  status = p.status;
  mimetype = codes "application/problem+json";
  body = object (
      field (codes "type") (string p.type) (
        field (codes "title") (string p.title)
          (field (codes "status") (int (pos p.status)) (detail_field p.detail))));
}

-- What `_handle_uncaught` makes of any other exception.
abbrev pub internal_error : Problem
internal_error = problem 500 (codes "Internal Server Error") (codes "An unexpected error occurred.")
