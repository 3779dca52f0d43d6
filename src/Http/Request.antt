-- ===== src/Http/Request.antt =====
-- `http::server::request` (include/http/request.h).
use cs.Prelude.{ℕ, Text}
use cs.OrderedMap.{OrderedMap}

-- `request::method_type`, and `unset` for what `method_` holds where nothing has set it and its bits
-- are those of none of the nine: no constructor does, and `parse_method` leaves it at a method that
-- it does not know. To read it then is undefined in C++; the model compares it with the nine names.
pub data MethodType : Type 0 where
  unset : MethodType
  get_req head_req post_req put_req delete_req connect_req options_req : MethodType
  trace_req patch_req : MethodType

-- A version number is kept as its 32-bit pattern.
pub record Request : Type 0 where
  pub method_ : MethodType
  pub uri_ : Text
  pub headers_ : OrderedMap Text
  pub body_ : Text
  pub http_version_major : ℕ
  pub http_version_minor : ℕ
