-- ===== src/Status.antt =====
-- `StatusCode_t` of src/nix/status_code.hxx.
use nixsrv.Prelude.{ℤ, pos, negsuc, String}

pub data StatusCode : Type 0 where
  null_value ok fail not_ready service_unavailable temporary_failue : StatusCode
  access_denied auth_unauthorized temp_limit_reached data_invalid_content : StatusCode

-- The values of the enumeration.
unfoldable pub code : StatusCode → ℤ
code null_value = negsuc 0
code ok = pos 0
code fail = pos 1
code not_ready = pos 2
code service_unavailable = pos 3
code temporary_failue = pos 4
code access_denied = pos 51
code auth_unauthorized = pos 101
code temp_limit_reached = pos 201
code data_invalid_content = pos 501

-- `std::to_string` of a status.
unfoldable pub code_text : StatusCode → String
code_text null_value = "-1"
code_text ok = "0"
code_text fail = "1"
code_text not_ready = "2"
code_text service_unavailable = "3"
code_text temporary_failue = "4"
code_text access_denied = "51"
code_text auth_unauthorized = "101"
code_text temp_limit_reached = "201"
code_text data_invalid_content = "501"
