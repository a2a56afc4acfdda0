-- ===== src/Wasi/Http.antt =====
-- guest/wit_world/imports/types.py: methods, schemes and errors of `wasi:http`.
use pycage.Prelude.{ℕ, String, Option}

pub data Method : Type 0 where
  get head post put delete connect options trace patch : Method
  other : String → Method

pub data Scheme : Type 0 where
  http https : Scheme
  other : String → Scheme

pub record DnsErrorPayload : Type 0 where
  pub rcode : Option String
  pub info_code : Option ℕ

pub record TlsAlertReceivedPayload : Type 0 where
  pub alert_id : Option ℕ
  pub alert_message : Option String

pub record FieldSizePayload : Type 0 where
  pub field_name : Option String
  pub field_size : Option ℕ

pub data ErrorCode : Type 0 where
  dns_timeout : ErrorCode
  dns_error : DnsErrorPayload → ErrorCode
  destination_not_found : ErrorCode
  destination_unavailable : ErrorCode
  destination_ip_prohibited : ErrorCode
  destination_ip_unroutable : ErrorCode
  connection_refused : ErrorCode
  connection_terminated : ErrorCode
  connection_timeout : ErrorCode
  connection_read_timeout : ErrorCode
  connection_write_timeout : ErrorCode
  connection_limit_reached : ErrorCode
  tls_protocol_error : ErrorCode
  tls_certificate_error : ErrorCode
  tls_alert_received : TlsAlertReceivedPayload → ErrorCode
  http_request_denied : ErrorCode
  http_request_length_required : ErrorCode
  http_request_body_size : Option ℕ → ErrorCode
  http_request_method_invalid : ErrorCode
  http_request_uri_invalid : ErrorCode
  http_request_uri_too_long : ErrorCode
  http_request_header_section_size : Option ℕ → ErrorCode
  http_request_header_size : Option FieldSizePayload → ErrorCode
  http_request_trailer_section_size : Option ℕ → ErrorCode
  http_request_trailer_size : FieldSizePayload → ErrorCode
  http_response_incomplete : ErrorCode
  http_response_header_section_size : Option ℕ → ErrorCode
  http_response_header_size : FieldSizePayload → ErrorCode
  http_response_body_size : Option ℕ → ErrorCode
  http_response_trailer_section_size : Option ℕ → ErrorCode
  http_response_trailer_size : FieldSizePayload → ErrorCode
  http_response_transfer_coding : Option String → ErrorCode
  http_response_content_coding : Option String → ErrorCode
  http_response_timeout : ErrorCode
  http_upgrade_failed : ErrorCode
  http_protocol_error : ErrorCode
  loop_detected : ErrorCode
  configuration_error : ErrorCode
  internal_error : Option String → ErrorCode

-- Why the host refused a header.
pub data HeaderError : Type 0 where
  invalid_syntax forbidden immutable : HeaderError
