-- ===== src/Http/Params.antt =====
-- `RequestType` and `RequestParams` of http-server.cpp.
use wacs.Prelude.{List, [], ◌∷◌, ◌++◌, ℤ, pos, if◌then◌else◌}
use wacs.Layout.{Bytes}
use wacs.Db.Query.{bytes_eq}

-- `RequestType`
pub data RequestType : Type 0 where
  rt_log rt_last_log rt_log_count rt_last_log_count rt_macs_per_time rt_unknown : RequestType

-- parseRequestType, with the paths of PATHS.
unfoldable pub parse_request_type : Bytes → RequestType
unfolding bytes_eq
parse_request_type url =
    if bytes_eq (b'/' ∷ b'l' ∷ b'o' ∷ b'g' ∷ []) url
    then rt_log
    else if bytes_eq (b'/' ∷ b'l' ∷ b'a' ∷ b's' ∷ b't' ∷ []) url
    then rt_last_log
    else if bytes_eq (b'/' ∷ b'l' ∷ b'o' ∷ b'g' ∷ b'-' ∷ b'c' ∷ b'o' ∷ b'u' ∷ b'n' ∷ b't' ∷ []) url
    then rt_log_count
    else if bytes_eq
        (b'/' ∷ b'l' ∷ b'a' ∷ b's' ∷ b't' ∷ b'-' ∷ b'c' ∷ b'o' ∷ b'u' ∷ b'n' ∷ b't' ∷ []) url
    then rt_last_log_count
    else if bytes_eq
        (b'/' ∷ b'm' ∷ b'a' ∷ b'c' ∷ b's' ∷ b'-' ∷ b'p' ∷ b'e' ∷ b'r' ∷ b'-' ∷ b't' ∷ b'i' ∷ b'm'
          ∷ b'e' ∷ [])
        url
    then rt_macs_per_time
    else rt_unknown

-- `RequestParams`, once the arguments are read.
pub record RequestParams : Type 0 where
  pub request_type : RequestType
  pub start : ℤ
  pub finish : ℤ
  pub sa : List Bytes
  pub offset : ℤ
  pub count : ℤ
  pub step : ℤ

-- What the constructor sets before the arguments are read, at the given time.
unfoldable pub default_params : Bytes → ℤ → RequestParams
unfolding parse_request_type
default_params url now = record {
  request_type = parse_request_type url;
  start = pos 0;
  finish = now;
  sa = [];
  offset = pos 0;
  count = pos 0;
  step = pos 1;
}

-- callbackArg for an argument with a value, and parseUriParams. `strtol` is the C library's, and
-- `to_int` the conversion of its answer to an `int`.
unfoldable pub callback_arg : (Bytes → ℤ) → (ℤ → ℤ) → RequestParams → Bytes → Bytes → RequestParams
unfolding bytes_eq
callback_arg strtol to_int rp key value =
    if bytes_eq (b's' ∷ []) key
    then record rp { start = strtol value }
    else if bytes_eq (b'f' ∷ []) key
    then record rp { finish = strtol value }
    else if bytes_eq (b's' ∷ b'a' ∷ []) key
    then record rp { sa = rp.sa ++ value ∷ [] }
    else if bytes_eq (b'o' ∷ []) key
    then record rp { offset = to_int (strtol value) }
    else if bytes_eq (b'c' ∷ []) key
    then record rp { count = to_int (strtol value) }
    else if bytes_eq (b's' ∷ b't' ∷ b'e' ∷ b'p' ∷ []) key
    then record rp { step = to_int (strtol value) }
    else rp

unfoldable pub read_args :
    (Bytes → ℤ) → (ℤ → ℤ) → RequestParams → List (Bytes × Bytes) → RequestParams
unfolding callback_arg
read_args strtol to_int rp [] = rp
read_args strtol to_int rp ((k, v) ∷ args) =
    read_args strtol to_int (callback_arg strtol to_int rp k v) args

unfoldable pub parse_uri_params :
    (Bytes → ℤ) → (ℤ → ℤ) → Bytes → ℤ → List (Bytes × Bytes) → RequestParams
unfolding default_params read_args
parse_uri_params strtol to_int url now args =
    let rp = read_args strtol to_int (default_params url now) args in
    elim rp.sa [ [] ↦ record rp { sa = [] ∷ [] } | _ ∷ _ ↦ rp ]
