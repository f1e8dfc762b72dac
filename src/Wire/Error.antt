-- ===== src/Wire/Error.antt =====
-- crates/wire-types/src/error.rs. A `&'static str` is a `String`; a `detail` string is the data
-- that its format string shows.
use s_chat6_core.Common.{ℕ, String, List, Result}

-- The format strings that the codecs put into `detail`.
pub data Detail : Type 0 where
  -- format!("op {}", op)
  op : ℕ → Detail
  -- format!("ttl {} not in options", ttl)
  ttl_not_in_options : ℕ → Detail
  -- format!("cap id {}", id)
  cap_id : ℕ → Detail
  -- format!("{v}")
  value : ℕ → Detail
  -- format!("{v} exceeds {max}")
  exceeds : ℕ → ℕ → Detail
  -- format!("reason {reason}")
  reason_value : ℕ → Detail
  -- format!("chunk {index}/{count} (max {max_chunks})")
  chunk_plan : ℕ → ℕ → ℕ → Detail
  -- format!("class {}", class)
  media_class : ℕ → Detail
  -- format!("n {}", n)
  uncompressed : ℕ → Detail
  -- format!("count {} bucket {}", count, bucket)
  count_bucket : ℕ → ℕ → Detail
  -- a string literal
  literal : String → Detail

pub data WireError : Type 0 where
  truncated : String → WireError
  bad_length : String → ℕ → ℕ → WireError
  bad_version : String → ℕ → WireError
  bad_field : String → Detail → WireError
  trailing : String → ℕ → WireError
  too_large : String → ℕ → ℕ → WireError
  unknown_type : ℕ → List ℕ → ℕ → WireError

-- `Result<T, WireError>`.
abbrev pub Wire : Type 0 → Type 0
Wire A = Result WireError A
