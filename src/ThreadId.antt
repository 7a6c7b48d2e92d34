-- ===== src/ThreadId.antt =====
-- ThreadId.cpp: a number for the running thread.
pub mod FirstUse
mod Tests
use moose_tools.Prelude.{ℕ, ◌%◌, ◌^◌, Option, none, some, [], ◌∷◌, Bytes}
use moose_tools.Endpoints.Libraries.{Spirit}

-- What writing `boost::this_thread::get_id()` to a stream comes to: a text, or the exception
-- `thread_resource_error`, of which the address is known.
pub data Printed : Type 0 where
  text : Bytes → Printed
  thread_resource_error : ℕ → Printed

-- `boost::hash` is a parameter.
module _ (S : Spirit) (string_hash : Bytes → ℕ) where
  parsed : Bytes → Option (ℕ × Bytes) → ℕ
  parsed s (some (ret, [])) = ret
  parsed s _ = string_hash s % 2 ^ 32

  pub faked_thread_id : Printed → ℕ
  unfolding parsed
  faked_thread_id (text s) = parsed s (S.uint_ s)
  faked_thread_id (thread_resource_error address) = address % 2 ^ 32
