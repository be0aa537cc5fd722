-- ===== src/Errors.antt =====
-- The error values of Go that the program makes, compares or hands on.
use mactainer.Base.{String, Bool, true, false, Result, ok, err}

-- What a system call answers.
pub data Errno : Type 0 where
  enoent eexist enotdir eisdir enotempty eio econnrefused eaddrinuse : Errno

pub data GoError : Type 0 where
  errno : Errno → GoError
  message : String → GoError  -- `errors.New` and `fmt.Errorf` with no cause
  wrapped : String → GoError → GoError  -- `fmt.Errorf("…: %s", err)`
  quoted : String → String → GoError  -- `fmt.Errorf("…: %q", text)`
  json_error : GoError  -- what encoding/json refuses
  retriable : GoError → GoError  -- `&crcerrors.RetriableError`
  rpc_error : String → GoError  -- `rpc.ServerError`
  not_implemented : GoError  -- `drivers.ErrNotImplemented`

-- `os.IsNotExist(err)` of the error that comes with a value
abbrev pub is_not_exist {ℓ} : {A : Type ℓ} → Result GoError A → Bool
is_not_exist (err (errno enoent)) = true
is_not_exist _ = false

abbrev pub is_ok {ℓ} : {A : Type ℓ} → Result GoError A → Bool
is_ok (ok _) = true
is_ok (err _) = false
