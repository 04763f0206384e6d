-- ===== src/Proxy/Quoting.antt =====
-- `strconv.Quote` and `strconv.Unquote`, which rest on Go's tables of printable characters.
use k8s_jumperless.Base.{Option, some, ◌≡◌, Bytes}

-- `unquote` is `none` for an error.
pub record Quoting : Type 0 where
  pub quote : Bytes → Bytes
  pub unquote : Bytes → Option Bytes

-- `Unquote` gives back what `Quote` quoted, as its documentation says.
pub record IsQuoting (q : Quoting) : Type 0 where
  pub unquote-quote : (s : Bytes) → q.unquote (q.quote s) ≡ some s
