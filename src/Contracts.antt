-- ===== src/Contracts.antt =====
-- The data contracts of contracts/: what each service exchanges and stores. Timestamps are counts
-- of microseconds. Pydantic's checks of a field's length are the tests below; a value that already
-- is a contract object has passed them.
pub mod Json
pub mod Texts
pub mod Customers
pub mod Actions
pub mod Policies
pub mod Audit
pub mod Events
use Prim.Native.String.{count}
use penny_core.Prelude.{ℕ, String, Bool, ◌&&◌, Option, none, some, true, leb}

abbrev pub Timestamp : Type 0
Timestamp = ℕ

-- `Field(min_length=1, max_length=n)`
unfoldable pub fits : ℕ → String → Bool
fits n s = leb 1 (count s) && leb (count s) n

-- `str | None = Field(max_length=n)`
unfoldable pub fits_optional : ℕ → Option String → Bool
fits_optional n none = true
fits_optional n (some s) = leb (count s) n
