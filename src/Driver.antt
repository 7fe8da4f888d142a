-- ===== src/Driver.antt =====
-- driver.go, fileinfo.go and auth.go: the interfaces between a server and the persistence layer that
-- its user supplies, over a type `W` of the states of the world outside the server, and `SimpleAuth`.
pub mod Passwords
use ftps_qftp_server.Prelude.{
  ◌≡◌, refl, ◌⊎◌, inl, inr, ℕ, Bool, true, false, not, ◌||◌, Option, List, if◌then◌else◌,
}
use ftps_qftp_server.Prelude.Int.{ℤ}
use ftps_qftp_server.Text.{Bytes, bytes_eq}

-- A Go result `(value, error)`: the error is its text.
pub data Result (A : Type 0) : Type 0 where
  ok : A → Result A
  err : Bytes → Result A

-- What the servers read of an `os.FileInfo` with an owner and a group. `mode` is `Mode().String()`;
-- the last two are `ModTime()` in the formats " Jan _2 15:04 " and "20060102150405".
pub record FileInfo : Type 0 where
  pub name : Bytes
  pub size : ℤ
  pub is_dir : Bool
  pub mode : Bytes
  pub owner : Bytes
  pub group : Bytes
  pub mod_time_listed : Bytes
  pub mod_time_stamp : Bytes

-- An `io.ReadCloser` that a driver hands out, by a number.
abbrev pub Reader : Type 0
Reader = ℕ

-- The interface `Driver`, and the interface `Auth`. `none` is a nil `FileInfo`; `list_dir` returns the
-- files for which the callback was called, in order; `put_file` reads from a data connection of type
-- `S`, which may be nil.
pub record Driver (S W : Type 0) : Type 0 where
  pub stat : Bytes → W → Result (Option FileInfo) × W
  pub change_dir : Bytes → W → Result (Unit {0}) × W
  pub list_dir : Bytes → W → Result (List FileInfo) × W
  pub delete_dir : Bytes → W → Result (Unit {0}) × W
  pub delete_file : Bytes → W → Result (Unit {0}) × W
  pub rename : Bytes → Bytes → W → Result (Unit {0}) × W
  pub make_dir : Bytes → W → Result (Unit {0}) × W
  pub get_file : Bytes → ℤ → W → Result (ℤ × Reader) × W
  pub put_file : Bytes → Option S → Bool → W → Result ℤ × W
  pub check_passwd : Bytes → Bytes → W → Result Bool × W

-- The methods of `Driver` with their arguments, to record the calls that a server makes.
pub data DriverCall (S : Type 0) : Type 0 where
  stat_call change_dir_call list_dir_call : Bytes → DriverCall S
  delete_dir_call delete_file_call make_dir_call : Bytes → DriverCall S
  rename_call : Bytes → Bytes → DriverCall S
  get_file_call : Bytes → ℤ → DriverCall S
  put_file_call : Bytes → Option S → Bool → DriverCall S

pub record SimpleAuth : Type 0 where
  pub name : Bytes
  pub password : Bytes

unfoldable pub check_simple_passwd : SimpleAuth → Bytes → Bytes → Result Bool
unfolding bytes_eq
check_simple_passwd a name pass =
    if not (bytes_eq name a.name) || not (bytes_eq pass a.password) then ok false else ok true

-- To split on a result that an interface returned.
pub Result-cases :
    {A : Type 0} (r : Result A) → ((a : A) × (r ≡ ok a)) ⊎ ((e : Bytes) × (r ≡ err e))
Result-cases (ok a) = inl (a, refl)
Result-cases (err e) = inr (e, refl)
