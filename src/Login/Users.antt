-- ===== src/Login/Users.antt =====
-- backend/core/root/api/login/db.go: the users table. A query fails if the driver says so (`works`),
-- and changes nothing then; the digest is a parameter. A duration is a count of nanoseconds, with 0
-- for the negative ones, which the code treats alike. The table `tokens` is never used.
use poll_bot.Common.{
  ℕ, ◌+◌, ◌≡◌, Bool, true, Option, none, some, map, ltb, Bytes, bytes_comparable, ◌==◌,
  if◌then◌else◌, arith,
}
use poll_bot.Common.GoMap.{GoMap, lookup, insert, erase, lookup-insert, lookup-erase}
use poll_bot.Login.Rules.{is_valid_id, is_valid_pass, is_upper}

pub record UserRow : Type 0 where
  pub hash : Bytes
  pub expiry : ℕ

-- `none` is a database that is not open.
abbrev pub Database : Type 0
Database = Option (GoMap Bytes UserRow)

pub data LoginError : Type 0 where
  invalid_id invalid_password no_rows query_failed : LoginError

-- `panics` is log.Panic.
pub data Run (A : Type 0) : Type 0 where
  ok : A → Run A
  err : LoginError → Run A
  panics : Run A

pub record ServerUserData : Type 0 where
  pub id : Bytes
  pub password_hash : Bytes
  pub expiry : ℕ

abbrev pub default_expiry : ℕ
default_expiry = 900000000000

to_lower : ℕ → ℕ
to_lower c = if is_upper c then c + 32 else c

abbrev pub or_default : ℕ → ℕ
or_default expiry = if ltb 0 expiry then expiry else default_expiry

module _ (sha256 : Bytes → Bytes) where
  unfoldable pub new_server_user_data : Bytes → Bytes → ℕ → ServerUserData
  unfolding to_lower
  new_server_user_data id pass expiry = record {
    id = map to_lower id;
    password_hash = sha256 pass;
    expiry = expiry;
  }

  -- The row that `WHERE id = ? AND hash = ?` leaves of the one with this key.
  abbrev pub row_for : Bytes → Bytes → Option UserRow → Run ServerUserData
  row_for id pass none = err no_rows
  row_for id pass (some row) =
      if row.hash == sha256 pass
      then ok (new_server_user_data id pass (or_default row.expiry))
      else err no_rows

  unfoldable pub get_user_from_login : Bool → Bytes → Bytes → Database → Run ServerUserData
  get_user_from_login works id pass none = panics
  get_user_from_login works id pass (some users) =
      if works then row_for id pass (lookup id users) else err query_failed

  -- replaceRows for the one row of ModifyUser.
  unfoldable pub replace_row : Bool → Bytes → UserRow → GoMap Bytes UserRow → Run Database
  replace_row works id row users =
      if works then ok (some (insert id row users)) else err query_failed

  unfoldable pub modify_user : Bool → Bytes → Bytes → ℕ → Database → Run Database
  unfolding replace_row
  modify_user works id pass expiry none = panics
  modify_user works id pass expiry (some users) =
      if is_valid_id id
      then (if is_valid_pass pass
          then replace_row works id (record { hash = sha256 pass; expiry = expiry }) users
          else err invalid_password)
      else err invalid_id

  unfoldable pub drop_user : Bool → Bytes → Database → Run Database
  drop_user works id none = panics
  drop_user works id (some users) =
      if is_valid_id id
      then (if works then ok (some (erase id users)) else err query_failed)
      else err invalid_id

  -- ModifyUser sets the credentials of one id: afterwards that id logs in with a password of the
  -- digest that was stored, for the given expiry or for the default one, and with no other, and the
  -- login of every other id is answered as before.
  pub login-modify_user :
      (id pass : Bytes) (expiry : ℕ) (db db' : Database) (other guess : Bytes)
      → modify_user true id pass expiry db ≡ ok db'
      → get_user_from_login true other guess db' ≡ (
          if id == other
          then (if sha256 pass == sha256 guess
              then ok (new_server_user_data other guess (or_default expiry))
              else err no_rows)
          else get_user_from_login true other guess db)
  unfolding modify_user get_user_from_login
  login-modify_user id pass expiry none db' other guess e = cc
  login-modify_user id pass expiry (some users) db' other guess e =
      ground (arith, lookup-insert id other (record { hash = sha256 pass; expiry = expiry }) users)

  -- DropUser closes the login of the id with every password, and of no other id.
  pub login-drop_user :
      (id : Bytes) (db db' : Database) (other guess : Bytes)
      → drop_user true id db ≡ ok db'
      → get_user_from_login true other guess db'
        ≡ (if id == other then err no_rows else get_user_from_login true other guess db)
  unfolding drop_user get_user_from_login
  login-drop_user id none db' other guess e = cc
  login-drop_user id (some users) db' other guess e = ground (arith, lookup-erase id other users)
