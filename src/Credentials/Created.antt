-- ===== src/Credentials/Created.antt =====
-- What the message of the form says, and who can log in.
use poll_bot.Common.{
  ◌≡◌, ◌∙◌, refl, ap, Bool, true, false, none, some, [], ◌∷◌, Bytes, bytes_comparable, ◌==◌, eq_iff,
  arith,
}
use poll_bot.Login.Rules.{is_valid_id, is_valid_pass}
use poll_bot.Login.Users.{
  Run, ok, err, panics, Database, modify_user, replace_row, get_user_from_login,
  new_server_user_data, default_expiry, login-modify_user,
}
use poll_bot.Login.Session.{accepted, answer, check_login}
use poll_bot.Credentials.{validating, created, told, i_modal_submit}

module _ (sha256 : Bytes → Bytes) where
  -- The rules hold and the statement worked where a user is stored.
  modify_user-checked :
      (works : Bool) (id pass : Bytes) (db db' : Database)
      → modify_user sha256 works id pass 0 db ≡ ok db'
      → (is_valid_id id ≡ true)
        × (is_valid_pass pass ≡ true)
        × (modify_user sha256 true id pass 0 db ≡ ok db')
  unfolding modify_user replace_row
  modify_user-checked works id pass none db' e = absurd (cc e)
  modify_user-checked works id pass (some users) db' e = ground (arith, e)

  told-created :
      (edited : Bool) (r : Run Database) (db : Database)
      → (told edited r db).notices ≡ validating ∷ (created ∷ [])
      → r ≡ ok (told edited r db).database
  unfolding told
  told-created edited (ok db') db e = refl
  told-created edited (err x) db e = absurd (cc e)
  told-created edited panics db e = absurd (cc e)

  submit-created :
      (sent edited works : Bool) (id pass : Bytes) (db : Database)
      → let r = i_modal_submit sha256 sent edited works id pass db in
        r.notices ≡ validating ∷ (created ∷ [])
        → modify_user sha256 works id pass 0 db ≡ ok r.database
  unfolding i_modal_submit
  submit-created true edited works id pass db e =
      told-created edited (modify_user sha256 works id pass 0 db) db e
  submit-created false edited works id pass db e = absurd (cc e)

  check_login-found :
      (id pass : Bytes) (db : Database)
      → is_valid_id id ≡ true
      → is_valid_pass pass ≡ true
      → check_login sha256 true (some (id, pass)) db
        ≡ answer sha256 (get_user_from_login sha256 true id pass db)
  unfolding check_login
  check_login-found id pass db valid strong = rw (valid, strong) refl

  check_login-same :
      (id pass : Bytes) (db db' : Database)
      → get_user_from_login sha256 true id pass db' ≡ get_user_from_login sha256 true id pass db
      → check_login sha256 true (some (id, pass)) db' ≡ check_login sha256 true (some (id, pass)) db
  unfolding check_login
  check_login-same id pass db db' e = rw e refl

  own_login :
      (id pass : Bytes) (db db' : Database)
      → modify_user sha256 true id pass 0 db ≡ ok db'
      → get_user_from_login sha256 true id pass db'
        ≡ ok (new_server_user_data sha256 id pass default_expiry)
  own_login id pass db db' e =
      login-modify_user sha256 id pass 0 db db' id pass e
      ∙ ground (arith, eq_iff id id, eq_iff (sha256 pass) (sha256 pass))

  other_login :
      (id pass : Bytes) (db db' : Database) (other guess : Bytes)
      → modify_user sha256 true id pass 0 db ≡ ok db'
      → (id == other) ≡ false
      → get_user_from_login sha256 true other guess db'
        ≡ get_user_from_login sha256 true other guess db
  other_login id pass db db' other guess e apart =
      login-modify_user sha256 id pass 0 db db' other guess e ∙ rw apart refl

  -- Where the message of the form ends with the news that the credentials are created, the login with
  -- this id and password is accepted, for the default expiry, and the login of every other id is
  -- answered as before.
  pub created-accepted :
      (sent edited works : Bool) (id pass : Bytes) (db : Database)
      → let r = i_modal_submit sha256 sent edited works id pass db in
        r.notices ≡ validating ∷ (created ∷ [])
        → (check_login sha256 true (some (id, pass)) r.database
            ≡ accepted (new_server_user_data sha256 id pass default_expiry))
          × ((other guess : Bytes)
              → (id == other) ≡ false
              → check_login sha256 true (some (other, guess)) r.database
                ≡ check_login sha256 true (some (other, guess)) db)
  created-accepted sent edited works id pass db news =
      let db' = (i_modal_submit sha256 sent edited works id pass db).database in
      let stored = submit-created sent edited works id pass db news in
      let (valid, strong, stored') = modify_user-checked works id pass db db' stored in
      (
        check_login-found id pass db' valid strong
            ∙ ap (answer sha256) (own_login id pass db db' stored'),
        λ other guess apart.
            check_login-same other guess db db'
              (other_login id pass db db' other guess stored' apart),
      )
