-- ===== src/Credentials.antt =====
-- backend/core/root/commands/credentials: the command that opens the form for credentials, and the
-- form's submission, over Login.Users and Components. `sent` and `edited` say that Discord takes the
-- message and its edit, `works` that the statement works. The message stands for what it says.
pub mod Created
use poll_bot.Common.{
  Bool, true, false, not, Option, none, some, List, [], ◌∷◌, String, Bytes, if◌then◌else◌,
}
use poll_bot.Components.{
  Returned, Callback, ComponentCallbacks, ComponentCallbackManager, Outcome, register,
}
use poll_bot.Login.Users.{LoginError, Run, ok, err, panics, Database, modify_user}

pub data Notice : Type 0 where
  validating : Notice
  created : Notice
  not_created : LoginError → Notice

-- What a submission returns, none for a panic, with the contents of the message one after the other.
pub record Submitted : Type 0 where
  pub result : Option Returned
  pub notices : List Notice
  pub database : Database

abbrev pub ends : Bool → Notice → Database → Submitted
ends edited notice db = record {
  result = some (record { failed = not edited; done = true });
  notices = validating ∷ (notice ∷ []);
  database = db;
}

unfoldable pub told : Bool → Run Database → Database → Submitted
told edited (ok db') db = ends edited created db'
told edited (err e) db = ends edited (not_created e) db
told edited panics db = record { result = none; notices = validating ∷ []; database = db }

-- iModalSubmit
unfoldable pub i_modal_submit :
    (Bytes → Bytes) → Bool → Bool → Bool → Bytes → Bytes → Database → Submitted
unfolding told
i_modal_submit sha256 sent edited works id pass db =
    if sent then told edited (modify_user sha256 works id pass 0 db) db else record {
      result = some (record { failed = true; done = false });
      notices = validating ∷ [];
      database = db;
    }

-- iModalClose
abbrev pub i_modal_close : Callback
i_modal_close i = record { failed = false; done = true }

-- `submit` is iModalSubmit with the state of the session.
unfoldable pub create_credential_set_session :
    Callback → String → ComponentCallbackManager → Outcome
create_credential_set_session submit user man =
    register "cred-set"
      (record {
        intxn_id = user;
        callbacks = ("cred-set-modal-submit", submit) ∷ (("cred-set-close", i_modal_close) ∷ []);
        busy = false;
      })
      man

-- Whether the command fails; `shown` says that Discord takes the form.
unfoldable pub show_form : Bool → Outcome → Bool × ComponentCallbackManager
show_form shown (some e, man) = (true, man)
show_form shown (none, man) = (not shown, man)

-- cmd_set_credentials
unfoldable pub cmd_set_credentials :
    Callback → Bool → String → ComponentCallbackManager → Bool × ComponentCallbackManager
unfolding create_credential_set_session show_form
cmd_set_credentials submit shown user man =
    show_form shown (create_credential_set_session submit user man)
