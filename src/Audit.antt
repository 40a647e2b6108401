-- ===== src/Audit.antt =====
-- backend/core/root/managers/audit: the flags of the logger, and what its consumer does with an
-- entry. `&^` and `|` are written with subtraction and addition of the common bits. The clock's date
-- and what the operating system answers are arguments; entries that the consumer adds itself are
-- queued. Of a file the model keeps the entries written to it since it was opened.
pub mod Silence
pub mod Consumer
pub mod Accounts
pub mod Closing
use poll_bot.Common.{
  ℕ, ◌+◌, ◌-◌, Bool, true, false, ◌&&◌, ◌||◌, not, Option, none, some, List, [], ◌∷◌, ◌++◌, String,
  string_comparable, ◌==◌, if◌then◌else◌, nat_beq,
}
use poll_bot.Datas.AtomicQueue.Bits.{bit_and}

abbrev pub error_is_panic : ℕ
error_is_panic = 1

abbrev pub error_is_warn : ℕ
error_is_warn = 2

abbrev pub error_is_pass : ℕ
error_is_pass = 4

abbrev pub write_memory : ℕ
write_memory = 8

abbrev pub write_file : ℕ
write_file = 16

abbrev pub file_append : ℕ
file_append = 32

abbrev pub file_overwrite : ℕ
file_overwrite = 64

abbrev pub file_error_not_found : ℕ
file_error_not_found = 128

-- The keys of logStrings, which is made before `init` gives Default its flags.
abbrev pub log_flags : List ℕ
log_flags =
    0 ∷ error_is_panic ∷ error_is_warn ∷ error_is_pass ∷ write_memory ∷ write_file ∷ file_append
    ∷ file_overwrite ∷ file_error_not_found ∷ []

unfoldable pub has_flag : ℕ → ℕ → Bool
unfolding bit_and
has_flag cmp f = nat_beq (bit_and 64 f cmp) f

unfoldable pub without : ℕ → ℕ → ℕ
unfolding bit_and
without flags f = flags - bit_and 64 flags f

unfoldable pub with_flag : ℕ → ℕ → ℕ
unfolding bit_and
with_flag flags f = flags + f - bit_and 64 flags f

unfoldable pub without_all : List ℕ → ℕ → ℕ
unfolding without
without_all [] flags = flags
without_all (f ∷ fs) flags = without_all fs (without flags f)

pub data FlagError : Type 0 where
  missing_write : FlagError
  unknown_flag : FlagError

unfoldable pub check_flags : ℕ → Option FlagError
unfolding without_all with_flag
check_flags flags =
    if nat_beq (bit_and 64 flags (with_flag write_file write_memory)) 0
    then some missing_write
    else if nat_beq (without_all log_flags flags) 0
    then none
    else some unknown_flag

-- getFFlag: whether the file is truncated, and whether it is made
pub record FileFlag : Type 0 where
  pub truncates : Bool
  pub creates : Bool

unfoldable pub get_f_flag : ℕ → FileFlag
unfolding has_flag
get_f_flag flags = record {
  truncates = has_flag flags file_overwrite;
  creates = not (has_flag flags file_error_not_found);
}

pub data Kind : Type 0 where
  warn : Kind
  log : Kind

pub record Entry : Type 0 where
  pub kind : Kind
  pub value : String

pub record Log : Type 0 where
  pub flags : ℕ
  pub date : String
  pub file : List Entry
  pub printed : List Entry
  pub queued : List Entry

-- log.Warn from the consumer: the entry goes to the queue.
abbrev pub warn_later : String → Log → Log
warn_later text l = record l { queued = l.queued ++ record { kind = warn; value = text } ∷ [] }

-- What the consumer meets at an entry: the date, whether a new file opens, whether the old one
-- closes, and whether the write to the file works.
pub record Turn : Type 0 where
  pub date : String
  pub opens : Bool
  pub closes : Bool
  pub writes : Bool

-- The end of tryMigrate, once the date has changed and the log goes to a file
unfoldable pub migrate : Turn → Log → Log
migrate t l =
    if not t.opens
    then warn_later "Couldn't migrate file" l
    else if t.closes
    then warn_later "[MIGRATED]" (record l { file = [] })
    else warn_later "Error while closing file" (warn_later "[MIGRATED]" (record l { file = [] }))

unfoldable pub try_migrate : Turn → Log → Log
unfolding migrate has_flag
try_migrate t l =
    if t.date == l.date
    then l
    else if not (has_flag l.flags write_file)
    then record l { date = t.date }
    else migrate t (warn_later "[MIGRATING]" (record l { date = t.date }))

-- What an entry's promise gets, or the panic of the consumer.
pub data Wrote : Type 0 where
  fine : Wrote
  passed_error : Wrote
  panicked : Wrote

unfoldable pub handle_error : Log → Wrote × Log
unfolding has_flag with_flag without
handle_error l =
    if has_flag l.flags error_is_pass
    then (passed_error, l)
    else if has_flag l.flags error_is_warn
    then (
      fine,
      warn_later "error"
          (record l { flags = with_flag (bit_and 64 l.flags error_is_warn) error_is_pass }),
    )
    else (panicked, record l { flags = with_flag (without l.flags error_is_panic) error_is_pass })

unfoldable pub print_entry : Entry → Log → Log
unfolding has_flag
print_entry e l =
    if has_flag l.flags write_memory then record l { printed = l.printed ++ e ∷ [] } else l

-- doWarn and doAdd, after tryMigrate; they differ in the group they print.
unfoldable pub write_entry : Bool → Entry → Log → Wrote × Log
unfolding handle_error print_entry
write_entry works e l =
    if not (has_flag l.flags write_file)
    then (fine, print_entry e l)
    else if works
    then (fine, print_entry e (record l { file = l.file ++ e ∷ [] }))
    else handle_error l

unfoldable pub do_entry : Turn → Entry → Log → Wrote × Log
unfolding write_entry try_migrate
do_entry t e l = write_entry t.writes e (try_migrate t l)

-- The loop of runConsumer over the entries that it pops
unfoldable pub consume : List (Turn × Entry) → Log → Log
unfolding do_entry
consume [] l = l
consume ((t, e) ∷ rest) l = consume rest (do_entry t e l).1
