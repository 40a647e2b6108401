-- ===== src/Audit/Silence.antt =====
-- A failed write of the logger in backend/core/root/managers/audit/log.go, under ErrorIsWarn.
use poll_bot.Common.{
  ℕ, ◌+◌, ◌-◌, ◌≡◌, refl, ap, ◌∙◌, Bool, true, false, List, [], ◌∷◌, string_comparable, ◌==◌,
  Bool-cases, inl, inr, nat_beq_iff,
}
use poll_bot.Datas.AtomicQueue.Bits.{bit_and, bit_and_comm}
use poll_bot.Audit.{
  Log, Entry, Turn, has_flag, with_flag, error_is_warn, error_is_pass, write_file, write_memory,
  try_migrate, handle_error, print_entry, write_entry, do_entry, consume,
}

-- The flags that handleError leaves under ErrorIsWarn
left_flags :
    (flags : ℕ)
    → has_flag flags error_is_warn ≡ true
    → with_flag (bit_and 64 flags error_is_warn) error_is_pass ≡ 6
unfolding has_flag with_flag bit_and
left_flags flags warns =
    let kept : bit_and 64 flags 2 ≡ 2 =
      bit_and_comm 64 flags 2 ∙ (nat_beq_iff (bit_and 64 2 flags) 2).0 warns in
    ap (λ n. n + 4 - bit_and 64 n 4) kept

no_file : has_flag 6 write_file ≡ false
unfolding has_flag bit_and
no_file = refl

no_memory : has_flag 6 write_memory ≡ false
unfolding has_flag bit_and
no_memory = refl

-- What an entry leaves as it was, where the flags are these
record IsSilent (l l' : Log) : Type 0 where
  flags : l'.flags ≡ 6
  file : l'.file ≡ l.file
  printed : l'.printed ≡ l.printed

try_migrate-IsSilent : (t : Turn) (l : Log) → l.flags ≡ 6 → IsSilent l (try_migrate t l)
unfolding try_migrate
try_migrate-IsSilent t l left = elim (Bool-cases (t.date == l.date)) [
  | inl today ↦ simp today (record { flags = left; file = refl; printed = refl })
  | inr later ↦
      let no_write : has_flag l.flags write_file ≡ false =
        ap (λ n. has_flag n write_file) left ∙ no_file in
      simp (later, no_write) (record { flags = left; file = refl; printed = refl })
]

write_entry-IsSilent :
    (works : Bool) (e : Entry) (l : Log) → l.flags ≡ 6 → IsSilent l (write_entry works e l).1
unfolding write_entry print_entry
write_entry-IsSilent works e l left =
    let no_write : has_flag l.flags write_file ≡ false =
      ap (λ n. has_flag n write_file) left ∙ no_file in
    let no_print : has_flag l.flags write_memory ≡ false =
      ap (λ n. has_flag n write_memory) left ∙ no_memory in
    simp (no_write, no_print) (record { flags = left; file = refl; printed = refl })

consume-IsSilent :
    (entries : List (Turn × Entry)) (l : Log) → l.flags ≡ 6 → IsSilent l (consume entries l)
unfolding consume do_entry
consume-IsSilent [] l left = record { flags = left; file = refl; printed = refl }
consume-IsSilent ((t, e) ∷ rest) l left =
    let day = try_migrate-IsSilent t l left in
    let entry = write_entry-IsSilent t.writes e (try_migrate t l) day.flags in
    let later = consume-IsSilent rest (write_entry t.writes e (try_migrate t l)).1 entry.flags in
    record {
      flags = later.flags;
      file = later.file ∙ entry.file ∙ day.file;
      printed = later.printed ∙ entry.printed ∙ day.printed;
    }

fail_lem :
    (e : Entry) (l : Log)
    → has_flag l.flags write_file ≡ true
    → has_flag l.flags error_is_pass ≡ false
    → has_flag l.flags error_is_warn ≡ true
    → ((write_entry false e l).1.flags ≡ 6)
      × ((write_entry false e l).1.file ≡ l.file)
      × ((write_entry false e l).1.printed ≡ l.printed)
unfolding write_entry handle_error
fail_lem e l to_file no_pass warns =
    simp (to_file, no_pass, warns) (left_flags l.flags warns, refl, refl)

-- A logger that writes to a file and warns of errors: after one write to the file that fails, no
-- entry is ever written again, neither to the file nor to memory, even if every later write would
-- work and whatever the date does.
pub consume_silenced :
    (e : Entry) (l : Log) (entries : List (Turn × Entry))
    → has_flag l.flags write_file ≡ true
    → has_flag l.flags error_is_pass ≡ false
    → has_flag l.flags error_is_warn ≡ true
    → let l' = consume entries (write_entry false e l).1 in
      (l'.file ≡ l.file) × (l'.printed ≡ l.printed)
consume_silenced e l entries to_file no_pass warns =
    let (left, file, printed) = fail_lem e l to_file no_pass warns in
    let later = consume-IsSilent entries (write_entry false e l).1 left in
    (later.file ∙ file, later.printed ∙ printed)
