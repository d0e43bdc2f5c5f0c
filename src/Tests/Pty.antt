-- ===== src/Tests/Pty.antt =====
-- The theorems on terminal sessions and scenarios, at a concrete session and declaration.
use failroom.Prelude.{
  text_beq, ℕ, zero, suc, List, [], ◌∷◌, some, none, ◌≡◌, ◌≤◌, refl, true, arith, length,
}
use failroom.Prelude.Answers.{returns}
use failroom.Sandbox.Limits.{PtyLimits, limits_valid, opening_size, size}
use failroom.Sandbox.Pty.{
  Opened, Outside, Bytes, bytes, new_session, Request, reads, writes, resizes_to, signals, ends,
  handle_all, write, write_loop, write_active, active, drop, close,
}
use failroom.Sandbox.Scenario.{
  DiskFullScenario, parse_disk_full_scenario, parse_fields, numbers_invalid, disk_full_declaration,
  resolve,
}
use failroom.Sandbox.Declared.{Exhausts, parse_disk_full_scenario-Exhausts}
use failroom.Api.Capability.{has_keys, among, lookup}
use failroom.Sandbox.Device.{ReadsWithin, WritesSome}
use failroom.Sandbox.Sizes.{Fits, Asked, opening_size-Fits}
use failroom.Sandbox.Budget.{handle_all-limit}
use failroom.Sandbox.Closing.{Tidy, handle_all-Tidy, handle_all-closed}
use failroom.Sandbox.Writing.{sent, write-sends, write_loop-ends}

abbrev limits : PtyLimits
limits = record {
  input_bytes = 10;
  output_bytes = 5;
  session_seconds = 60;
  rows = 20;
  columns = 100;
}

abbrev session : Opened
session = record { limits = limits; started = 0; has_cleanup = true; has_termios = true }

-- reads give at most two bytes, and writes take one
abbrev some_bytes : ℕ → Bytes
some_bytes zero = []
some_bytes (suc zero) = 65 ∷ []
some_bytes (suc (suc n)) = 65 ∷ 66 ∷ []

abbrev outside : Outside
outside = record {
  time = λ n. n;
  read = λ call n. bytes (some_bytes n);
  write = λ call data_. some 1;
  resized = λ call. true;
  exited = λ call. true;
}

length-some_bytes : (n : ℕ) → length (some_bytes n) ≤ n
length-some_bytes zero = omega arith
length-some_bytes (suc zero) = omega arith
length-some_bytes (suc (suc n)) = omega arith

reads_within : ReadsWithin outside
reads_within = record { read_le = λ call n d e. ground (arith, length-some_bytes n) }

writes_some : WritesSome outside
writes_some = record { write_some = λ call n d h e. (ground arith, ground arith) }

abbrev requests : List Request
requests =
    reads 4
    ∷ writes (104 ∷ 105 ∷ [])
    ∷ signals 2
    ∷ resizes_to (some 10) (some 20)
    ∷ reads 4
    ∷ reads 4
    ∷ reads 4
    ∷ ends
    ∷ []

handle_all-limit_example :
    length (handle_all session outside requests (new_session (67 ∷ []))).0 ≤ 5
handle_all-limit_example = handle_all-limit session outside reads_within requests (67 ∷ [])

tidy : Tidy session (new_session (67 ∷ []))
tidy = record { cleanup = refl; client = refl; descriptor = refl }

handle_all-Tidy_example :
    Tidy session (handle_all session outside requests (new_session (67 ∷ []))).1
handle_all-Tidy_example = handle_all-Tidy session outside requests (new_session (67 ∷ [])) tidy

closed : (close session (new_session [])).closed ≡ true
unfolding close
closed = refl

handle_all-closed_example :
    handle_all session outside requests (close session (new_session []))
    ≡ ([], close session (new_session []))
handle_all-closed_example =
    handle_all-closed session outside requests (close session (new_session [])) closed

valid : limits_valid limits ≡ true
unfolding limits_valid
valid = refl

standard : opening_size none none limits ≡ returns (20, 80)
unfolding opening_size size
standard = refl

opening_size-Fits_example : Fits limits (20, 80) × Asked none none limits (20, 80)
opening_size-Fits_example = opening_size-Fits limits none none (20, 80) valid standard

written : (write session outside (104 ∷ 105 ∷ []) (new_session [])).0 ≡ returns tt
unfolding write active write_active write_loop drop
written = refl

write-sends_example :
    sent (write session outside (104 ∷ 105 ∷ []) (new_session [])).1.effects ≡ 104 ∷ 105 ∷ []
write-sends_example =
    write-sends session outside writes_some (104 ∷ 105 ∷ []) (new_session []) written

write_loop-ends_example :
    write_loop session outside 9 (104 ∷ 105 ∷ []) (new_session [])
    ≡ write_loop session outside 2 (104 ∷ 105 ∷ []) (new_session [])
write_loop-ends_example =
    write_loop-ends session outside writes_some 9 (104 ∷ 105 ∷ []) (new_session []) (omega arith)

-- the scenario of the reviewed room

abbrev disk_full : DiskFullScenario
disk_full = record {
  filler_path = "/workspace/.failroom-disk-full";
  filler_bytes = 60000000;
  recovery_free_bytes = 8000000;
  target_working_set_bytes = 8000000;
  target_ready_timeout_seconds = 5;
}

parsed : parse_disk_full_scenario disk_full_declaration 67108864 ≡ returns disk_full
unfolding parse_disk_full_scenario parse_fields numbers_invalid has_keys among lookup text_beq
parsed = refl

resolved : resolve "disk-full" 67108864 ≡ returns (some disk_full)
unfolding resolve parse_disk_full_scenario parse_fields numbers_invalid has_keys among lookup
    text_beq
resolved = refl

parse_disk_full_scenario-Exhausts_example : Exhausts disk_full 67108864
parse_disk_full_scenario-Exhausts_example =
    parse_disk_full_scenario-Exhausts disk_full_declaration 67108864 disk_full parsed
